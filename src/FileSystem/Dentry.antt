-- ===== src/FileSystem/Dentry.antt =====
-- Which directory entry read_dentry_by_name and read_dentry_by_index load, and what they load of it.
use unix_operation_system.Prelude.{
  ℕ, zero, suc, ◌+◌, ◌≤◌, ◌<◌, ◌≡◌, ◌↔◌, refl, ◌⊎◌, inl, inr, some, Bool, true, false, arith, ◌∙◌,
  ◌==◌, Bool-cases, ne→==, eq→==, ◌||◌,
}
use unix_operation_system.Prelude.Int.{ℤ, pos, fail, is_nat}
use unix_operation_system.Memory.{
  Memory, IsString, Apart, SameOutside, word32, copy_word, copy_word-outside, word32-copy_word,
  word32-same, word32-outside, lt-max_rounds,
}
use unix_operation_system.Strings.{strncmp_unsigned}
use unix_operation_system.Strings.Copy.{Copied, strcpy_unsigned-Copied}
use unix_operation_system.Strings.Compare.{SamePrefix, strncmp_unsigned-zero}
use unix_operation_system.FileSystem.Layout.{dir_entry, dir_bytes, filename_len}
use unix_operation_system.FileSystem.{load_dentry, by_name_loop, read_dentry_by_name}

-- What the caller's dentry holds when the entry at `e`, whose name has `n` characters, is loaded.
pub record Loaded (m : Memory) (dentry e n : ℕ) (m' : Memory) : Type 0 where
  pub name : (i : ℕ) → i ≤ n → i < 32 → m' (dentry + i) ≡ m (e + i)
  pub filetype : word32 m' (dentry + 32) ≡ word32 m (e + 32)
  pub inode_num : word32 m' (dentry + 36) ≡ word32 m (e + 36)
  pub outside : SameOutside dentry 64 m m'

-- The entry at `e` has a name that ends within the entry, and does not overlap the dentry.
pub record IsEntry (m : Memory) (dentry e n : ℕ) : Type 0 where
  pub str : IsString m e n
  pub short : n < 64
  pub apart : Apart e 64 dentry 64

module _ {m : Memory} {dentry e n : ℕ} (is : IsEntry m dentry e n) where
  apart : Apart e (n + 1) dentry (n + 1)
  apart = ground (arith, is.apart, is.short)

  -- The three assignments after the copy of the name, in the memory that the copy leaves
  assigned : Memory → Memory
  assigned m' = copy_word (copy_word m' (dentry + 32) (e + 32)) (dentry + 36) (e + 36)

  word-Copied :
      {m' : Memory}
      → Copied m dentry e n m'
      → (a : ℕ) → e ≤ a
      → a + 4 ≤ e + 64
      → word32 m' a ≡ word32 m a
  word-Copied {m'} c a p q =
      word32-same m m' a (same a p (omega arith)) (same (a + 1) (omega arith) (omega arith))
        (same (a + 2) (omega arith) (omega arith)) (same (a + 3) (omega arith) (omega arith))
    where
      same : (b : ℕ) → e ≤ b → b < e + 64 → m' b ≡ m b
      same b p q = c.outside b (ground (arith, is.apart, is.short))

  Loaded-assigned : {m' : Memory} → Copied m dentry e n m' → Loaded m dentry e n (assigned m')
  unfolding assigned
  Loaded-assigned {m'} c = record {
    name = λ i l k.
        copy_word-outside _ _ _ _ (inl (omega arith))
        ∙ copy_word-outside _ _ _ _ (inl (omega arith))
        ∙ c.same i l;
    filetype =
        word32-outside (copy_word m' (dentry + 32) (e + 32)) (dentry + 36) (e + 36) (dentry + 32)
          (inl (omega arith))
        ∙ word32-copy_word m' (dentry + 32) (e + 32)
        ∙ word-Copied c (e + 32) (omega arith) (omega arith);
    inode_num =
        word32-copy_word (copy_word m' (dentry + 32) (e + 32)) (dentry + 36) (e + 36)
        ∙ word32-outside m' (dentry + 32) (e + 32) (e + 36) (ground (arith, is.apart))
        ∙ word-Copied c (e + 36) (omega arith) (omega arith);
    outside = λ p o.
        copy_word-outside _ _ _ _ (ground arith)
        ∙ copy_word-outside _ _ _ _ (ground arith)
        ∙ c.outside p (ground (arith, is.short));
  }

pub load_dentry-Loaded :
    {m : Memory} {dentry e n : ℕ}
    → IsEntry m dentry e n
    → (m' : Memory) × (load_dentry m dentry e ≡ some (pos 0, m')) × Loaded m dentry e n m'
unfolding load_dentry assigned
load_dentry-Loaded {m} {n} is =
    let c =
      strcpy_unsigned-Copied (apart is) m is.str (lt-max_rounds n (omega (arith, is.short))) in
    (assigned is c.0, rw c.1, Loaded-assigned is c.2)

-- Entry `i` is the first of those before the bound whose name agrees with that at `fname` in 32
-- bytes, or up to the NUL.
pub record FirstMatch (m : Memory) (boot fname i : ℕ) : Type 0 where
  pub within : i < dir_bytes
  pub matches : SamePrefix m fname (dir_entry boot i) filename_len
  pub earlier : (j : ℕ) → j < i → ¬ SamePrefix m fname (dir_entry boot j) filename_len

abbrev test : Memory → ℕ → ℕ → ℕ → Bool
test m boot fname i = is_nat (strncmp_unsigned m fname (dir_entry boot i) filename_len) 0

pub is_nat-zero : (z : ℤ) → (is_nat z 0 ≡ true) ↔ (z ≡ pos 0)
is_nat-zero z = ground arith

module _ (m : Memory) (boot fname : ℕ) where
  test-match :
      (i : ℕ) → SamePrefix m fname (dir_entry boot i) filename_len → test m boot fname i ≡ true
  test-match i s =
      (is_nat-zero _).1 ((strncmp_unsigned-zero m fname (dir_entry boot i) filename_len).1 s)

  test-no_match :
      (i : ℕ) → ¬ SamePrefix m fname (dir_entry boot i) filename_len → test m boot fname i ≡ false
  test-no_match i ns = elim (Bool-cases (test m boot fname i)) [
    | inl t ↦ absurd (
        ns
          ((strncmp_unsigned-zero m fname (dir_entry boot i) filename_len).0 ((is_nat-zero _).0 t)))
    | inr f ↦ f
  ]

  by_name_loop-first :
      (k i j at dentry : ℕ)
      → i + j ≡ at
      → test m boot fname at ≡ true
      → ((l : ℕ) → l < at → test m boot fname l ≡ false)
      → j < k
      → by_name_loop k m boot fname dentry i ≡ load_dentry m dentry (dir_entry boot at)
  unfolding by_name_loop
  by_name_loop-first zero i j at dentry s t e h = absurd (omega arith)
  by_name_loop-first (suc k) i zero at dentry s t e h =
      let here : i ≡ at = omega arith in rw (here, t)
  by_name_loop-first (suc k) i (suc j) at dentry s t e h =
      rw (e i (omega arith))
        (by_name_loop-first k (i + 1) j at dentry (omega arith) t e (omega arith))

  by_name_loop-none :
      (k i dentry : ℕ)
      → ((l : ℕ) → l < i + k → test m boot fname l ≡ false)
      → by_name_loop k m boot fname dentry i ≡ some (fail, m)
  unfolding by_name_loop
  by_name_loop-none zero i dentry e = refl
  by_name_loop-none (suc k) i dentry e =
      rw (e i (omega arith)) (by_name_loop-none k (i + 1) dentry (λ l q. e l (omega arith)))

-- For non-null arguments, and an entry that is the first to agree with the name, has a name that
-- ends within the entry and does not overlap the dentry, read_dentry_by_name returns 0: name,
-- type and inode number are the entry's, and no byte outside the dentry changes.
pub read_dentry_by_name-first :
    (m : Memory) (boot fname dentry i n : ℕ)
    → 0 < fname
    → 0 < dentry
    → FirstMatch m boot fname i
    → IsEntry m dentry (dir_entry boot i) n
    → (m' : Memory) × (read_dentry_by_name m boot fname dentry ≡ some (pos 0, m'))
      × Loaded m dentry (dir_entry boot i) n m'
unfolding read_dentry_by_name
read_dentry_by_name-first m boot fname dentry i n hf hd first is =
    let loaded = load_dentry-Loaded is in
    let loop =
      by_name_loop-first m boot fname dir_bytes 0 i i dentry (omega arith)
        (test-match m boot fname i first.matches)
        (λ l q. test-no_match m boot fname l (first.earlier l q)) first.within in
    (
      loaded.0,
      rw (ne→== fname 0 (omega arith), ne→== dentry 0 (omega arith)) (loop ∙ loaded.1),
      loaded.2,
    )

-- With a null argument, or when no entry before the bound agrees with the name,
-- read_dentry_by_name returns -1 and changes nothing.
pub read_dentry_by_name-none :
    (m : Memory) (boot fname dentry : ℕ)
    → ((fname ≡ 0) ⊎ (dentry ≡ 0))
      ⊎ ((i : ℕ) → i < dir_bytes → ¬ SamePrefix m fname (dir_entry boot i) filename_len)
    → read_dentry_by_name m boot fname dentry ≡ some (fail, m)
unfolding read_dentry_by_name
read_dentry_by_name-none m boot fname dentry (inl (inl e)) = rw (eq→== fname 0 e)
read_dentry_by_name-none m boot fname dentry (inl (inr e)) = elim (Bool-cases (fname == 0)) [
  | inl z ↦ rw z
  | inr nz ↦ rw (nz, eq→== dentry 0 e)
]
read_dentry_by_name-none m boot fname dentry (inr no_match) =
    let loop =
      by_name_loop-none m boot fname dir_bytes 0 dentry
        (λ l q. test-no_match m boot fname l (no_match l (omega arith))) in
    elim (Bool-cases ((fname == 0) || (dentry == 0))) [ inl z ↦ rw z | inr nz ↦ rw nz loop ]
