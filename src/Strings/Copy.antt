-- ===== src/Strings/Copy.antt =====
-- What strcpy_unsigned and strncpy_unsigned leave in memory.
use unix_operation_system.Prelude.{
  ℕ, zero, suc, ◌+◌, ◌≤◌, ◌<◌, ◌≡◌, ◌≢◌, refl, ◌⊎◌, inl, inr, some, arith, ltb, leb, ◌&&◌, false,
  ◌==◌, Bool-cases, if◌then◌else◌,
}
use unix_operation_system.Memory.{Memory, write, IsString, Apart, SameOutside, max_rounds}
use unix_operation_system.Strings.{
  strcpy_loop, strcpy_unsigned, pad_loop, strncpy_loop, strncpy_unsigned,
}

-- The memory after `n + 1` bytes have been copied from `src` to `dest`.
pub record Copied (m : Memory) (dest src n : ℕ) (m' : Memory) : Type 0 where
  pub same : (i : ℕ) → i ≤ n → m' (dest + i) ≡ m (src + i)
  pub outside : SameOutside dest (n + 1) m m'

-- The memory while bytes from `i` on are still to be copied.
record CopiedFrom (m : Memory) (dest src n i : ℕ) (m' : Memory) : Type 0 where
  same : (j : ℕ) → i ≤ j → j ≤ n → m' (dest + j) ≡ m (src + j)
  outside : (p : ℕ) → (p < dest + i) ⊎ (dest + n < p) → m' p ≡ m p

module _ {dest src n : ℕ} (apart : Apart src (n + 1) dest (n + 1)) where
  IsString-write :
      {m : Memory} (i v : ℕ) → IsString m src n → i ≤ n → IsString (write m (dest + i) v) src n
  IsString-write i v str h = record {
    ends = ground (arith, str.ends);
    goes_on = λ j l. ground (arith, str.goes_on j l);
  }

  CopiedFrom-step :
      {m m' : Memory} (i : ℕ)
      → i < n
      → CopiedFrom (write m (dest + i) (m (src + i))) dest src n (i + 1) m'
      → CopiedFrom m dest src n i m'
  CopiedFrom-step i h c = record {
    same = λ j l k. elim (Bool-cases (i == j)) [
      | inl e ↦ ground (arith, c.outside (dest + j))
      | inr ne ↦ ground (arith, c.same j)
    ];
    outside = λ p o. ground (arith, c.outside p);
  }

  strcpy_loop-IsString :
      (f i : ℕ) (m : Memory)
      → IsString m src n
      → i ≤ n
      → n < i + f
      → (m' : Memory) × (strcpy_loop f m dest src i ≡ some m') × CopiedFrom m dest src n i m'
  unfolding strcpy_loop
  strcpy_loop-IsString zero i m str h fuel = absurd (omega arith)
  strcpy_loop-IsString (suc f) i m str h fuel = elim (Bool-cases (i == n)) [
    | inl e ↦ (
      write m (dest + i) 0,
      ground (arith, str.ends),
      record { same = λ j l k. ground (arith, str.ends); outside = λ p o. ground arith },
    )
    | inr ne ↦
        let rest =
          strcpy_loop-IsString f (i + 1) (write m (dest + i) (m (src + i)))
            (IsString-write i (m (src + i)) str h) (ground arith) (omega arith) in
        (rest.0, ground (arith, str.goes_on i, rest.1), CopiedFrom-step i (ground arith) rest.2)
  ]

  -- strcpy_unsigned of a string that does not overlap its destination, and is shorter than the
  -- address space, ends; it copies the string with its NUL, and changes nothing else.
  pub strcpy_unsigned-Copied :
      (m : Memory)
      → IsString m src n
      → n < max_rounds
      → (m' : Memory) × (strcpy_unsigned m dest src ≡ some m') × Copied m dest src n m'
  unfolding strcpy_unsigned
  strcpy_unsigned-Copied m str fits =
      let r = strcpy_loop-IsString max_rounds 0 m str (omega arith) (omega arith) in
      (
        r.0,
        r.1,
        record {
          same = λ i l. r.2.same i (omega arith) l;
          outside = λ p o. r.2.outside p (omega arith);
        },
      )

-- The first `l` bytes at `src` are no NULs, and what follows them is one, or is past `n`.
pub record Prefix (m : Memory) (src n l : ℕ) : Type 0 where
  pub short : l ≤ n
  pub chars : (i : ℕ) → i < l → m (src + i) ≢ 0
  pub stops : (l ≡ n) ⊎ (m (src + l) ≡ 0)

-- The memory after `n` bytes at `dest` have been filled with the characters, then with NULs.
pub record Filled (m : Memory) (dest src n l : ℕ) (m' : Memory) : Type 0 where
  pub copied : (i : ℕ) → i < l → m' (dest + i) ≡ m (src + i)
  pub padded : (i : ℕ) → l ≤ i → i < n → m' (dest + i) ≡ 0
  pub outside : SameOutside dest n m m'

pub pad_loop_lem :
    (k i : ℕ) (m : Memory) (dest p : ℕ)
    → pad_loop k m dest i p ≡ (if leb (dest + i) p && ltb p (dest + i + k) then 0 else m p)
unfolding pad_loop
pad_loop_lem zero i m dest p = ground arith
pad_loop_lem (suc k) i m dest p =
    ground (arith, pad_loop_lem k (i + 1) (write m (dest + i) 0) dest p)

-- The same while bytes from `i` on are still to be filled.
record FilledFrom (dest src n l : ℕ) (m : Memory) (i : ℕ) (m' : Memory) : Type 0 where
  copied : (j : ℕ) → i ≤ j → j < l → m' (dest + j) ≡ m (src + j)
  padded : (j : ℕ) → i ≤ j → l ≤ j → j < n → m' (dest + j) ≡ 0
  outside : (p : ℕ) → (p < dest + i) ⊎ (dest + n ≤ p) → m' p ≡ m p

module _ {dest src n l : ℕ} (apart : Apart src n dest n) where
  Prefix-write :
      {m : Memory} (i v : ℕ) → Prefix m src n l → i < n → Prefix (write m (dest + i) v) src n l
  Prefix-write i v pre h = record {
    short = pre.short;
    chars = λ j q. ground (arith, pre.chars j q, pre.short);
    stops = ground (arith, pre.stops, pre.short);
  }

  strncpy_loop-FilledFrom :
      (k i : ℕ) (m : Memory)
      → Prefix m src n l
      → i ≤ l
      → i + k ≡ n
      → FilledFrom dest src n l m i (strncpy_loop k m dest src i)
  unfolding strncpy_loop
  strncpy_loop-FilledFrom zero i m pre h e = record {
    copied = λ j p q. absurd (omega (arith, pre.short));
    padded = λ j p q r. absurd (omega arith);
    outside = λ p o. refl;
  }
  strncpy_loop-FilledFrom (suc k) i m pre h e = elim (Bool-cases (i == l)) [
    | inl z ↦
        let nul : m (src + i) ≡ 0 = ground (arith, pre.stops) in
        rw nul (record {
          copied = λ j p q. absurd (ground arith);
          padded = λ j p q r. ground (arith, pad_loop_lem (suc k) i m dest (dest + j));
          outside = λ p o. ground (arith, pad_loop_lem (suc k) i m dest p);
        })
    | inr more ↦
        let rest =
          strncpy_loop-FilledFrom k (i + 1) (write m (dest + i) (m (src + i)))
            (Prefix-write i (m (src + i)) pre (omega arith)) (ground arith) (omega arith) in
        let char : (m (src + i) == 0) ≡ false = ground (arith, pre.chars i) in
        rw char (record {
          copied = λ j p q. elim (Bool-cases (i == j)) [
            | inl s ↦ ground (arith, rest.outside (dest + j))
            | inr d ↦ ground (arith, rest.copied j, pre.short)
          ];
          padded = λ j p q r. ground (arith, rest.padded j);
          outside = λ p o. ground (arith, rest.outside p);
        })
  ]

  -- Where source and destination are apart, strncpy_unsigned leaves at the `n` bytes of the
  -- destination the characters of the source and then NULs, with no NUL where `n` characters
  -- are there; all else is as before.
  pub strncpy_unsigned-Filled :
      (m : Memory) → Prefix m src n l → Filled m dest src n l (strncpy_unsigned m dest src n)
  unfolding strncpy_unsigned
  strncpy_unsigned-Filled m pre =
      let r = strncpy_loop-FilledFrom n 0 m pre (omega arith) (omega arith) in
      record {
        copied = λ i q. r.copied i (omega arith) q;
        padded = λ i p q. r.padded i (omega arith) p q;
        outside = λ p o. r.outside p (omega arith);
      }
