-- ===== src/Programs/SysErr/Opening.antt =====
-- A directory is opened and closed: the third test of syscalls/ece391syserr.c.
use unix_operation_system.Prelude.{
  ℕ, suc, ◌+◌, ◌≤◌, ◌<◌, ◌≡◌, ◌≢◌, refl, sym, ◌∙◌, arith, false, true, some, ◌==◌, ltb,
  if◌then◌else◌, ne→==, Bool-cases, inl, inr,
}
use Prim.Native.String.{String}
use unix_operation_system.Prelude.Int.{ℤ, pos, fail}
use unix_operation_system.Memory.{Memory, SameOutside, word32, word32-same}
use unix_operation_system.Strings.Length.{strlen_unsigned-IsString}
use unix_operation_system.Strings.Compare.{SamePrefix}
use unix_operation_system.FileSystem.Layout.{dir_entry, dir_bytes, filename_len}
use unix_operation_system.FileSystem.{read_dentry_by_name}
use unix_operation_system.FileSystem.Dentry.{Loaded, read_dentry_by_name-first}
use unix_operation_system.State.{Kernel, FdEntry}
use unix_operation_system.Syscall.{current, fd_min, fd_max, find_next_fd, dir_open}
use unix_operation_system.Syscall.Descriptors.{LeastFree, found, full, find_next_fd-LeastFree}
use unix_operation_system.Syscall.Calls.{
  sys_open, look_up, open_found, opened_as, call_open, assign, ops_of, after, result,
}
use unix_operation_system.Programs.Machine.{of_outcome}
use unix_operation_system.Programs.SysErr.States.{Opened, Yields, done-Yields, Opened-screen}

SamePrefix-same :
    (m m' : Memory) (a b n : ℕ)
    → ((i : ℕ) → i < n → m' (a + i) ≡ m (a + i))
    → ((i : ℕ) → i < n → m' (b + i) ≡ m (b + i))
    → SamePrefix m a b n
    → SamePrefix m' a b n
SamePrefix-same m m' a b n at_a at_b s i h r =
    at_a i h ∙ s i h (λ j l z. r j l (at_a j (omega (arith, l, h)) ∙ z)) ∙ sym (at_b i h)

module _ {literal : String → ℕ} {dentry first n : ℕ} {k : Kernel}
    (v : Opened literal dentry first n k) where
  -- Where the local of sys_open is written, nothing of the state changes.
  module _ (m' : Memory) (o : SameOutside dentry 64 k.memory m') where
    at_literal :
        (t : String) (i : ℕ) → i < v.long t + 33 → m' (literal t + i) ≡ k.memory (literal t + i)
    at_literal t i h = o _ (omega (arith, v.apart t, h))

    at_entry :
        (e i : ℕ)
        → e < dir_bytes
        → i < 64
        → m' (dir_entry k.boot_block_ptr e + i) ≡ k.memory (dir_entry k.boot_block_ptr e + i)
    at_entry e i he hi = o _ (omega (arith, v.image, he, hi))

    same_prefix :
        (t : String) (e : ℕ)
        → e < dir_bytes
        → SamePrefix k.memory (literal t) (dir_entry k.boot_block_ptr e) filename_len
        → SamePrefix m' (literal t) (dir_entry k.boot_block_ptr e) filename_len
    same_prefix t e h =
        SamePrefix-same k.memory m' (literal t) (dir_entry k.boot_block_ptr e) filename_len
          (λ i l. at_literal t i (omega (arith, l))) (λ i l. at_entry e i h (omega (arith, l)))

    other_prefix :
        (t : String) (e : ℕ)
        → e < dir_bytes
        → SamePrefix m' (literal t) (dir_entry k.boot_block_ptr e) filename_len
        → SamePrefix k.memory (literal t) (dir_entry k.boot_block_ptr e) filename_len
    other_prefix t e h =
        SamePrefix-same m' k.memory (literal t) (dir_entry k.boot_block_ptr e) filename_len
          (λ i l. sym (at_literal t i (omega (arith, l))))
          (λ i l. sym (at_entry e i h (omega (arith, l))))

    Opened-memory : Opened literal dentry first n (record k { memory = m' })
    Opened-memory =
        let dot = dir_entry k.boot_block_ptr v.dot in
        let at_word : (i : ℕ) → i < 64 → m' (dot + i) ≡ k.memory (dot + i) =
          λ i h. at_entry v.dot i v.dot_first.within h in
        record {
          stdout = v.stdout;
          stdout_in_use = v.stdout_in_use;
          used = v.used;
          others = v.others;
          placed = v.placed;
          long = v.long;
          strings = λ t. record {
            ends = at_literal t (v.long t) (omega arith) ∙ (v.strings t).ends;
            goes_on =
                λ i h z. (v.strings t).goes_on i h (sym (at_literal t i (omega (arith, h))) ∙ z);
          };
          fits = v.fits;
          empty = v.empty;
          some_dot = v.some_dot;
          not_helloo = λ i h s. v.not_helloo i h (other_prefix "helloo" i h s);
          not_shel = λ i h s. v.not_shel i h (other_prefix "shel" i h s);
          dot = v.dot;
          dot_long = v.dot_long;
          dot_first = record {
            within = v.dot_first.within;
            matches = same_prefix "." v.dot v.dot_first.within v.dot_first.matches;
            earlier = λ j l s.
                v.dot_first.earlier j l
                  (other_prefix "." j (omega (arith, l, v.dot_first.within)) s);
          };
          dot_entry = record {
            str = record {
              ends =
                  at_entry v.dot v.dot_long v.dot_first.within v.dot_entry.short
                  ∙ v.dot_entry.str.ends;
              goes_on = λ i h z. v.dot_entry.str.goes_on i h (
                  sym (at_entry v.dot i v.dot_first.within (omega (arith, h, v.dot_entry.short)))
                  ∙ z);
            };
            short = v.dot_entry.short;
            apart = v.dot_entry.apart;
          };
          dot_type =
              word32-same k.memory m' (dot + 32) (at_word 32 (omega arith))
                (o _ (omega (arith, v.image, v.dot_first.within)))
                (o _ (omega (arith, v.image, v.dot_first.within)))
                (o _ (omega (arith, v.image, v.dot_first.within)))
              ∙ v.dot_type;
          some_dentry = v.some_dentry;
          apart = v.apart;
          image = v.image;
        }

  -- The directory's own entry is found.
  found_dot :
      (m' : Memory) × (read_dentry_by_name k.memory k.boot_block_ptr (literal ".") dentry
        ≡ some (pos 0, m'))
      × Loaded k.memory dentry (dir_entry k.boot_block_ptr v.dot) v.dot_long m'
  found_dot =
      read_dentry_by_name-first k.memory k.boot_block_ptr (literal ".") dentry v.dot v.dot_long
        (omega (arith, v.placed ".")) (omega (arith, v.some_dentry)) v.dot_first v.dot_entry

-- The next free descriptor
next_free :
    (t : ℕ → FdEntry) (n : ℕ) (r : ℤ)
    → LeastFree t 2 8 r
    → ((fd : ℕ) → 2 ≤ fd → fd < n → (t fd).flag ≢ 0)
    → ((fd : ℕ) → n ≤ fd → fd ≤ 7 → (t fd).flag ≡ 0)
    → 2 ≤ n
    → n ≤ 8
    → r ≡ (if n == 8 then fail else pos n)
next_free t n _ (found fd free (lo, hi) least) used others low high = elim (Bool-cases (ltb fd n)) [
  | inl below ↦ absurd (used fd lo (ground (arith, below)) free)
  | inr above ↦ elim (Bool-cases (ltb n fd)) [
    | inl past ↦
        absurd
          (least n low (ground (arith, past)) (others n (omega arith) (ground (arith, past, hi))))
    | inr here ↦ ground (arith, above, here, hi)
  ]
]
next_free t n _ (full busy) used others low high = elim (Bool-cases (n == 8)) [
  | inl e ↦ rw e refl
  | inr e ↦
      absurd
        (busy n low (ground (arith, e, high)) (others n (omega arith) (ground (arith, e, high))))
]

-- The descriptor is set from a directory's entry.
Opened-assign :
    {literal : String → ℕ} {dentry n : ℕ} {k : Kernel}
    → Opened literal dentry 2 n k
    → 2 ≤ n
    → word32 k.memory (dentry + 32) ≡ 1
    → Opened literal dentry 2 (suc n) (record (assign k dentry n) { temp_position = 0 })
unfolding assign ops_of
Opened-assign {literal} {dentry} {n} {k} v low type = record {
  stdout = ground (arith, v.stdout, low);
  stdout_in_use = ground (arith, v.stdout_in_use, low);
  used = λ fd lo hi. elim (Bool-cases (fd == n)) [
    | inl e ↦ let is : n ≡ fd = ground (arith, e) in rw (← is) (ground (arith, type))
    | inr e ↦
        let (same, in_use) = v.used fd lo (ground (arith, e, hi)) in
        (ground (arith, e, same), ground (arith, e, in_use))
  ];
  others = λ fd lo hi out. elim out [
    | inl before ↦ absurd (omega (arith, lo, before))
    | inr past ↦ ground (arith, v.others fd lo hi (inr (omega (arith, past))), past)
  ];
  placed = v.placed;
  long = v.long;
  strings = v.strings;
  fits = v.fits;
  empty = v.empty;
  some_dot = v.some_dot;
  not_helloo = v.not_helloo;
  not_shel = v.not_shel;
  dot = v.dot;
  dot_long = v.dot_long;
  dot_first = v.dot_first;
  dot_entry = v.dot_entry;
  dot_type = v.dot_type;
  some_dentry = v.some_dentry;
  apart = v.apart;
  image = v.image;
}

module _ (literal : String → ℕ) (dentry n : ℕ) (k : Kernel) (v : Opened literal dentry 2 n k)
    (low : 2 ≤ n) where
  next_descriptor : n ≤ 8 → find_next_fd k ≡ (if n == 8 then fail else pos n)
  next_descriptor high =
      next_free (current k).fd_entry n (find_next_fd k) (find_next_fd-LeastFree k)
        (λ fd lo hi. (v.used fd lo hi).1)
        (λ fd lo hi. v.others fd (omega (arith, low, lo)) hi (inr lo)) low high

  pub open_dot :
      n ≤ 7
      → Yields
          (Opened literal dentry 2 (suc n))
          (pos n)
          (of_outcome (sys_open k dentry (literal ".")))
  unfolding sys_open look_up open_found opened_as call_open dir_open after result ops_of
  open_dot high =
      let (m1, e1, l1) = found_dot v in
      let v1 = Opened-memory v m1 l1.outside in
      let (m2, e2, l2) = found_dot v1 in
      let v2 = Opened-memory v1 m2 l2.outside in
      let type : word32 m2 (dentry + 32) ≡ 1 = l2.filetype ∙ v1.dot_type in
      let room : (n == 8) ≡ false = ground (arith, high) in
      let next = next_descriptor (omega (arith, high)) in
      let enough : ltb n fd_min ≡ false = ground (arith, low) in
      let few : ltb fd_max n ≡ false = ground (arith, high) in
      let len = strlen_unsigned-IsString (v.strings ".") (v.fits ".") in
      record {
        state = _;
        result =
            rw
              (
                ne→== _ 0 (v.placed "."),
                len,
                ne→== _ 0 v.some_dot,
                next,
                room,
                enough,
                few,
                e1,
                e2,
                type,
              )
              refl;
        holds = Opened-assign v2 low type;
      }

  pub open_full :
      n ≡ 8 → Yields (Opened literal dentry 2 n) fail (of_outcome (sys_open k dentry (literal ".")))
  unfolding sys_open after
  open_full e =
      let no_room : (n == 8) ≡ true = ground (arith, e) in
      let len = strlen_unsigned-IsString (v.strings ".") (v.fits ".") in
      rw
        (
          ne→== _ 0 (v.placed "."),
          len,
          ne→== _ 0 v.some_dot,
          next_descriptor (omega (arith, e)),
          no_room,
        )
        (done-Yields _ (Opened-screen k _ v))
