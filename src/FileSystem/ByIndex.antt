-- ===== src/FileSystem/ByIndex.antt =====
-- What read_dentry_by_index does on each of its branches.
use unix_operation_system.Prelude.{
  ℕ, zero, suc, ◌+◌, ◌-◌, ◌≤◌, ◌<◌, ◌≡◌, ◌≢◌, sym, ◌⊎◌, inl, inr, some, Bool, true, false, arith,
  ◌∙◌, ltb, Bool-cases, ne→==, eq→==, le→ltb, lt→ltb,
}
use native.Mathlib.Nat.{add-zero}
use unix_operation_system.Prelude.Int.{pos, fail, is_nat}
use unix_operation_system.Memory.{Memory, Apart}
use unix_operation_system.Strings.{strncmp_unsigned, pad_loop}
use unix_operation_system.Strings.Copy.{pad_loop_lem}
use unix_operation_system.Strings.Compare.{SamePrefix, strncmp_unsigned-zero}
use unix_operation_system.FileSystem.Layout.{dir_entry, dentry_size, filename_len}
use unix_operation_system.FileSystem.{read_dentry_by_index}
use unix_operation_system.FileSystem.Dentry.{IsEntry, Loaded, load_dentry-Loaded, is_nat-zero}

-- The memory once the local array of NULs at `testnull` is set up
abbrev pub with_nulls : Memory → ℕ → Memory
with_nulls m testnull = pad_loop filename_len m testnull 0

module _ (m : Memory) (e testnull : ℕ) (away : Apart e 1 testnull filename_len) where
  first_byte : with_nulls m testnull e ≡ m e
  first_byte = pad_loop_lem filename_len 0 m testnull e ∙ ground arith

  null_byte : (i : ℕ) → i < filename_len → with_nulls m testnull (testnull + i) ≡ 0
  null_byte i h = pad_loop_lem filename_len 0 m testnull (testnull + i) ∙ ground arith

  null_zero : with_nulls m testnull testnull ≡ 0
  null_zero = rw add-zero at (null_byte 0 (omega arith))

  is_empty : Bool
  is_empty = is_nat (strncmp_unsigned (with_nulls m testnull) e testnull filename_len) 0

  is_empty-true : m e ≡ 0 → is_empty ≡ true
  unfolding is_empty
  is_empty-true z =
      (is_nat-zero _).1
        ((strncmp_unsigned-zero (with_nulls m testnull) e testnull filename_len).1 same)
    where
      same : SamePrefix (with_nulls m testnull) e testnull filename_len
      same zero h p = rw (add-zero, add-zero, first_byte, z, null_zero)
      same (suc i) h p = absurd (p 0 (omega arith) (rw (add-zero, first_byte) z))

  is_empty-false : m e ≢ 0 → is_empty ≡ false
  unfolding is_empty
  is_empty-false nz = elim (Bool-cases is_empty) [
    | inl t ↦
        let same : SamePrefix (with_nulls m testnull) e testnull filename_len =
          (strncmp_unsigned-zero (with_nulls m testnull) e testnull filename_len).0
            ((is_nat-zero _).0 t) in
        let at_zero : with_nulls m testnull e ≡ with_nulls m testnull testnull =
          rw (add-zero, add-zero) at (same 0 (omega arith) (λ j q. absurd (omega arith))) in
        absurd (nz (sym first_byte ∙ at_zero ∙ null_zero))
    | inr f ↦ f
  ]

-- At an index below 63 of an entry whose name is not empty and ends within the entry, and which
-- overlaps neither the dentry nor the local array, read_dentry_by_index loads the entry and
-- returns 0; besides the dentry, only the local array of NULs changes.
pub read_dentry_by_index-load :
    (m : Memory) (boot testnull index dentry n : ℕ)
    → index < dentry_size
    → 0 < dentry
    → Apart (dir_entry boot index) 1 testnull filename_len
    → m (dir_entry boot index) ≢ 0
    → IsEntry (with_nulls m testnull) dentry (dir_entry boot index) n
    → (m' : Memory) × (read_dentry_by_index m boot testnull index dentry ≡ some (pos 0, m'))
      × Loaded (with_nulls m testnull) dentry (dir_entry boot index) n m'
unfolding read_dentry_by_index is_empty
read_dentry_by_index-load m boot testnull index dentry n h hd away named is =
    let loaded = load_dentry-Loaded is in
    (
      loaded.0,
      rw
          (
            le→ltb (dentry_size - 1) index (omega arith),
            ne→== dentry 0 (omega arith),
            is_empty-false m (dir_entry boot index) testnull away named,
          )
          loaded.1,
      loaded.2,
    )

-- It returns -1 and changes nothing at an index from 63 on or with a null dentry.
pub read_dentry_by_index-refused :
    (m : Memory) (boot testnull index dentry : ℕ)
    → (dentry_size ≤ index) ⊎ (dentry ≡ 0)
    → read_dentry_by_index m boot testnull index dentry ≡ some (fail, m)
unfolding read_dentry_by_index
read_dentry_by_index-refused m boot testnull index dentry (inl out) =
    rw (lt→ltb (dentry_size - 1) index (omega arith))
read_dentry_by_index-refused m boot testnull index dentry (inr null) =
    elim (Bool-cases (ltb (dentry_size - 1) index)) [
      | inl t ↦ rw t
      | inr f ↦ rw (f, eq→== dentry 0 null)
    ]

-- At an index below 63 whose name is empty it returns -1, and changes only the local array.
pub read_dentry_by_index-empty :
    (m : Memory) (boot testnull index dentry : ℕ)
    → index < dentry_size
    → 0 < dentry
    → Apart (dir_entry boot index) 1 testnull filename_len
    → m (dir_entry boot index) ≡ 0
    → read_dentry_by_index m boot testnull index dentry ≡ some (fail, with_nulls m testnull)
unfolding read_dentry_by_index is_empty
read_dentry_by_index-empty m boot testnull index dentry h hd away nul = rw (
  le→ltb (dentry_size - 1) index (omega arith),
  ne→== dentry 0 (omega arith),
  is_empty-true m (dir_entry boot index) testnull away nul,
)
