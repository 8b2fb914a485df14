-- ===== src/FileSystem/Data.antt =====
-- read_data of file_system.c copies the bytes of the file that lie in the requested range.
use unix_operation_system.Prelude.{
  ℕ, suc, ◌+◌, ◌-◌, ◌/◌, ◌%◌, ◌^◌, ◌<◌, ◌≡◌, refl, ap, inl, inr, false, arith, ◌∙◌, ltb, leb, ◌==◌,
  Bool-cases, if◌then◌else◌, ◌||◌, min,
}
use unix_operation_system.Prelude.Int.{pos}
use unix_operation_system.Memory.{Memory}
use unix_operation_system.FileSystem.Layout.{block_bytes, dentry_size, inode_length}
use unix_operation_system.FileSystem.{copy_blocks, request, read_data}
use unix_operation_system.FileSystem.Copying.{Stored, file_byte}
use unix_operation_system.FileSystem.Rounds.{
  IsReadable, At-start, reading, copy_blocks-zero, copy_blocks-same_block, copy_blocks-Read, Read,
  FirstBytes,
}

-- The end of the range that is read
abbrev pub read_end : Memory → ℕ → ℕ → ℕ → ℕ → ℕ
read_end m boot n offset length = min (length + offset) (inode_length m boot n)

last-min :
    (size sum : ℕ)
    → sum < 2 ^ 32
    → (if ltb size (sum % 2 ^ 32) then size else sum % 2 ^ 32) ≡ min sum size
last-min size sum h = ground arith

module _ (m : Memory) (boot n offset buf length : ℕ) (in_range : n < dentry_size)
    (buf_pos : 0 < buf) (boot_pos : 0 < boot) (fits : length + offset < 2 ^ 32) where
  guard_passes : (leb dentry_size n || (buf == 0) || (boot == 0)) ≡ false
  guard_passes = ground arith

  read_data-copy_blocks :
      (last : ℕ)
      → last ≡ read_end m boot n offset length
      → read_data m boot n offset buf length
        ≡ copy_blocks
            (last / block_bytes + 1 - offset / block_bytes)
            (reading m boot n offset buf last)
            (offset / block_bytes)
            0
            m
  unfolding read_data request
  read_data-copy_blocks last e =
      rw (guard_passes, last-min (inode_length m boot n) (length + offset) fits, e)

  -- read_data of an inode below 63, whose blocks up to the end of the range have valid numbers,
  -- at an offset within the range, into a buffer outside the data blocks: it returns the number
  -- of bytes from the offset to the end of the request or of the file, whichever comes first.
  -- It stores exactly these bytes of the file at the buffer, in order, and changes nothing
  -- else.
  pub read_data-Stored :
      IsReadable m boot n offset buf (read_end m boot n offset length)
      → let size = read_end m boot n offset length - offset in
        let (count, m') = read_data m boot n offset buf length in
        (count ≡ pos size) × Stored (λ t. file_byte m boot n m (offset + t)) buf 0 size m m'
  unfolding Read FirstBytes
  read_data-Stored ok = go (read_end m boot n offset length) refl ok
    where
      go :
          (last : ℕ)
          → last ≡ read_end m boot n offset length
          → IsReadable m boot n offset buf last
          → let (count, m') = read_data m boot n offset buf length in
            (count ≡ pos (last - offset))
            × Stored (λ t. file_byte m boot n m (offset + t)) buf 0 (last - offset) m m'
      go last e ok =
          let start = At-start ok in
          let r =
            copy_blocks-Read ok (last / block_bytes - offset / block_bytes) (offset / block_bytes) 0
              start.0 start.1 m (omega (arith, ok.ordered)) start.2 (λ p o. refl) in
          let rounds : last / block_bytes + 1 - offset / block_bytes
              ≡ suc (last / block_bytes - offset / block_bytes) =
            omega (arith, ok.ordered) in
          rw (read_data-copy_blocks last e, rounds)
            (
              r.0,
              record {
                bytes = λ t h. r.1.bytes t (omega arith) ∙ ap (file_byte m boot n m) (omega arith);
                outside = λ p o. r.1.outside p (omega arith);
              },
            )

  -- When the offset is past the end of the request or of the file, read_data of an inode below
  -- 63 reads nothing: it returns 0 and no byte changes.
  pub read_data-past :
      read_end m boot n offset length < offset → read_data m boot n offset buf length ≡ (pos 0, m)
  read_data-past past =
      rw (read_data-copy_blocks _ refl) (go (read_end m boot n offset length) past)
    where
      go :
          (last : ℕ)
          → last < offset
          → copy_blocks
              (last / block_bytes + 1 - offset / block_bytes)
              (reading m boot n offset buf last)
              (offset / block_bytes)
              0
              m
            ≡ (pos 0, m)
      go last h = elim (Bool-cases (last / block_bytes == offset / block_bytes)) [
        | inl s ↦
            let one : last / block_bytes + 1 - offset / block_bytes ≡ 1 = ground arith in
            rw one (copy_blocks-same_block m boot n offset buf last h (ground arith))
        | inr d ↦
            let none_left : last / block_bytes + 1 - offset / block_bytes ≡ 0 = ground arith in
            rw (none_left, copy_blocks-zero)
      ]
