-- ===== src/FileSystem/Rounds.antt =====
-- copy_blocks stores the bytes of a range of a file: the outer loop of read_data in file_system.c.
use unix_operation_system.Prelude.{
  ℕ, zero, suc, ◌+◌, ◌-◌, ◌*◌, ◌/◌, ◌%◌, ◌≤◌, ◌<◌, ◌≡◌, refl, sym, ap, ◌⊎◌, true, arith, ◌∙◌, ◌==◌,
  if◌then◌else◌,
}
use unix_operation_system.Prelude.Int.{ℤ, pos}
use unix_operation_system.Memory.{Memory, Apart}
use unix_operation_system.FileSystem.Layout.{
  block_bytes, data_block_size, data_block, data_block_num,
}
use unix_operation_system.FileSystem.{Request, copy_bytes, copy_blocks, loop_bounds}
use unix_operation_system.FileSystem.Copying.{
  Stored, file_byte, data_bytes, Stored-join, copy_bytes-valid, copy_bytes-outside,
  copy_bytes-Stored, source-Apart, source_outside,
}

-- The request for the bytes of a file from `offset` up to `last`
abbrev pub reading : Memory → ℕ → ℕ → ℕ → ℕ → ℕ → Request
reading m₀ boot n offset buf last = record {
  boot = boot;
  curr = m₀;
  inode_num = n;
  offset = offset;
  buf = buf;
  startblk = offset / block_bytes;
  endblk = last / block_bytes;
  endblk_idx = last % block_bytes;
}

pub copy_blocks-zero : (r : Request) (idx b : ℕ) (m : Memory) → copy_blocks 0 r idx b m ≡ (pos b, m)
unfolding copy_blocks
copy_blocks-zero r idx b m = refl

-- When the end lies before the offset in the same block, its one round copies nothing.
pub copy_blocks-same_block :
    (m : Memory) (boot n offset buf last : ℕ)
    → last < offset
    → last / block_bytes ≡ offset / block_bytes
    → copy_blocks 1 (reading m boot n offset buf last) (offset / block_bytes) 0 m ≡ (pos 0, m)
unfolding copy_blocks copy_bytes loop_bounds
copy_blocks-same_block m boot n offset buf last h same = rw bounds (rw none_left)
  where
    bounds :
        loop_bounds (reading m boot n offset buf last) (offset / block_bytes)
        ≡ (offset % block_bytes, last % block_bytes)
    bounds = ground arith

    none_left : last % block_bytes - offset % block_bytes ≡ 0
    none_left = omega arith

-- What the reader relies on: the buffer does not overlap the data blocks, and the blocks that hold
-- bytes of the file below `last` have valid numbers.
pub record IsReadable (m₀ : Memory) (boot n offset buf last : ℕ) : Type 0 where
  pub ordered : offset ≤ last
  pub apart : Apart (data_block boot 0) data_bytes buf (last - offset)
  pub valid : (idx : ℕ) → idx * block_bytes < last → data_block_num m₀ boot n idx ≤ data_block_size

module _ {m₀ : Memory} {boot n offset buf last : ℕ}
    (ok : IsReadable m₀ boot n offset buf last) where
  -- Where the loop stands when block `idx` is next and `b` bytes have been copied: `lo` and `hi`
  -- bound the bytes of this block.
  pub record At (idx b lo hi : ℕ) : Type 0 where
    begun : offset / block_bytes ≤ idx
    not_past : idx ≤ last / block_bytes
    bounds : loop_bounds (reading m₀ boot n offset buf last) idx ≡ (lo, hi)
    position : offset + b ≡ idx * block_bytes + lo
    end :
        idx * block_bytes + hi
        ≡ (if idx == last / block_bytes then last else (idx + 1) * block_bytes)
    room : (lo ≤ hi) × (hi ≤ block_bytes)

  pub At-start : (lo : ℕ) × (hi : ℕ) × At (offset / block_bytes) 0 lo hi
  unfolding loop_bounds
  At-start = (
    offset % block_bytes,
    if offset / block_bytes == last / block_bytes then last % block_bytes else block_bytes,
    record {
      begun = omega arith;
      not_past = omega (arith, ok.ordered);
      bounds = ground arith;
      position = omega arith;
      end = ground arith;
      room = ground (arith, ok.ordered);
    },
  )

  At-next :
      {idx b lo hi : ℕ}
      → At idx b lo hi
      → idx < last / block_bytes
      → (hi' : ℕ) × At (idx + 1) (b + (hi - lo)) 0 hi'
  unfolding loop_bounds
  At-next {idx} {b} {lo} {hi} at h = (
    if idx + 1 == last / block_bytes then last % block_bytes else block_bytes,
    record {
      begun = omega (arith, at.begun);
      not_past = omega arith;
      bounds = ground (arith, at.begun);
      position = ground (arith, at.position, at.end, at.room);
      end = ground arith;
      room = ground arith;
    },
  )

  block : ℕ → ℕ
  block = data_block_num m₀ boot n

  -- The memory after the bytes `lo` to `hi` of block `idx` are copied
  copied : (idx b lo hi : ℕ) → Memory → Memory
  copied idx b lo hi m = (copy_bytes (hi - lo) boot (block idx) lo buf b m).1

  block-valid :
      {idx b lo hi : ℕ} (m : Memory) (k : ℕ)
      → At idx b lo hi
      → k ≡ hi - lo
      → (copy_bytes k boot (block idx) lo buf b m).0 ≡ true
  unfolding copy_bytes block
  block-valid m zero at e = refl
  block-valid {idx} {b} {lo} m (suc k) at e =
      copy_bytes-valid boot (block idx) buf valid (suc k) lo b m
    where
      valid : block idx ≤ data_block_size
      valid = ok.valid idx (ground (arith, at.end, at.not_past, at.room))

  copy_blocks-step :
      {idx b lo hi : ℕ} (k : ℕ) (m : Memory)
      → At idx b lo hi
      → copy_blocks (suc k) (reading m₀ boot n offset buf last) idx b m
        ≡ copy_blocks k
            (reading m₀ boot n offset buf last)
            (idx + 1)
            (b + (hi - lo))
            (copied idx b lo hi m)
  unfolding copy_blocks copied block
  copy_blocks-step k m at = rw (at.bounds, block-valid m _ at refl)

  -- The memory is that at the start but for the first `b` bytes of the buffer.
  unfoldable pub FirstBytes : ℕ → Memory → Type 0
  FirstBytes b m = (p : ℕ) → (p < buf) ⊎ (buf + b ≤ p) → m p ≡ m₀ p

  file_byte-At :
      {idx b lo hi : ℕ} (t : ℕ)
      → At idx b lo hi
      → t < hi - lo
      → file_byte m₀ boot n m₀ (offset + b + t) ≡ m₀ (data_block boot (block idx) + lo + t)
  unfolding block
  file_byte-At {idx} {b} {lo} {hi} t at h =
      let q : (offset + b + t) / block_bytes ≡ idx = omega (arith, at.position, at.room) in
      let r : (offset + b + t) % block_bytes ≡ lo + t = omega (arith, at.position, at.room) in
      rw (q, r) (ap m₀ (omega arith))

  module _ {idx b lo hi : ℕ} (at : At idx b lo hi) where
    within : b + (hi - lo) ≤ last - offset
    within = ground (arith, at.end, at.position, at.room, at.not_past)

    block_ok : {t : ℕ} → t < hi - lo → block idx ≤ data_block_size
    unfolding block
    block_ok h = ok.valid idx (ground (arith, at.end, at.not_past, at.room))

    copied-outside :
        (m : Memory) (p : ℕ)
        → (p < buf + b) ⊎ (buf + b + (hi - lo) ≤ p)
        → copied idx b lo hi m p ≡ m p
    unfolding copied copy_bytes
    copied-outside m p o = go (hi - lo) refl
      where
        go : (k : ℕ) → hi - lo ≡ k → (copy_bytes (hi - lo) boot (block idx) lo buf b m).1 p ≡ m p
        go zero e = rw e
        go (suc k) e =
            copy_bytes-outside boot (block idx) buf (block_ok {t = 0} (omega arith)) (hi - lo) lo b
              m p o

    -- This round's bytes are those of the file.
    copied-Stored :
        (m : Memory)
        → FirstBytes b m
        → Stored
            (λ t. file_byte m₀ boot n m₀ (offset + b + t))
            buf
            b
            (hi - lo)
            m
            (copied idx b lo hi m)
    unfolding copied FirstBytes
    copied-Stored m same = record {
      bytes = λ t h.
          copy_bytes-Stored boot (block idx) buf (block_ok h) (hi - lo) lo b m
            (source-Apart boot (block idx) buf lo (hi - lo) b (last - offset) (block_ok h) fits
              ok.apart within)
            t h
          ∙ same _ (
              source_outside boot (block idx) buf lo (hi - lo) b (last - offset) (block_ok h) fits
                ok.apart within t h)
          ∙ sym (file_byte-At t at h);
      outside = copied-outside m;
    }
      where
        fits : lo + (hi - lo) ≤ block_bytes
        fits = omega (arith, at.room)

  -- The rounds from block `idx` on store what is left of the range, and nothing else.
  unfoldable pub Read : ℕ → Memory → ℤ × Memory → Type 0
  Read b m (count, m') =
      (count ≡ pos (last - offset))
      × Stored (λ t. file_byte m₀ boot n m₀ (offset + b + t)) buf b (last - offset - b) m m'

  FirstBytes-copied :
      {idx b lo hi : ℕ} (m : Memory)
      → At idx b lo hi
      → FirstBytes b m
      → FirstBytes (b + (hi - lo)) (copied idx b lo hi m)
  unfolding FirstBytes
  FirstBytes-copied m at same p o = copied-outside at m p (omega arith) ∙ same p (omega arith)

  pub copy_blocks-Read :
      (k idx b lo hi : ℕ) (m : Memory)
      → idx + k ≡ last / block_bytes
      → At idx b lo hi
      → FirstBytes b m
      → Read b m (copy_blocks (suc k) (reading m₀ boot n offset buf last) idx b m)
  unfolding Read
  copy_blocks-Read zero idx b lo hi m e at same =
      let all : b + (hi - lo) ≡ last - offset = ground (arith, at.end, at.position, at.room) in
      let left : last - offset - b ≡ hi - lo = omega arith in
      rw (copy_blocks-step 0 m at, copy_blocks-zero) (ap pos all, rw left (copied-Stored at m same))
  copy_blocks-Read (suc k) idx b lo hi m e at same =
      let next = At-next at (omega arith) in
      let now = copied-Stored at m same in
      let rest =
        copy_blocks-Read k (idx + 1) (b + (hi - lo)) 0 next.0 (copied idx b lo hi m) (omega arith)
          next.1 (FirstBytes-copied m at same) in
      rw (copy_blocks-step (suc k) m at) (
        rest.0,
        Stored-join now rest.1 (λ t. ap (file_byte m₀ boot n m₀) (omega arith))
            (omega (arith, within at)),
      )
