-- ===== src/FileSystem/Copying.antt =====
-- copy_bytes stores the bytes of one block: the inner loop of read_data in file_system.c.
use unix_operation_system.Prelude.{
  ℕ, zero, suc, ◌+◌, ◌-◌, ◌*◌, ◌/◌, ◌%◌, ◌≤◌, ◌<◌, ◌≡◌, refl, ap, ◌⊎◌, inl, inr, true, arith, ◌∙◌,
  ltb, Bool-cases, le→ltb,
}
use unix_operation_system.Memory.{Memory, write, Apart}
use unix_operation_system.FileSystem.Layout.{
  block_bytes, data_block_size, data_block, data_block_num,
}
use unix_operation_system.FileSystem.{copy_bytes}

-- The byte at position `p` of the file, by the block numbers of its inode in `curr`
abbrev pub file_byte : Memory → ℕ → ℕ → Memory → ℕ → ℕ
file_byte curr boot n m p =
    m (data_block boot (data_block_num curr boot n (p / block_bytes)) + p % block_bytes)

-- The data blocks that a valid block number can name
abbrev pub data_bytes : ℕ
data_bytes = block_bytes * (data_block_size + 1)

-- The memory after `k` bytes from `n` on of the buffer are set to `f 0`, `f 1`, ...
pub record Stored (f : ℕ → ℕ) (buf n k : ℕ) (m m' : Memory) : Type 0 where
  pub bytes : (t : ℕ) → t < k → m' (buf + n + t) ≡ f t
  pub outside : (p : ℕ) → (p < buf + n) ⊎ (buf + n + k ≤ p) → m' p ≡ m p

-- Bytes stored in two runs
pub Stored-join :
    {f g : ℕ → ℕ} {buf n k j total : ℕ} {m m' m'' : Memory}
    → Stored f buf n k m m'
    → Stored g buf (n + k) j m' m''
    → ((t : ℕ) → g t ≡ f (k + t))
    → k + j ≡ total
    → Stored f buf n total m m''
Stored-join {f} {g} {buf} {n} {k} {j} {total} {m} {m'} {m''} fst snd e sum = record {
  bytes = λ t h. elim (Bool-cases (ltb t k)) [
    | inl p ↦ snd.outside (buf + n + t) (ground arith) ∙ fst.bytes t (ground arith)
    | inr p ↦
        let at : buf + n + t ≡ buf + (n + k) + (t - k) = ground arith in
        let back : k + (t - k) ≡ t = ground arith in
        rw at (snd.bytes (t - k) (ground arith) ∙ e (t - k) ∙ ap f back)
  ];
  outside = λ p o. snd.outside p (omega arith) ∙ fst.outside p (omega arith);
}

module _ (boot blk buf : ℕ) (valid : blk ≤ data_block_size) where
  pub copy_bytes-valid : (k i n : ℕ) (m : Memory) → (copy_bytes k boot blk i buf n m).0 ≡ true
  unfolding copy_bytes
  copy_bytes-valid zero i n m = refl
  copy_bytes-valid (suc k) i n m =
      rw (le→ltb data_block_size blk valid)
        (copy_bytes-valid k (i + 1) (n + 1) (write m (buf + n) (m (data_block boot blk + i))))

  pub copy_bytes-outside :
      (k i n : ℕ) (m : Memory) (p : ℕ)
      → (p < buf + n) ⊎ (buf + n + k ≤ p)
      → (copy_bytes k boot blk i buf n m).1 p ≡ m p
  unfolding copy_bytes
  copy_bytes-outside zero i n m p o = refl
  copy_bytes-outside (suc k) i n m p o = rw (le→ltb data_block_size blk valid) (
      copy_bytes-outside k (i + 1) (n + 1) (write m (buf + n) (m (data_block boot blk + i))) p
        (omega arith)
      ∙ ground arith)

  pub copy_bytes-Stored :
      (k i n : ℕ) (m : Memory)
      → Apart (data_block boot blk + i) k (buf + n) k
      → (t : ℕ) → t < k
      → (copy_bytes k boot blk i buf n m).1 (buf + n + t) ≡ m (data_block boot blk + i + t)
  unfolding copy_bytes
  copy_bytes-Stored zero i n m apart t h = absurd (omega arith)
  copy_bytes-Stored (suc k) i n m apart zero h = rw (le→ltb data_block_size blk valid) (
      copy_bytes-outside k (i + 1) (n + 1) (write m (buf + n) (m (data_block boot blk + i)))
        (buf + n + 0) (omega arith)
      ∙ ground arith)
  copy_bytes-Stored (suc k) i n m apart (suc t) h =
      let ih =
        copy_bytes-Stored k (i + 1) (n + 1) (write m (buf + n) (m (data_block boot blk + i)))
          (omega arith) t (omega arith) in
      let to : buf + n + suc t ≡ buf + (n + 1) + t = omega arith in
      rw (le→ltb data_block_size blk valid, to) (ih ∙ ground arith)

module _ (boot blk buf lo k b total : ℕ) (valid : blk ≤ data_block_size)
    (fits : lo + k ≤ block_bytes) (apart : Apart (data_block boot 0) data_bytes buf total)
    (within : b + k ≤ total) where
  pub source-Apart : Apart (data_block boot blk + lo) k (buf + b) k
  source-Apart = omega arith

  pub source_outside :
      (t : ℕ)
      → t < k
      → (data_block boot blk + lo + t < buf) ⊎ (buf + b ≤ data_block boot blk + lo + t)
  source_outside t h = omega arith
