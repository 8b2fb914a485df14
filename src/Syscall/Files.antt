-- ===== src/Syscall/Files.antt =====
-- Reading a file through its descriptor: file_read of student-distrib/file_system.c.
use unix_operation_system.Prelude.{
  ℕ, ◌+◌, ◌-◌, ◌*◌, ◌/◌, ◌^◌, ◌≤◌, ◌<◌, ◌≡◌, ◌∙◌, ◌⊎◌, arith, leb, min, each_branch,
}
use unix_operation_system.Prelude.Int.{ℤ, pos}
use unix_operation_system.Memory.{Memory, Apart, word32-same}
use unix_operation_system.Blocks.{memset, memset-Set}
use unix_operation_system.FileSystem.Layout.{
  inode_length, dentry_size, block_bytes, inode, data_block_num, data_block_size,
}
use unix_operation_system.FileSystem.Copying.{file_byte}
use unix_operation_system.FileSystem.Rounds.{IsReadable}
use unix_operation_system.FileSystem.Data.{read_end, read_data-Stored}
use unix_operation_system.State.{Kernel}
use unix_operation_system.Syscall.{entry, file_read}

-- The boot block, the inodes and the data blocks that a block number can name
abbrev pub image_bytes : ℕ
image_bytes = block_bytes * (2 + dentry_size + data_block_size + 1)

-- What the descriptor, the file that it stands for and the buffer must satisfy: the image of the file
-- system is well formed at this file, and the buffer is outside it.
pub record CanRead (k : Kernel) (fd buf nbytes : ℕ) : Type 0 where
  pub inode : (entry k fd).inode_num < dentry_size
  pub before_end :
      (entry k fd).file_pos < inode_length k.memory k.boot_block_ptr (entry k fd).inode_num
  pub short :
      inode_length k.memory k.boot_block_ptr (entry k fd).inode_num ≤ block_bytes * data_block_size
  pub blocks :
      (idx : ℕ)
      → idx * block_bytes < inode_length k.memory k.boot_block_ptr (entry k fd).inode_num
      → data_block_num k.memory k.boot_block_ptr (entry k fd).inode_num idx ≤ data_block_size
  pub fits : nbytes + (entry k fd).file_pos < 2 ^ 32
  pub buffer : 0 < buf
  pub boot : 0 < k.boot_block_ptr
  pub image : Apart k.boot_block_ptr image_bytes buf nbytes

-- The number of bytes from the position to the end of the request or of the file
abbrev pub readable : Kernel → ℕ → ℕ → ℕ
readable k fd nbytes =
    min nbytes
      (inode_length k.memory k.boot_block_ptr (entry k fd).inode_num - (entry k fd).file_pos)

pub record FileRead (k : Kernel) (fd buf nbytes : ℕ) (k' : Kernel) : Type 0 where
  pub bytes :
      (t : ℕ)
      → t < readable k fd nbytes
      → k'.memory (buf + t)
        ≡ file_byte k.memory k.boot_block_ptr
            (entry k fd).inode_num
            k.memory
            ((entry k fd).file_pos + t)
  pub blank : (t : ℕ) → readable k fd nbytes ≤ t → t < nbytes → k'.memory (buf + t) ≡ 0
  pub outside : (p : ℕ) → (p < buf) ⊎ (buf + nbytes ≤ p) → k'.memory p ≡ k.memory p
  pub moved : (entry k' fd).file_pos ≡ (entry k fd).file_pos + readable k fd nbytes

-- A memory that is the same on the image has the same file.
module _ (m c : Memory) (boot n : ℕ) (inode_ok : n < dentry_size)
    (same : (p : ℕ) → boot ≤ p → p < boot + image_bytes → c p ≡ m p) where
  pub length-same : inode_length c boot n ≡ inode_length m boot n
  length-same =
      word32-same m c (inode boot n) (same _ (omega arith) (omega arith))
        (same _ (omega arith) (omega arith)) (same _ (omega arith) (omega arith))
        (same _ (omega arith) (omega arith))

  pub block_num-same :
      (idx : ℕ) → idx < data_block_size → data_block_num c boot n idx ≡ data_block_num m boot n idx
  block_num-same idx h =
      word32-same m c (inode boot n + 4 + 4 * idx) (same _ (omega arith) (omega arith))
        (same _ (omega arith) (omega arith)) (same _ (omega arith) (omega arith))
        (same _ (omega arith) (omega arith))

  pub byte-same :
      (p : ℕ)
      → p / block_bytes < data_block_size
      → data_block_num m boot n (p / block_bytes) ≤ data_block_size
      → file_byte c boot n c p ≡ file_byte m boot n m p
  byte-same p h b = rw (block_num-same (p / block_bytes) h) (same _ (omega arith) (omega arith))

module _ (k : Kernel) (fd buf nbytes : ℕ) (ok : CanRead k fd buf nbytes) where
  abbrev cleared : Memory
  cleared = memset k.memory buf 0 nbytes

  cleared-same :
      (p : ℕ) → k.boot_block_ptr ≤ p → p < k.boot_block_ptr + image_bytes → cleared p ≡ k.memory p
  cleared-same p lo hi = (memset-Set k.memory buf 0 nbytes).outside p (ground (arith, ok.image))

  cleared-IsReadable :
      IsReadable cleared k.boot_block_ptr
        (entry k fd).inode_num
        (entry k fd).file_pos
        buf
        (read_end cleared k.boot_block_ptr (entry k fd).inode_num (entry k fd).file_pos nbytes)
  cleared-IsReadable =
      let len =
        length-same k.memory cleared k.boot_block_ptr (entry k fd).inode_num ok.inode
          cleared-same in
      record {
        ordered = ground (arith, ok.before_end, len);
        apart = ground (arith, ok.image, len);
        valid = λ idx h.
            let inside : idx * block_bytes
                < inode_length k.memory k.boot_block_ptr (entry k fd).inode_num =
              ground (arith, h, len) in
            rw
              (block_num-same k.memory cleared k.boot_block_ptr (entry k fd).inode_num ok.inode
                cleared-same idx (omega (arith, inside, ok.short)))
              (ok.blocks idx inside);
      }

  -- Of a well-formed file whose end is not reached, into a buffer outside the image, file_read
  -- returns the number of bytes from the position to the end of the request or of the file,
  -- whichever comes first. The buffer then holds exactly these bytes of the file, in order, and
  -- NULs behind them; no other byte changes, and the position is behind the bytes that were
  -- read.
  pub file_read-FileRead :
      let (count, k') = file_read k fd buf nbytes in
      (count ≡ pos (readable k fd nbytes)) × FileRead k fd buf nbytes k'
  unfolding file_read
  file_read-FileRead =
      let n = (entry k fd).inode_num in
      let at = (entry k fd).file_pos in
      let len = length-same k.memory cleared k.boot_block_ptr n ok.inode cleared-same in
      let r =
        read_data-Stored cleared k.boot_block_ptr n at buf nbytes ok.inode ok.buffer ok.boot ok.fits
          cleared-IsReadable in
      let P =
        λ (r : ℤ × Kernel). (r.0 ≡ pos (readable k fd nbytes)) × FileRead k fd buf nbytes r.1 in
      each_branch P (leb (inode_length k.memory k.boot_block_ptr n) at)
        (λ e. absurd (ground (arith, e, ok.before_end)))
        (λ e.
          let size : read_end cleared k.boot_block_ptr n at nbytes - at ≡ readable k fd nbytes =
            ground (arith, len) in
          (
            ground (arith, r.0, size),
            record {
              bytes = λ t h. ground (
                arith,
                r.1.bytes t (ground (arith, h, size)),
                byte-same k.memory cleared k.boot_block_ptr n ok.inode cleared-same (at + t)
                    (omega (arith, h, ok.short))
                    (ok.blocks ((at + t) / block_bytes) (omega (arith, h))),
              );
              blank = λ t h l.
                  r.1.outside (buf + t) (ground (arith, h, size))
                  ∙ (memset-Set k.memory buf 0 nbytes).inside t l;
              outside = λ p o.
                  r.1.outside p (ground (arith, o, size))
                  ∙ (memset-Set k.memory buf 0 nbytes).outside p o;
              moved = ground (arith, r.0, size, ok.fits);
            },
          ))
