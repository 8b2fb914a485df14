-- ===== src/FileSystem.antt =====
-- The read-only file system of student-distrib/file_system.c, on the bytes of its image.
-- `boot` is boot_block_ptr. The structures are read where file_system.h lays them out.
pub mod Layout
pub mod Dentry
pub mod ByIndex
pub mod Copying
pub mod Rounds
pub mod Data
mod Tests
use unix_operation_system.Prelude.{
  ℕ, zero, suc, ◌+◌, ◌-◌, ◌*◌, ◌/◌, ◌%◌, ◌^◌, ◌<◌, ◌||◌, ◌&&◌, not, Bool, true, false, Option, some,
  ltb, leb, ◌==◌, if◌then◌else◌, ◌>>=◌,
}
use unix_operation_system.Prelude.Int.{ℤ, pos, fail, is_nat}
use unix_operation_system.Memory.{Memory, write, copy_word}
use unix_operation_system.Strings.{strcpy_unsigned, strncmp_unsigned, pad_loop}
use unix_operation_system.FileSystem.Layout.{
  filename_len, dentry_size, data_block_size, block_bytes, dir_bytes, dir_entry, inode, data_block,
  data_block_num, inode_length,
}

-- `dentry->filename`, `filetype` and `inode_num` are set from those of the entry at `e`.
unfoldable pub load_dentry : Memory → ℕ → ℕ → Option (ℤ × Memory)
load_dentry m dentry e = do
  m' ← strcpy_unsigned m dentry e
  some (pos 0, copy_word (copy_word m' (dentry + 32) (e + 32)) (dentry + 36) (e + 36))

-- The loop of read_dentry_by_name, with `k` rounds before its bound. The entry that is copied
-- into `tmp_dentry` is read where it stands.
unfoldable pub by_name_loop : ℕ → Memory → ℕ → ℕ → ℕ → ℕ → Option (ℤ × Memory)
by_name_loop zero m boot fname dentry i = some (fail, m)
by_name_loop (suc k) m boot fname dentry i =
    let rest = by_name_loop k m boot fname dentry (i + 1) in
    let found = load_dentry m dentry (dir_entry boot i) in
    if is_nat (strncmp_unsigned m fname (dir_entry boot i) filename_len) 0 then found else rest

-- The bound is `sizeof(dir_entries)`, which counts bytes.
unfoldable pub read_dentry_by_name : Memory → ℕ → ℕ → ℕ → Option (ℤ × Memory)
read_dentry_by_name m boot fname dentry =
    if (fname == 0) || (dentry == 0)
    then some (fail, m)
    else by_name_loop dir_bytes m boot fname dentry 0

-- `testnull` is the address of the local array of 32 NULs.
pub read_dentry_by_index : Memory → ℕ → ℕ → ℕ → ℕ → Option (ℤ × Memory)
read_dentry_by_index m boot testnull index dentry =
    if ltb (dentry_size - 1) index
    then some (fail, m)
    else if dentry == 0
    then some (fail, m)
    else let m' = pad_loop filename_len m testnull 0 in
      let found = load_dentry m' dentry (dir_entry boot index) in
      if is_nat (strncmp_unsigned m' (dir_entry boot index) testnull filename_len) 0
      then some (fail, m')
      else found

-- The inner loop of read_data, `k` rounds before `loop_end`: the bytes of block `blk` from `i` on go
-- to the buffer. It says whether the block number passed its test.
unfoldable pub copy_bytes : ℕ → ℕ → ℕ → ℕ → ℕ → ℕ → Memory → Bool × Memory
copy_bytes zero boot blk i buf buf_idx m = (true, m)
copy_bytes (suc k) boot blk i buf buf_idx m =
    let rest =
      copy_bytes k boot blk (i + 1) buf (buf_idx + 1)
        (write m (buf + buf_idx) (m (data_block boot blk + i))) in
    if ltb data_block_size blk then (false, m) else rest

-- What the outer loop of read_data does not change; `curr` is the memory when the inode was copied.
pub record Request : Type 0 where
  pub boot : ℕ
  pub curr : Memory
  pub inode_num : ℕ
  pub offset : ℕ
  pub buf : ℕ
  pub startblk : ℕ
  pub endblk : ℕ
  pub endblk_idx : ℕ

-- `loop_start` and `loop_end` at block `idx` of the file
unfoldable pub loop_bounds : Request → ℕ → ℕ × ℕ
loop_bounds r idx =
    if (idx == r.startblk) && (idx == r.endblk)
    then (r.offset % block_bytes, r.endblk_idx)
    else if (idx == r.startblk) && not (idx == r.endblk)
    then (r.offset % block_bytes, block_bytes)
    else if not (idx == r.startblk) && (idx == r.endblk)
    then (0, r.endblk_idx)
    else (0, block_bytes)

-- The outer loop, with `k` rounds before `idx` passes the last block
unfoldable pub copy_blocks : ℕ → Request → ℕ → ℕ → Memory → ℤ × Memory
copy_blocks zero r idx buf_idx m = (pos buf_idx, m)
copy_blocks (suc k) r idx buf_idx m =
    let (lo, hi) = loop_bounds r idx in
    let (valid, m') =
      copy_bytes (hi - lo) r.boot (data_block_num r.curr r.boot r.inode_num idx) lo r.buf buf_idx
        m in
    let rest = copy_blocks k r (idx + 1) (buf_idx + (hi - lo)) m' in
    if valid then rest else (fail, m')

-- The last block and the end byte in it are those of the smaller of the file's end and the
-- requested end, whose sum is taken in 32 bits.
unfoldable pub request : Memory → ℕ → ℕ → ℕ → ℕ → ℕ → Request
request m boot inode_num offset buf length =
    let size = inode_length m boot inode_num in
    let last = if ltb size ((length + offset) % 2 ^ 32) then size else (length + offset) % 2 ^ 32 in
    record {
      boot = boot;
      curr = m;
      inode_num = inode_num;
      offset = offset;
      buf = buf;
      startblk = offset / block_bytes;
      endblk = last / block_bytes;
      endblk_idx = last % block_bytes;
    }

unfoldable pub read_data : Memory → ℕ → ℕ → ℕ → ℕ → ℕ → ℤ × Memory
read_data m boot inode_num offset buf length =
    if leb dentry_size inode_num || (buf == 0) || (boot == 0)
    then (fail, m)
    else let r = request m boot inode_num offset buf length in
      copy_blocks (r.endblk + 1 - r.startblk) r r.startblk 0 m
