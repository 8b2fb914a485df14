-- ===== src/FileSystem/Layout.antt =====
-- The structures of student-distrib/file_system.h, by the offsets of their fields, and the
-- pointers that file_system_init computes from the start of the image.
use unix_operation_system.Prelude.{ℕ, ◌+◌, ◌*◌}
use unix_operation_system.Memory.{Memory, word32}

abbrev pub filename_len : ℕ
filename_len = 32

-- DENTRY_SIZE
abbrev pub dentry_size : ℕ
dentry_size = 63

-- DATA_BLOCK_SIZE
abbrev pub data_block_size : ℕ
data_block_size = 1023

-- DATA_BLOCK_ENTRY_SIZE, also the size of a boot block and of an inode
abbrev pub block_bytes : ℕ
block_bytes = 4096

-- sizeof(dentry_t)
abbrev pub dentry_bytes : ℕ
dentry_bytes = 64

-- sizeof(boot_block_ptr->dir_entries)
abbrev pub dir_bytes : ℕ
dir_bytes = 4032

-- &boot_block_ptr->dir_entries[i]
abbrev pub dir_entry : ℕ → ℕ → ℕ
dir_entry boot i = boot + 64 + dentry_bytes * i

abbrev pub dentry_count : Memory → ℕ → ℕ
dentry_count m boot = word32 m boot

-- &inode_ptr[n], where inode_ptr is boot_block_ptr + 1
abbrev pub inode : ℕ → ℕ → ℕ
inode boot n = boot + block_bytes + block_bytes * n

abbrev pub inode_length : Memory → ℕ → ℕ → ℕ
inode_length m boot n = word32 m (inode boot n)

abbrev pub data_block_num : Memory → ℕ → ℕ → ℕ → ℕ
data_block_num m boot n idx = word32 m (inode boot n + 4 + 4 * idx)

-- &data_block_ptr[b], where data_block_ptr is inode_ptr + DENTRY_SIZE + 1
abbrev pub data_block : ℕ → ℕ → ℕ
data_block boot b = inode boot (dentry_size + 1) + block_bytes * b
