-- ===== src/Syscall.antt =====
-- The file descriptors of a process: the first part of student-distrib/syscall.c, and the operations
-- on files and directories of student-distrib/file_system.c.
pub mod Calls
pub mod Descriptors
pub mod Table
pub mod Safety
pub mod Files
pub mod Leak
pub mod Vidmap
pub mod Keeping
mod Tests
use unix_operation_system.Prelude.{
  ℕ, zero, suc, ◌+◌, ◌-◌, ◌%◌, ◌^◌, Bool, true, false, ◌&&◌, ◌||◌, not, Option, none, some, ◌>>=◌,
  ◌>>◌, List, [], ◌∷◌, ltb, leb, ◌==◌, if◌then◌else◌, update,
}
use unix_operation_system.Prelude.Int.{ℤ, pos, fail, to_u32}
use unix_operation_system.Memory.{Memory, word32}
use unix_operation_system.Blocks.{memset}
use unix_operation_system.Strings.{strlen_unsigned, strncpy_unsigned}
use unix_operation_system.FileSystem.{read_data}
use unix_operation_system.FileSystem.Layout.{filename_len, dentry_count, dir_entry, inode_length}
use unix_operation_system.Printf.{printf}
use unix_operation_system.Screen.{Screen}
use unix_operation_system.State.{
  Kernel, Pcb, FdEntry, FileOps, null, rtc_op, file_op, dir_op, terminal_stdin, terminal_stdout,
}

-- FD_MIN and FD_MAX
abbrev pub fd_min : ℕ
fd_min = 2

abbrev pub fd_max : ℕ
fd_max = 7

-- `current_pcb_pointer->fd_entry[fd]`, and the state after it is replaced
abbrev pub current : Kernel → Pcb
current k = k.pcb k.current_pcb_pointer

abbrev pub entry : Kernel → ℕ → FdEntry
entry k fd = (current k).fd_entry fd

abbrev pub with_entry : Kernel → ℕ → FdEntry → Kernel
with_entry k fd e = record k {
  pcb =
      update k.pcb k.current_pcb_pointer
        (record (current k) { fd_entry = update (current k).fd_entry fd e });
}

unfoldable pub file_open : Kernel → ℕ → Option (ℤ × Kernel)
file_open k filename = do
  n ← strlen_unsigned k.memory filename
  some (
      if ltb filename_len n
      then (fail, record k { screen = printf k.screen "\n!!!File open failed!\n" [] })
      else (pos 0, k))

-- The bytes read are added to the position, an `unsigned`.
unfoldable pub file_read : Kernel → ℕ → ℕ → ℕ → ℤ × Kernel
file_read k fd buf nbytes =
    let e = entry k fd in
    let length = inode_length k.memory k.boot_block_ptr e.inode_num in
    if leb length e.file_pos
    then (pos 0, k)
    else let cleared = memset k.memory buf 0 nbytes in
      let r = read_data cleared k.boot_block_ptr e.inode_num e.file_pos buf nbytes in
      let k' : Kernel = record k { memory = r.1 } in
      (r.0, with_entry k' fd (record e { file_pos = (e.file_pos + to_u32 r.0) % 2 ^ 32 }))

pub file_write : ℤ
file_write = fail

pub file_close : ℤ
file_close = pos 0

unfoldable pub dir_open : Kernel → ℤ × Kernel
dir_open k = (pos 0, record k { temp_position = 0 })

unfoldable pub dir_read : Kernel → ℕ → ℕ → ℕ → Option (ℤ × Kernel)
dir_read k fd buf nbytes =
    let e = entry k fd in
    let m = strncpy_unsigned k.memory buf (dir_entry k.boot_block_ptr e.file_pos) filename_len in
    let k' : Kernel = record k { memory = m } in
    do
      bytes_copied ← strlen_unsigned m buf
      some (
        pos (if ltb nbytes bytes_copied then nbytes else bytes_copied),
        if ltb e.file_pos (dentry_count m k.boot_block_ptr)
            then with_entry k' fd (record e { file_pos = e.file_pos + 1 })
            else k',
      )

pub dir_write : ℤ
dir_write = fail

unfoldable pub dir_close : ℤ
dir_close = pos 0

-- fd_entry_init, on a table that is there
pub fd_entry_init : (ℕ → FdEntry) → ℕ → FdEntry
fd_entry_init t i =
    if ltb i 2
    then record (t i) {
      file_pos = 0;
      flag = 1;
      inode_num = 0;
      filetype = 0;
      fot_ptr = if i == 0 then terminal_stdin else terminal_stdout;
    }
    else if ltb i 8
    then record (t i) { flag = 0 }
    else t i

-- The loop of find_next_fd, `n` rounds before its bound
unfoldable pub next_fd_loop : ℕ → (ℕ → FdEntry) → ℕ → ℤ
next_fd_loop zero t i = fail
next_fd_loop (suc n) t i =
    let rest = next_fd_loop n t (i + 1) in if (t i).flag == 0 then pos i else rest

unfoldable pub find_next_fd : Kernel → ℤ
find_next_fd k = next_fd_loop (fd_max + 1 - fd_min) (current k).fd_entry fd_min
