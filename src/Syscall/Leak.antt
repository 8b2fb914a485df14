-- ===== src/Syscall/Leak.antt =====
-- When sys_open of student-distrib/syscall.c uses up a descriptor.
use unix_operation_system.Prelude.{ℕ, ◌+◌, ◌≤◌, ◌<◌, ◌≡◌, ◌≢◌, arith, some, lt→ltb, le→ltb, ne→==}
use unix_operation_system.Prelude.Int.{pos, fail}
use unix_operation_system.Memory.{Memory, IsString, word32, max_rounds}
use unix_operation_system.Strings.Length.{strlen_unsigned-IsString}
use unix_operation_system.FileSystem.{read_dentry_by_name}
use unix_operation_system.State.{Kernel, file_op}
use unix_operation_system.Syscall.{fd_min, fd_max, entry, find_next_fd, file_open}
use unix_operation_system.Syscall.Calls.{
  Outcome, returned, after, result, ops_of, opened_as, assign, open_found, look_up, sys_open,
  call_open,
}

-- The call fails, and `fd` counts as open all the same.
pub data Leaked (fd : ℕ) : Outcome → Type 0 where
  leaked : (k : Kernel) → (entry k fd).flag ≡ 1 → Leaked fd (returned fail k)

ops_of-file : (filetype : ℕ) → 1 < filetype → ops_of filetype ≡ file_op
unfolding ops_of
ops_of-file filetype h = ground (arith, h)

open_found-Leaked :
    (filename dentry fd n : ℕ) (k : Kernel)
    → IsString k.memory filename n
    → 32 < n
    → n < max_rounds
    → 1 < word32 k.memory (dentry + 32)
    → Leaked fd (open_found filename dentry fd k)
unfolding open_found opened_as call_open after result file_open assign
open_found-Leaked filename dentry fd n k str long fits regular =
    rw (ops_of-file _ regular, strlen_unsigned-IsString str fits, lt→ltb 32 n long)
      (leaked _ (ground arith))

-- A name of more than 32 characters whose first 32 are those of a regular file is found, but
-- file_open refuses it. sys_open then fails, and the descriptor that it chose stays in use.
pub sys_open-Leaked :
    (k : Kernel) (dentry filename fd n : ℕ) (m m' : Memory)
    → filename ≢ 0
    → IsString k.memory filename n
    → IsString m' filename n
    → 32 < n
    → n < max_rounds
    → find_next_fd k ≡ pos fd
    → (fd_min ≤ fd) × (fd ≤ fd_max)
    → read_dentry_by_name k.memory k.boot_block_ptr filename dentry ≡ some (pos 0, m)
    → read_dentry_by_name m k.boot_block_ptr filename dentry ≡ some (pos 0, m')
    → 1 < word32 m' (dentry + 32)
    → Leaked fd (sys_open k dentry filename)
unfolding sys_open after look_up
sys_open-Leaked k dentry filename fd n m m' named str str' long fits free (lo, hi) first second
      regular =
    rw
      (
        ne→== filename 0 named,
        strlen_unsigned-IsString str fits,
        ne→== n 0 (omega arith),
        free,
        le→ltb fd 2 lo,
        le→ltb 7 fd hi,
        first,
        second,
      )
      (open_found-Leaked filename dentry fd n (record k { memory = m' }) str' long fits regular)
