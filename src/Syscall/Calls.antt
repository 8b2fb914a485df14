-- ===== src/Syscall/Calls.antt =====
-- sys_open, sys_close, sys_read and sys_write of student-distrib/syscall.c, which call the operations
-- of a descriptor through its table.
use unix_operation_system.Prelude.{
  ℕ, ◌+◌, ◌||◌, not, Option, none, some, List, [], ◌∷◌, ◌==◌, if◌then◌else◌,
}
use unix_operation_system.Prelude.Int.{
  ℤ, pos, fail, is_nat, is_negative, is_fail, below, above, to_nat, to_u32,
}
use unix_operation_system.Memory.{word32}
use unix_operation_system.Strings.{strlen_unsigned}
use unix_operation_system.FileSystem.{read_dentry_by_name}
use unix_operation_system.Printf.{printf, word}
use unix_operation_system.Rtc.{Rtc, Step, rtc_open, rtc_read, rtc_write, rtc_close}
use unix_operation_system.Terminal.{terminal_open, terminal_read, terminal_write}
use unix_operation_system.State.{
  Kernel, FileOps, null, rtc_op, file_op, dir_op, terminal_stdin, terminal_stdout,
}
use unix_operation_system.Syscall.{
  fd_min, fd_max, entry, with_entry, file_open, file_read, file_write, file_close, dir_open,
  dir_read, dir_write, dir_close, find_next_fd,
}

-- How a call ends: with a result, in a loop that does not end, or by the use of a NULL pointer, which
-- is called or read
pub data Outcome : Type 0 where
  returned : ℤ → Kernel → Outcome
  unending : Outcome
  null_used : Outcome

unfoldable pub after {ℓ} : {A : Type ℓ} → Option A → (A → Outcome) → Outcome
after none f = unending
after (some a) f = f a

unfoldable pub result : ℤ × Kernel → Outcome
result (r, k) = returned r k

unfoldable pub with_rtc : Kernel → ℤ × Rtc → Outcome
with_rtc k (r, rtc') = returned r (record k { rtc = rtc' })

-- What the rest of the kernel does while the call waits
pub record Others : Type 0 where
  pub clock : List Step
  pub kernel : List (Kernel → Kernel)
  pub late : Kernel → Kernel

unfoldable pub call_open : FileOps → Kernel → ℕ → Outcome
unfolding result with_rtc after
call_open null k filename = null_used
call_open rtc_op k filename = with_rtc k (rtc_open k.rtc k.running_term filename)
call_open file_op k filename = after (file_open k filename) result
call_open dir_op k filename = result (dir_open k)
call_open terminal_stdin k filename = result (terminal_open k filename)
call_open terminal_stdout k filename = result (terminal_open k filename)

unfoldable pub call_close : FileOps → Kernel → ℤ → Outcome
call_close null k fd = null_used
call_close rtc_op k fd = returned (rtc_close fd) k
call_close file_op k fd = returned file_close k
call_close dir_op k fd = returned dir_close k
call_close terminal_stdin k fd = null_used
call_close terminal_stdout k fd = null_used

unfoldable pub call_read : FileOps → Others → Kernel → ℤ → ℕ → ℕ → Outcome
unfolding result with_rtc after
call_read null o k fd buf nbytes = null_used
call_read rtc_op o k fd buf nbytes =
    after (rtc_read o.clock k.rtc k.running_term fd buf) (with_rtc k)
call_read file_op o k fd buf nbytes = result (file_read k (to_nat fd) buf nbytes)
call_read dir_op o k fd buf nbytes = after (dir_read k (to_nat fd) buf nbytes) result
call_read terminal_stdin o k fd buf nbytes =
    after (terminal_read o.kernel o.late k buf nbytes) result
call_read terminal_stdout o k fd buf nbytes = null_used

unfoldable pub call_write : FileOps → Kernel → ℤ → ℕ → ℕ → Outcome
unfolding result with_rtc after
call_write null k fd buf nbytes = null_used
call_write rtc_op k fd buf nbytes =
    with_rtc k (rtc_write k.rtc k.running_term fd buf (pos nbytes) (word32 k.memory buf))
call_write file_op k fd buf nbytes = returned file_write k
call_write dir_op k fd buf nbytes = returned dir_write k
call_write terminal_stdin k fd buf nbytes = null_used
call_write terminal_stdout k fd buf nbytes = after (terminal_write k buf nbytes) result

-- The switch on the file's type
unfoldable pub ops_of : ℕ → FileOps
ops_of filetype = if filetype == 0 then rtc_op else if filetype == 1 then dir_op else file_op

-- The result of `open` in sys_open
unfoldable pub opened_as : ℕ → Outcome → Outcome
opened_as fd (returned r k) = if is_fail r then returned fail k else returned (pos fd) k
opened_as fd unending = unending
opened_as fd null_used = null_used

-- The descriptor is set from the directory entry at `dentry`.
unfoldable pub assign : Kernel → ℕ → ℕ → Kernel
assign k dentry fd = with_entry k fd (record (entry k fd) {
  inode_num = word32 k.memory (dentry + 36);
  file_pos = 0;
  flag = 1;
  filetype = word32 k.memory (dentry + 32);
  fot_ptr = ops_of (word32 k.memory (dentry + 32));
})

-- What sys_open does once read_dentry_by_name returned twice
unfoldable pub open_found : ℕ → ℕ → ℕ → Kernel → Outcome
open_found filename dentry fd k =
    opened_as fd (call_open (ops_of (word32 k.memory (dentry + 32))) (assign k dentry fd) filename)

-- The two calls of read_dentry_by_name
unfoldable pub look_up : ℕ → ℕ → ℕ → Kernel → Outcome
unfolding after
look_up filename dentry fd k =
    after (read_dentry_by_name k.memory k.boot_block_ptr filename dentry) (λ first.
      let k' : Kernel = record k { memory = first.1 } in
      if not (is_nat first.0 0)
      then returned fail k'
      else after (read_dentry_by_name first.1 k.boot_block_ptr filename dentry) (λ second.
        let k'' : Kernel = record k { memory = second.1 } in
        if not (is_nat second.0 0) then returned fail k'' else open_found filename dentry fd k''))

-- `dentry` is the address of the local `temp_dentry`. On NULL, the message reads the name.
unfoldable pub sys_open : Kernel → ℕ → ℕ → Outcome
unfolding after
sys_open k dentry filename =
    if filename == 0
    then null_used
    else after (strlen_unsigned k.memory filename) (λ n.
      if n == 0
      then returned fail (record k { screen = printf k.screen "Can't open empty filename\n" [] })
      else let fd = find_next_fd k in
        if below fd fd_min || above fd fd_max
        then returned fail (record k { screen = printf k.screen "open failed\n" [] })
        else look_up filename dentry (to_nat fd) k)

unfoldable pub sys_close : Kernel → ℤ → Outcome
unfolding call_close
sys_close k fd =
    if below fd fd_min || above fd fd_max
    then returned fail k
    else if (entry k (to_nat fd)).flag == 0
    then returned fail k
    else let closed = with_entry k (to_nat fd) (record (entry k (to_nat fd)) { flag = 0 }) in
      call_close (entry k (to_nat fd)).fot_ptr closed fd

unfoldable pub sys_read : Others → Kernel → ℤ → ℕ → ℤ → Outcome
sys_read o k fd buf nbytes =
    if is_nat fd 1
    then returned fail
        (record k { screen = printf k.screen "1 failed to read fd: %d\n" (word (to_u32 fd) ∷ []) })
    else if is_negative fd
        || (above fd fd_max
            || ((buf == 0) || (is_negative nbytes || ((entry k (to_nat fd)).flag == 0))))
    then returned fail
        (record k { screen = printf k.screen "2 failed to read fd: %d\n" (word (to_u32 fd) ∷ []) })
    else call_read (entry k (to_nat fd)).fot_ptr o k fd buf (to_nat nbytes)

unfoldable pub sys_write : Kernel → ℤ → ℕ → ℤ → Outcome
sys_write k fd buf nbytes =
    if is_nat fd 0
    then returned fail
        (record k { screen = printf k.screen "failed to write fd: %d\n" (word (to_u32 fd) ∷ []) })
    else if below fd 1
        || (above fd fd_max
            || ((buf == 0) || (is_negative nbytes || ((entry k (to_nat fd)).flag == 0))))
    then returned fail k
    else call_write (entry k (to_nat fd)).fot_ptr k fd buf (to_nat nbytes)
