-- ===== src/Process.antt =====
-- Processes: slots, arguments and the end of a process, in student-distrib/syscall.c.
pub mod Slots
pub mod Arguments
pub mod Kin
pub mod Closing
pub mod Halt
pub mod Execute
pub mod Start
mod Tests
use unix_operation_system.Prelude.{
  ℕ, zero, suc, ◌+◌, ◌-◌, ◌*◌, ◌%◌, Bool, true, false, ◌&&◌, ◌||◌, not, ltb, leb, ◌==◌,
  if◌then◌else◌, update, List, [],
}
use unix_operation_system.Prelude.Int.{ℤ, pos, negsuc, fail, below}
use unix_operation_system.Memory.{Memory, write}
use unix_operation_system.Blocks.{memset}
use unix_operation_system.State.{Kernel, Pcb, FdEntry, Terminal, FileOps, null}
use unix_operation_system.Printf.{printf}
use unix_operation_system.Paging.{page_halt}
use unix_operation_system.Keyboard.{zeroed}
use unix_operation_system.Terminal.{decrement}
use unix_operation_system.Syscall.{current, entry, fd_min, fd_max}
use unix_operation_system.Syscall.Calls.{Outcome, returned, unending, null_used, sys_close}

-- The loop of find_pid, `n` rounds before all six slots were seen
unfoldable pub pid_loop : ℕ → (ℕ → ℕ) → ℕ → ℕ
pid_loop zero counter i = 0
pid_loop (suc n) counter i =
    let rest = pid_loop n counter (i + 1) in if not (counter i == 0) then rest else i + 1

unfoldable pub find_pid : Kernel → ℕ
find_pid k = pid_loop 6 k.pcb_counter 0

-- `cmd[i] == SPACE || cmd[i] == 0`
abbrev pub ends_word : ℕ → Bool
ends_word c = (c == b' ') || (c == 0)

-- The inner loop of sys_getargs: the word at `at` goes to `buf`, from its letter `j` on.
unfoldable pub copy_word_loop : ℕ → (ℕ → ℕ) → ℕ → ℕ → ℕ → Memory → Memory
copy_word_loop zero cmd at buf j m = m
copy_word_loop (suc n) cmd at buf j m =
    let rest = copy_word_loop n cmd at buf (j + 1) (write m (buf + j) (cmd (at + j))) in
    if ends_word (cmd (at + j)) then m else rest

-- The outer loop: the first word is passed over.
unfoldable pub args_loop : ℕ → (ℕ → ℕ) → ℕ → ℕ → Memory → Memory
args_loop zero cmd buf i m = m
args_loop (suc n) cmd buf i m =
    let rest = args_loop n cmd buf (i + 1) m in
    if ends_word (cmd i) then copy_word_loop 1024 cmd (i + 1) buf 0 m else rest

-- `cmd` is the command of the process, with what stands behind its 128 bytes. A caller passes the
-- size of its buffer, which is not negative.
unfoldable pub sys_getargs : Kernel → ℕ → ℕ → ℤ × Kernel
sys_getargs k buf nbytes = if (entry k 0).flag == 0 then (fail, k) else (
  pos 0,
  record k { memory = args_loop 1024 (current k).cmd buf 0 (memset k.memory buf 0 nbytes) },
)

-- The call goes on when it returned.
pub and_then : Outcome → (Kernel → Outcome) → Outcome
and_then (returned r k) f = f k
and_then unending f = unending
and_then null_used f = null_used

-- `pcb->fd_entry[i].flag = 0`
pub drop_flag : Kernel → ℕ → ℕ → Kernel
drop_flag k p i = record k {
  pcb = update k.pcb p (record (k.pcb p) {
    fd_entry = update (k.pcb p).fd_entry i (record ((k.pcb p).fd_entry i) { flag = 0 });
  });
}

-- The loop of sys_halt that closes descriptors, `n` rounds before its bound, and what follows it.
-- sys_close works on the current process, which is the parent by then.
unfoldable pub close_loop : ℕ → ℕ → ℕ → Kernel → Outcome
close_loop zero p i k = returned (pos 0) k
close_loop (suc n) p i k =
    and_then (sys_close k (pos i)) (λ k'. close_loop n p (i + 1) (drop_flag k' p i))

abbrev pub closed_entry : FdEntry → FdEntry
closed_entry e = record e { flag = 0; file_pos = 0; inode_num = 0; fot_ptr = null }

-- The first part of sys_halt: the slot and the stack are the parent's.
unfoldable pub leave : Kernel → Kernel
leave k =
    let pcb = current k in
    let t = k.terminal k.running_term in
    record k {
      exception_flag = if k.exception_flag == 1 then 0 else k.exception_flag;
      interrupts_on = false;
      pcb_counter = update k.pcb_counter (pcb.pid - 1) 0;
      current_pcb_pointer = pcb.parent_pcb;
      terminal = update k.terminal k.running_term (record t { running_pcb = pcb.parent_pcb });
      esp0 = 0x800000 + 0x2000 - 0x2000 * pcb.parent_id - 4;
    }

-- What sys_halt clears of the process's own block
abbrev pub cleared_pcb : Pcb → Pcb
cleared_pcb p = record p {
  fd_entry =
      update (update p.fd_entry 0 (closed_entry (p.fd_entry 0))) 1 (closed_entry (p.fd_entry 1));
  active = 0;
  cmd = zeroed p.cmd 128;
}

abbrev pub same_int : ℤ → ℤ → Bool
same_int (pos a) (pos b) = a == b
same_int (pos a) (negsuc b) = false
same_int (negsuc a) (pos b) = false
same_int (negsuc a) (negsuc b) = a == b

-- The terminal of a process that ends
pub left_terminal : Terminal → Terminal
left_terminal t =
    let count = decrement t.task_counter in
    record t {
      task_counter = count;
      terminal_process_running =
          if below count 2 || same_int t.terminal_shell_counter count
          then 1
          else t.terminal_process_running;
      fish_flag = 0;
      grep_flag = 0;
    }

-- From the closing of descriptors 0 and 1 to `sti`
unfoldable pub retire : ℕ → Kernel → Kernel
unfolding left_terminal
retire p k = record k {
  pcb = update k.pcb p (cleared_pcb (k.pcb p));
  paging = page_halt k.paging (k.pcb p).parent_id;
  terminal = update k.terminal k.running_term (left_terminal (k.terminal k.running_term));
  interrupts_on = true;
}

-- How sys_halt ends: with a new base shell, in the parent's sys_execute with a status and the saved
-- registers, or not, where a descriptor's close does not return
pub data Halted : Type 0 where
  restarted : Kernel → Halted
  resumed : ℕ → ℕ → ℕ → Kernel → Halted
  not_ended : Outcome → Halted

-- The base shell is about to start again.
unfoldable pub restart : Kernel → Kernel
restart k = record k {
  screen = printf k.screen "Restart the Base shell...\n" [];
  terminal =
      update k.terminal k.running_term
        (record (k.terminal k.running_term) { terminal_process_running = 1 });
}

pub conclude : ℕ → ℕ → Outcome → Halted
conclude status p (returned r k) =
    let k' = retire p k in
    if same_int (k'.terminal k'.running_term).task_counter (pos 0)
    then restarted (restart k')
    else resumed status (k'.pcb p).saved_ebp (k'.pcb p).saved_esp k'
conclude status p unending = not_ended unending
conclude status p null_used = not_ended null_used

-- `status` is cut to its uint8_t. A process that an exception ends has the status 256.
pub sys_halt : Kernel → ℕ → Halted
unfolding conclude
sys_halt k status =
    conclude (if k.exception_flag == 1 then 256 else status % 256) k.current_pcb_pointer
      (close_loop 6 k.current_pcb_pointer fd_min (leave k))

-- parse_arg, `n` rounds before 32 characters: the first word of the command is the name of the file.
unfoldable pub parse_loop : ℕ → Memory → ℕ → ℕ → ℕ → Memory
parse_loop zero m command filename i = m
parse_loop (suc n) m command filename i =
    let rest = parse_loop n (write m (filename + i) (m (command + i))) command filename (i + 1) in
    if not (m (command + i) == b' ') then rest else m

unfoldable pub parse_arg : Memory → ℕ → ℕ → Memory
parse_arg m command filename = parse_loop 32 m command filename 0
