-- ===== src/Process/Execute.antt =====
-- The start of a process: sys_execute of student-distrib/syscall.c, up to the jump to the program.
use Prim.Native.String.{String}
use unix_operation_system.Prelude.{
  ℕ, zero, suc, ◌+◌, ◌-◌, ◌*◌, Bool, true, false, ◌&&◌, not, Option, none, some, ◌>>=◌, ltb, leb,
  ◌==◌, if◌then◌else◌, update, [], get_or,
}
use unix_operation_system.Prelude.Int.{ℤ, pos, negsuc, fail, is_nat, is_fail, above}
use unix_operation_system.Memory.{Memory, word32}
use unix_operation_system.Blocks.{memset}
use unix_operation_system.Strings.{strlen_unsigned, strcpy_unsigned, strncmp}
use unix_operation_system.FileSystem.{read_dentry_by_name, read_data}
use unix_operation_system.FileSystem.Layout.{inode_length}
use unix_operation_system.Printf.{printf, codes}
use unix_operation_system.State.{Kernel, Pcb, Terminal}
use unix_operation_system.Syscall.{current, fd_entry_init}
use unix_operation_system.Process.{find_pid, parse_arg}
use unix_operation_system.Paging.{map_program}

-- The addresses of the local variables
pub record Locals : Type 0 where
  pub filename : ℕ
  pub tmp_cmd : ℕ
  pub execute_file : ℕ
  pub code_buf : ℕ

-- How sys_execute ends: with a result, or in the program, from the address of its first instruction;
-- or a loop over the command does not end; or the command does not fit into `cmd` of the block, so that
-- its copy overruns the descriptors behind it.
pub data Executed : Type 0 where
  refused : ℤ → Kernel → Executed
  started : ℕ → Kernel → Executed
  endless : Executed
  overran : Executed

-- CMD_LENGTH, the size of `cmd`
abbrev pub cmd_length : ℕ
cmd_length = 128

abbrev pub user_image : ℕ
user_image = 0x08048000

-- `x++`
abbrev pub increment : ℤ → ℤ
increment (pos n) = pos (n + 1)
increment (negsuc zero) = pos 0
increment (negsuc (suc n)) = negsuc n

abbrev pub is_name : Memory → ℕ → String → Bool
is_name m filename s = is_nat (strncmp (λ i. m (filename + i)) (λ i. get_or (codes s) i 0) 32) 0

-- The terminal once its counter of tasks, `task_counter`, counts the new process
unfoldable pub label : Memory → ℕ → Terminal → Terminal
label m filename t =
    if above t.task_counter 1
    then (if is_name m filename "shell"
        then record t {
          terminal_process_running = 1;
          terminal_shell_counter = increment t.terminal_shell_counter;
        }
        else record t {
          terminal_process_running = 2;
          pingping_flag = if is_name m filename "pingpong" then 1 else t.pingping_flag;
          fish_flag = if is_name m filename "fish" then 1 else t.fish_flag;
          grep_flag = if is_name m filename "grep" then 1 else t.grep_flag;
        })
    else record t { terminal_process_running = 1 }

-- The block of the new process, for a command at `tmp_cmd` that fits: `n`, its length, is below 128.
unfoldable pub new_pcb : Kernel → ℕ → ℕ → ℕ → ℤ → Pcb
new_pcb k pid tmp_cmd n task_counter = record (k.pcb pid) {
  active = 1;
  fd_entry = fd_entry_init (k.pcb pid).fd_entry;
  pid = pid;
  parent_id = if above task_counter 1 then (current k).pid else 0;
  parent_pcb = k.current_pcb_pointer;
  cmd = λ i. if leb i n then k.memory (tmp_cmd + i) else (k.pcb pid).cmd i;
}

-- The registers saved in the block, `ebp` and `esp`, are those of the caller.
unfoldable pub enter_process : Kernel → ℕ → ℕ → ℕ → ℕ → ℕ → Kernel
unfolding new_pcb label
enter_process k filename tmp_cmd n ebp esp =
    let pid = find_pid k in
    let t = k.terminal k.running_term in
    record k {
      terminal =
          update k.terminal k.running_term
            (record (label k.memory filename t) { running_pcb = pid });
      parent_pcb = k.current_pcb_pointer;
      pcb =
          update k.pcb pid
            (record (new_pcb k pid tmp_cmd n t.task_counter) { saved_ebp = ebp; saved_esp = esp });
      current_pcb_pointer = pid;
      pcb_counter = update k.pcb_counter (pid - 1) 1;
      esp0 = 0x800000 - 0x2000 * (pid - 1) - 4;
      interrupts_on = true;
    }

-- The file is loaded for a new task of the terminal, with interrupts off.
unfoldable pub mapped : Locals → Kernel → ℤ × Kernel
mapped a k =
    let t = k.terminal k.running_term in
    let inode_num = word32 k.memory (a.execute_file + 36) in
    let r =
      read_data k.memory k.boot_block_ptr inode_num 0 user_image
        (inode_length k.memory k.boot_block_ptr inode_num) in
    (
      r.0,
      record k {
        paging = map_program k.paging (find_pid k);
        interrupts_on = false;
        terminal =
            update k.terminal k.running_term (record t { task_counter = increment t.task_counter });
        memory = r.1;
      },
    )

-- The command, of `n` characters, is copied to the new process with its NUL.
unfoldable pub entered : Locals → ℕ → ℕ → Kernel → Option ℕ → Executed
entered a ebp esp k none = endless
entered a ebp esp k (some n) =
    if ltb n cmd_length
    then started (word32 k.memory (user_image + 24))
        (enter_process k a.filename a.tmp_cmd n ebp esp)
    else overran

-- From `cli` on
unfoldable pub load_process : Locals → ℕ → ℕ → Kernel → Executed
load_process a ebp esp k =
    let r = mapped a k in
    if is_nat r.0 0
    then refused fail r.1
    else entered a ebp esp r.1 (strlen_unsigned r.1.memory a.tmp_cmd)

-- `execute_code_buf` starts as an executable file does.
abbrev pub is_executable : Memory → ℕ → Bool
is_executable m b =
    (m b == 0x7f) && ((m (b + 1) == 0x45) && ((m (b + 2) == 0x4c) && (m (b + 3) == 0x46)))

-- The test of the file and of the slots, once the directory entry is found
unfoldable pub admit : Locals → ℕ → ℕ → Kernel → Executed
admit a ebp esp k =
    let r =
      read_data k.memory k.boot_block_ptr (word32 k.memory (a.execute_file + 36)) 0 a.code_buf 4 in
    let k' : Kernel = record k { memory = r.1 } in
    if not (is_executable r.1 a.code_buf)
    then refused fail k'
    else if find_pid k == 0
    then refused (pos 1) (record k' { screen = printf k.screen "No position for new pcb!\n" [] })
    else load_process a ebp esp k'

-- The memory when the command, of `n` characters, is copied and its first word taken
unfoldable pub prepared : Memory → Locals → ℕ → ℕ → Option Memory
prepared m a command n = do
  m' ← strcpy_unsigned (memset (memset m a.filename 0 32) a.tmp_cmd 0 n) a.tmp_cmd command
  some (memset (parse_arg m' command a.filename) a.execute_file 0 64)

-- The result of read_dentry_by_name
unfoldable pub found_file : Locals → ℕ → ℕ → Kernel → Option (ℤ × Memory) → Executed
found_file a ebp esp k none = endless
found_file a ebp esp k (some (r, m)) =
    if is_fail r
    then refused fail (record k { memory = m })
    else admit a ebp esp (record k { memory = m })

-- The preparation and the search
unfoldable pub find_file : Locals → ℕ → ℕ → Kernel → Option Memory → Executed
unfolding found_file
find_file a ebp esp k none = endless
find_file a ebp esp k (some m) =
    found_file a ebp esp k (read_dentry_by_name m k.boot_block_ptr a.filename a.execute_file)

unfoldable pub sys_execute : Locals → ℕ → ℕ → Kernel → ℕ → Executed
unfolding prepared
sys_execute a ebp esp k command =
    if command == 0
    then refused fail k
    else find_file a ebp esp k
        (do n ← strlen_unsigned k.memory command; prepared k.memory a command n)
