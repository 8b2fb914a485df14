-- ===== src/State.antt =====
-- The kernel's global state: the variables and structures that the parts share.
-- A pointer to a process control block is the number of its slot, from 1 to 6; 0 is NULL.
use unix_operation_system.Prelude.{ℕ, Bool, List}
use unix_operation_system.Prelude.Int.{ℤ}
use unix_operation_system.Memory.{Memory}
use unix_operation_system.Hardware.{Event}
use unix_operation_system.Screen.{Screen}
use unix_operation_system.Rtc.{Rtc}
use unix_operation_system.Paging.{Paging}

-- The tables of operations to which `fot_ptr` points
pub data FileOps : Type 0 where
  null rtc_op file_op dir_op terminal_stdin terminal_stdout : FileOps

-- `fd_entry_t`
pub record FdEntry : Type 0 where
  pub fot_ptr : FileOps
  pub inode_num : ℕ
  pub file_pos : ℕ
  pub flag : ℕ
  pub filetype : ℕ

-- `pcb_t`
pub record Pcb : Type 0 where
  pub pid : ℕ
  pub parent_id : ℕ
  pub saved_esp : ℕ
  pub saved_ebp : ℕ
  pub active : ℕ
  pub cmd : ℕ → ℕ
  pub fd_entry : ℕ → FdEntry
  pub parent_pcb : ℕ
  pub current_esp : ℕ
  pub current_ebp : ℕ

-- `terminal_t`
pub record Terminal : Type 0 where
  pub id : ℕ
  pub buf : ℕ → ℕ
  pub count : ℕ
  pub task_counter : ℤ
  pub running_pcb : ℕ
  pub read_flag : ℕ
  pub cursor_x : ℕ
  pub cursor_y : ℕ
  pub terminal_process_running : ℕ
  pub terminal_shell_counter : ℤ
  pub pingping_flag : ℕ
  pub fish_flag : ℕ
  pub grep_flag : ℕ

-- The variables of keyboard.c
pub record Keyboard : Type 0 where
  pub caps_lock_counter : ℕ
  pub ctrl_buf : ℕ
  pub shift_buf : ℕ
  pub caps_lock : ℕ
  pub alt_buf : ℕ
  pub write_flag : ℕ
  pub keyboard_buf_arr : ℕ → ℕ → ℕ
  pub keybuf_count_arr : ℕ → ℕ
  pub keyboard_buf : ℕ → ℕ
  pub keybuf_count : ℕ

pub record Kernel : Type 0 where
  pub memory : Memory
  pub boot_block_ptr : ℕ
  pub temp_position : ℕ
  pub screen : Screen
  pub keyboard : Keyboard
  pub terminal : ℕ → Terminal
  pub display_term : ℕ
  pub last_term : ℕ
  pub running_term : ℕ
  pub rtc : Rtc
  pub pcb : ℕ → Pcb
  pub pcb_counter : ℕ → ℕ
  pub current_pcb_pointer : ℕ
  pub parent_pcb : ℕ
  pub paging : Paging
  pub esp0 : ℕ
  pub ss0 : ℕ
  pub exception_flag : ℕ
  pub interrupts_on : Bool
  -- what was written to ports, in order
  pub ports : List Event
