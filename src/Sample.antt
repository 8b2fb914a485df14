-- ===== src/Sample.antt =====
-- A small machine on which the theorems are tried: an image with one file, a screen, a keyboard and
-- a process.
use unix_operation_system.Prelude.{
  arith, ◌≡◌, refl, each_branch, ℕ, ◌-◌, ◌+◌, true, [], ◌==◌, if◌then◌else◌,
}
use unix_operation_system.Prelude.Int.{pos}
use unix_operation_system.Memory.{Memory}
use unix_operation_system.Screen.{Screen}
use unix_operation_system.Rtc.{Rtc}
use unix_operation_system.Syscall.Table.{IsValid, is_device}
use unix_operation_system.Paging.{Paging, Placement, of_val}
use unix_operation_system.Scheduler.{Frame, Registers}
use unix_operation_system.State.{
  Kernel, Keyboard, Terminal, Pcb, FdEntry, file_op, terminal_stdin, terminal_stdout,
}

-- Where the image of the file system starts, and addresses behind it
abbrev pub boot : ℕ
boot = 4096

abbrev pub buffer : ℕ
buffer = 5000000

abbrev pub dentry : ℕ
dentry = 6000000

abbrev pub fname : ℕ
fname = 7000000

-- A name that no entry has
abbrev pub missing : ℕ
missing = 7000100

-- The image has one entry, the regular file `a`, whose inode 0 has two bytes in data block 0; the
-- name stands at `fname` too, and `b` at `missing`.
abbrev pub image : Memory
image p =
    if p == 4160
    then b'a'
    else if p == 4192
    then 2
    else if p == 8192
    then 2
    else if p == 270336
    then b'h'
    else if p == 270337
    then b'i'
    else if p == fname
    then b'a'
    else if p == missing
    then b'b'
    else 0

-- The same, where the file is an executable of 28 bytes
abbrev pub program : Memory
program p =
    if p == 8192
    then 28
    else if p == 270336
    then 0x7f
    else if p == 270337
    then 0x45
    else if p == 270338
    then 0x4c
    else if p == 270339
    then 0x46
    else image p

abbrev pub screen : Screen
screen = record {
  screen_x = 3;
  screen_y = 4;
  screen_x_arr = λ t. t + 1;
  screen_y_arr = λ t. 2;
  video_mem = λ p. 0;
  cursor = 323;
}

-- Alt is down, and two characters are typed.
abbrev pub keyboard : Keyboard
keyboard = record {
  caps_lock_counter = 0;
  ctrl_buf = 0;
  shift_buf = 0;
  caps_lock = 0;
  alt_buf = 1;
  write_flag = 0;
  keyboard_buf_arr = λ t p. 0;
  keybuf_count_arr = λ t. 0;
  keyboard_buf = λ p. if p == 0 then b'l' else if p == 1 then b's' else 0;
  keybuf_count = 2;
}

abbrev pub terminal : ℕ → Terminal
terminal i = record {
  id = i;
  buf = λ p. 0;
  count = 0;
  task_counter = pos 1;
  running_pcb = 1;
  read_flag = 0;
  cursor_x = 0;
  cursor_y = 0;
  terminal_process_running = 1;
  terminal_shell_counter = pos 1;
  pingping_flag = 0;
  fish_flag = 0;
  grep_flag = 0;
}

-- The terminal's two descriptors, the file at 2, and the others free
abbrev pub table : ℕ → FdEntry
table i = record {
  fot_ptr = if i == 0 then terminal_stdin else if i == 1 then terminal_stdout else file_op;
  inode_num = 0;
  file_pos = 0;
  flag = if i == 0 then 1 else if i == 1 then 1 else if i == 2 then 1 else 0;
  filetype = 2;
}

pub table-IsValid : IsValid table
unfolding is_device
table-IsValid = record {
  stdin = refl;
  stdout = refl;
  others = λ i lo hi used.
      each_branch (λ f. is_device f ≡ true) (i == 0) (λ e. absurd (ground (arith, e, lo)))
        (λ e.
          each_branch (λ f. is_device f ≡ true) (i == 1) (λ e. absurd (ground (arith, e, lo)))
            (λ e. refl));
}

-- `cat a`
abbrev pub command : ℕ → ℕ
command p =
    if p == 0
    then b'c'
    else if p == 1
    then b'a'
    else if p == 2
    then b't'
    else if p == 3
    then b' '
    else if p == 4
    then b'a'
    else 0

-- Each process is the child of the one before it.
abbrev pub pcb : ℕ → Pcb
pcb i = record {
  pid = i;
  parent_id = i - 1;
  saved_esp = 0;
  saved_ebp = 0;
  active = 1;
  cmd = command;
  fd_entry = table;
  parent_pcb = i - 1;
  current_esp = 0;
  current_ebp = 0;
}

-- No page is present.
abbrev pub paging : Paging
paging = record {
  page_directory = λ i. of_val 0;
  page_table = λ i. of_val 0;
  vid_page_table = λ i. of_val 0;
}

-- Where the tables are
abbrev pub placement : Placement
placement = record { page_table_page = 1100; vid_page_table_page = 1101 }

abbrev pub rtc : Rtc
rtc = record {
  current_freq = 1024;
  rtc_interrupt_counter = λ t. 0;
  rtc_counter_upperbound = λ t. 2;
}

abbrev pub kernel : Kernel
kernel = record {
  memory = image;
  boot_block_ptr = boot;
  temp_position = 0;
  screen = screen;
  keyboard = keyboard;
  terminal = terminal;
  display_term = 1;
  last_term = 1;
  running_term = 1;
  rtc = rtc;
  pcb = pcb;
  pcb_counter = λ i. if i == 0 then 1 else 0;
  current_pcb_pointer = 1;
  parent_pcb = 0;
  paging = paging;
  esp0 = 0;
  ss0 = 0;
  exception_flag = 0;
  interrupts_on = true;
  ports = [];
}

-- The addresses of the locals of sys_execute, and the registers at an interrupt of the timer
abbrev pub frame : Frame
frame = record {
  placement = placement;
  locals = record {
    filename = 8000000;
    tmp_cmd = 8001000;
    execute_file = 8002000;
    code_buf = 8003000;
  };
  execute = record { ebp = 0; esp = 0 };
  shell = fname;
}

abbrev pub registers : Registers
registers = record { ebp = 8380000; esp = 8379000 }
