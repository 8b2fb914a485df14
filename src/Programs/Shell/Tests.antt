-- ===== src/Programs/Shell/Tests.antt =====
-- A session of the shell on the sample machine: the user types the name of a file that is no program, and then exit.
use unix_operation_system.Prelude.{
  ℕ, ◌-◌, ◌≡◌, refl, arith, some, none, inl, [], ◌∷◌, get_or, if◌then◌else◌, leb, ltb, ◌&&◌, ◌==◌,
  List,
}
use unix_operation_system.Prelude.Int.{pos, fail}
use unix_operation_system.Memory.{Memory, max_rounds, copy_word}
use unix_operation_system.Sample.{frame, kernel, buffer, dentry, placement, image}
use unix_operation_system.State.{Kernel}
use unix_operation_system.Strings.{
  strlen_unsigned, strlen_loop, strcpy_unsigned, strcpy_loop, strncmp_unsigned, strncmp_loop,
  strncmp, strncmp_signed_loop,
}
use unix_operation_system.Blocks.{memset, memset_loop}
use unix_operation_system.Process.Execute.{sys_execute, find_file, found_file, admit, prepared}
use unix_operation_system.Process.{parse_arg, parse_loop}
use unix_operation_system.FileSystem.{
  load_dentry, by_name_loop, read_dentry_by_name, read_data, copy_bytes, loop_bounds, copy_blocks,
  request,
}
use unix_operation_system.Keyboard.Handler.{enter}
use unix_operation_system.Terminal.{
  terminal_write, write_loop, write_char, terminal_read, wait_loop, asked, read_line, read_loop,
  count_exit,
}
use unix_operation_system.Syscall.Calls.{sys_read, sys_write, call_read, call_write, after, result}
use unix_operation_system.Programs.{ece391_strlen, user_strlen_loop}
use unix_operation_system.Programs.Reading.{ece391_fdputs}
use unix_operation_system.Programs.Machine.{Setting, kernel_calls, of_outcome}
use unix_operation_system.Programs.Shell.{Texts, shell}
use unix_operation_system.Programs.Shell.Sessions.{
  Line, command, unknown, ends, cut, shell-Session, exit_command,
}

abbrev texts : Texts
texts = record {
  buf = buffer;
  starting = 200;
  prompt = 210;
  read_failed = 220;
  exit = 100;
  no_such_command = 230;
  by_exception = 240;
  abnormally = 250;
}

-- The prompt has one character, the other messages have none.
abbrev literals : Memory
literals p =
    if leb 100 p && ltb p 104
    then get_or exit_command (p - 100) 0
    else if p == 210
    then b'>'
    else image p

-- The four letters are typed, and the keyboard allows the terminal to print.
abbrev typed : Kernel
typed = record kernel {
  memory = literals;
  keyboard = record (kernel.keyboard) {
    write_flag = 1;
    keyboard_buf = λ i. if i == 0 then b'a' else 0;
    keybuf_count = 1;
  };
}

-- When nothing is typed, the user types exit; then Enter is pressed.
abbrev types : Kernel → Kernel
types k =
    if k.keyboard.keyboard_buf 0 == 0
    then enter (record k {
      keyboard = record (k.keyboard) {
        keyboard_buf = λ i. get_or exit_command i 0;
        keybuf_count = 4;
      };
    })
    else enter k

abbrev setting : Setting
setting = record {
  others = record { clock = []; kernel = types ∷ []; late = λ k. k };
  dentry = dentry;
  placement = placement;
  locals = frame.locals;
  ebp = 0;
  esp = 0;
  program = λ eip k. none;
  numbered = λ n k. none;
}

told : (k1 : Kernel) × (ece391_fdputs (kernel_calls setting) typed (pos 1) 200 ≡ some k1)
unfolding ece391_fdputs ece391_strlen user_strlen_loop max_rounds sys_write call_write after result
    terminal_write write_loop strlen_unsigned strlen_loop
told = (_, refl)

prompted : (k1 : Kernel) × (ece391_fdputs (kernel_calls setting) told.0 (pos 1) 210 ≡ some k1)
unfolding told ece391_fdputs ece391_strlen user_strlen_loop max_rounds sys_write call_write after
    result terminal_write write_loop write_char strlen_unsigned strlen_loop
prompted = (_, refl)

abbrev first : List ℕ
first = b'a' ∷ b'\n' ∷ []

abbrev second : List ℕ
second = b'e' ∷ b'x' ∷ b'i' ∷ b't' ∷ b'\n' ∷ []

got :
    (k' : Kernel) × (of_outcome (sys_read setting.others prompted.0 (pos 0) buffer (pos 1023))
      ≡ some (pos 2, k'))
unfolding prompted told ece391_fdputs ece391_strlen user_strlen_loop max_rounds sys_write call_write
    after result terminal_write write_loop write_char strlen_unsigned strlen_loop sys_read call_read
    terminal_read wait_loop asked enter read_line read_loop count_exit memset memset_loop strncmp
    strncmp_signed_loop sys_execute find_file found_file admit prepared copy_word load_dentry
    strcpy_unsigned strcpy_loop by_name_loop read_dentry_by_name read_data copy_bytes loop_bounds
    copy_blocks request parse_arg parse_loop strncmp_unsigned strncmp_loop
got = (_, refl)

first-Line : Line setting texts first told.0 got.0
unfolding got prompted told ece391_fdputs ece391_strlen user_strlen_loop max_rounds sys_write
    call_write after result terminal_write write_loop write_char strlen_unsigned strlen_loop
    sys_read call_read terminal_read wait_loop asked enter read_line read_loop count_exit memset
    memset_loop strncmp strncmp_signed_loop sys_execute find_file found_file admit prepared
    copy_word load_dentry strcpy_unsigned strcpy_loop by_name_loop read_dentry_by_name read_data
    copy_bytes loop_bounds copy_blocks request parse_arg parse_loop strncmp_unsigned strncmp_loop
first-Line = record {
  prompted = prompted.0;
  prompt = prompted.1;
  read = got.1;
  chars = (refl, (refl, tt));
  no_nul = (omega arith, (omega arith, tt));
  short = omega arith;
  exit = (refl, omega arith, (refl, omega arith, (refl, omega arith, (refl, omega arith, refl))));
  apart = inl (omega arith);
}

-- The file a is no program.
refused :
    (k' : Kernel) × ((kernel_calls setting).ece391_execute (cut setting texts first got.0) buffer
      ≡ some (fail, k'))
unfolding got prompted told ece391_fdputs ece391_strlen user_strlen_loop max_rounds sys_write
    call_write after result terminal_write write_loop write_char strlen_unsigned strlen_loop
    sys_read call_read terminal_read wait_loop asked enter read_line read_loop count_exit memset
    memset_loop strncmp strncmp_signed_loop sys_execute find_file found_file admit prepared
    copy_word load_dentry strcpy_unsigned strcpy_loop by_name_loop read_dentry_by_name read_data
    copy_bytes loop_bounds copy_blocks request parse_arg parse_loop strncmp_unsigned strncmp_loop
refused = (_, refl)

informed : (k' : Kernel) × (ece391_fdputs (kernel_calls setting) refused.0 (pos 1) 230 ≡ some k')
unfolding refused got prompted told ece391_fdputs ece391_strlen user_strlen_loop max_rounds
    sys_write call_write after result terminal_write write_loop write_char strlen_unsigned
    strlen_loop sys_read call_read terminal_read wait_loop asked enter read_line read_loop
    count_exit memset memset_loop strncmp strncmp_signed_loop sys_execute find_file found_file admit
    prepared copy_word load_dentry strcpy_unsigned strcpy_loop by_name_loop read_dentry_by_name
    read_data copy_bytes loop_bounds copy_blocks request parse_arg parse_loop strncmp_unsigned
    strncmp_loop
informed = (_, refl)

prompted_again :
    (k' : Kernel) × (ece391_fdputs (kernel_calls setting) informed.0 (pos 1) 210 ≡ some k')
unfolding informed refused got prompted told ece391_fdputs ece391_strlen user_strlen_loop max_rounds
    sys_write call_write after result terminal_write write_loop write_char strlen_unsigned
    strlen_loop sys_read call_read terminal_read wait_loop asked enter read_line read_loop
    count_exit memset memset_loop strncmp strncmp_signed_loop sys_execute find_file found_file admit
    prepared copy_word load_dentry strcpy_unsigned strcpy_loop by_name_loop read_dentry_by_name
    read_data copy_bytes loop_bounds copy_blocks request parse_arg parse_loop strncmp_unsigned
    strncmp_loop
prompted_again = (_, refl)

got_exit :
    (k' : Kernel) × (of_outcome (sys_read setting.others prompted_again.0 (pos 0) buffer (pos 1023))
      ≡ some (pos 5, k'))
unfolding prompted_again informed refused got prompted told ece391_fdputs ece391_strlen
    user_strlen_loop max_rounds sys_write call_write after result terminal_write write_loop
    write_char strlen_unsigned strlen_loop sys_read call_read terminal_read wait_loop asked enter
    read_line read_loop count_exit memset memset_loop strncmp strncmp_signed_loop sys_execute
    find_file found_file admit prepared copy_word load_dentry strcpy_unsigned strcpy_loop
    by_name_loop read_dentry_by_name read_data copy_bytes loop_bounds copy_blocks request parse_arg
    parse_loop strncmp_unsigned strncmp_loop
got_exit = (_, refl)

second-Line : Line setting texts second informed.0 got_exit.0
unfolding got_exit prompted_again informed refused got prompted told ece391_fdputs ece391_strlen
    user_strlen_loop max_rounds sys_write call_write after result terminal_write write_loop
    write_char strlen_unsigned strlen_loop sys_read call_read terminal_read wait_loop asked enter
    read_line read_loop count_exit memset memset_loop strncmp strncmp_signed_loop sys_execute
    find_file found_file admit prepared copy_word load_dentry strcpy_unsigned strcpy_loop
    by_name_loop read_dentry_by_name read_data copy_bytes loop_bounds copy_blocks request parse_arg
    parse_loop strncmp_unsigned strncmp_loop
second-Line = record {
  prompted = prompted_again.0;
  prompt = prompted_again.1;
  read = got_exit.1;
  chars = (refl, (refl, (refl, (refl, (refl, tt)))));
  no_nul = (omega arith, (omega arith, (omega arith, (omega arith, (omega arith, tt)))));
  short = omega arith;
  exit = (refl, omega arith, (refl, omega arith, (refl, omega arith, (refl, omega arith, refl))));
  apart = inl (omega arith);
}

shell-Session_example :
    shell (kernel_calls setting) texts 2 typed ≡ some (0, cut setting texts second got_exit.0)
shell-Session_example =
    shell-Session setting texts 2 2 typed told.0 (cut setting texts second got_exit.0)
      ((b'a' ∷ []) ∷ []) told.1
      (command first-Line refl refl refused.1 (unknown refl informed.1) (ends second-Line refl))
      (omega arith)
