-- ===== src/Programs/Printed/Tests.antt =====
-- cat on the sample machine: the command is `cat a`, and the file `a` holds `hi`.
use unix_operation_system.Prelude.{
  ◌+◌, ◌*◌, ◌<◌, ◌≡◌, refl, arith, some, none, [], Bool-cases, inl, inr, ◌==◌,
}
use unix_operation_system.Prelude.Int.{pos}
use unix_operation_system.Sample.{frame, kernel, buffer, dentry, placement}
use unix_operation_system.State.{Kernel, file_op, terminal_stdout}
use unix_operation_system.FileSystem.Layout.{data_block_num, block_bytes}
use unix_operation_system.Memory.{max_rounds, copy_word, lt-max_rounds}
use unix_operation_system.Strings.{
  strlen_unsigned, strlen_loop, strncmp_unsigned, strncmp_loop, strcpy_unsigned, strcpy_loop,
}
use unix_operation_system.Blocks.{memset, memset_loop}
use unix_operation_system.FileSystem.{load_dentry, by_name_loop, read_dentry_by_name}
use unix_operation_system.Syscall.{entry, find_next_fd, next_fd_loop, file_open}
use unix_operation_system.Syscall.Calls.{
  returned, sys_open, look_up, open_found, opened_as, call_open, assign, ops_of, after, result,
}
use unix_operation_system.Process.{sys_getargs, args_loop, copy_word_loop}
use unix_operation_system.Programs.Reading.{Literals, cat}
use unix_operation_system.Programs.Bytes.{bytes_from}
use unix_operation_system.Programs.Spelled.{CanPrint, Shown, own_col, own_row, last_row}
use unix_operation_system.Programs.Machine.{Setting, kernel_calls}
use unix_operation_system.Programs.FileServes.{Ready, file_length, byte_of}
use unix_operation_system.Programs.Printed.{cat-prints}

abbrev literals : Literals
literals = record { buf = buffer; no_arguments = 1; not_found = 2; read_failed = 3; dot = 4 }

abbrev setting : Setting
setting = record {
  others = record { clock = []; kernel = []; late = λ k. k };
  dentry = dentry;
  placement = placement;
  locals = frame.locals;
  ebp = 0;
  esp = 0;
  program = λ eip k. none;
  numbered = λ n k. none;
}

-- The keyboard allows the terminal to print.
abbrev printing : Kernel
printing = record kernel { keyboard = record (kernel.keyboard) { write_flag = 1 } }

argument : (k1 : Kernel) × (sys_getargs printing buffer 1024 ≡ (pos 0, k1))
unfolding sys_getargs
argument = (_, refl)

opened : (k2 : Kernel) × (sys_open argument.0 dentry buffer ≡ returned (pos 3) k2)
unfolding argument sys_getargs args_loop copy_word_loop memset memset_loop sys_open look_up
    open_found opened_as call_open file_open assign ops_of after result strlen_unsigned strlen_loop
    max_rounds read_dentry_by_name by_name_loop load_dentry copy_word strncmp_unsigned strncmp_loop
    find_next_fd next_fd_loop strcpy_unsigned strcpy_loop
opened = (_, refl)

-- What the descriptor, the file and the memory are then
record Found (k : Kernel) : Type 0 where
  is_file : (entry k 3).fot_ptr ≡ file_op
  in_use : (entry k 3).flag ≡ 1
  start : (entry k 3).file_pos ≡ 0
  stdout : (entry k 1).fot_ptr ≡ terminal_stdout
  stdout_in_use : (entry k 1).flag ≡ 1
  inode : (entry k 3).inode_num ≡ 0
  boot : k.boot_block_ptr ≡ 4096
  length : file_length k 3 ≡ 2
  block : data_block_num k.memory k.boot_block_ptr (entry k 3).inode_num 0 ≡ 0
  first : byte_of k 3 0 ≡ b'h'
  second : byte_of k 3 1 ≡ b'i'
  nul : k.memory (buffer + 1025) ≡ 0
  terminal : k.running_term ≡ 1
  print : k.keyboard.write_flag ≡ 1
  col : own_col k k.screen ≡ 3
  row : own_row k k.screen ≡ 4

opened-Found : Found opened.0
unfolding opened argument sys_getargs args_loop copy_word_loop memset memset_loop sys_open look_up
    open_found opened_as call_open file_open assign ops_of after result strlen_unsigned strlen_loop
    max_rounds read_dentry_by_name by_name_loop load_dentry copy_word strncmp_unsigned strncmp_loop
    find_next_fd next_fd_loop strcpy_unsigned strcpy_loop
opened-Found = record {
  is_file = refl;
  in_use = refl;
  start = refl;
  stdout = refl;
  stdout_in_use = refl;
  inode = refl;
  boot = refl;
  length = refl;
  block = refl;
  first = refl;
  second = refl;
  nul = refl;
  terminal = refl;
  print = refl;
  col = refl;
  row = refl;
}

Found-Ready : (k : Kernel) → Found k → Ready k 3 buffer 1024 1025
Found-Ready k v = record {
  low = omega arith;
  high = omega arith;
  is_file = v.is_file;
  in_use = rw v.in_use (omega arith);
  start = v.start;
  stdout = v.stdout;
  stdout_in_use = rw v.stdout_in_use (omega arith);
  inode = rw v.inode (omega arith);
  short = rw v.length (omega arith);
  blocks = λ idx h.
      let h' : idx * block_bytes < 2 = rw v.length at h in
      let first : 0 ≡ idx = omega (arith, h') in rw (← first, v.block) (omega arith);
  plain = λ p h. elim (Bool-cases (p == 0)) [
    | inl e ↦ let is : 0 ≡ p = ground (arith, e) in rw (← is, v.first) (omega arith)
    | inr e ↦
        let h' : p < 2 = rw v.length at h in
        let is : 1 ≡ p = ground (arith, e, h') in rw (← is, v.second) (omega arith)
  ];
  some_size = omega arith;
  small = omega arith;
  buffer = omega arith;
  boot = rw v.boot (omega arith);
  image = rw v.boot (omega arith);
  behind = omega arith;
  within = lt-max_rounds 1025 (omega arith);
  nul = v.nul;
}

Found-CanPrint : (k : Kernel) → Found k → CanPrint k
Found-CanPrint k v = record {
  some_terminal = rw v.terminal (omega arith);
  terminal = rw v.terminal (omega arith);
  allowed = inr (inr v.print);
}

Found-fits :
    (k : Kernel)
    → Found k
    → last_row
        (own_col k k.screen)
        (own_row k k.screen)
        (bytes_from (byte_of k 3) 0 (file_length k 3))
      < 25
Found-fits k v = rw (v.length, v.first, v.second, v.col, v.row) (omega arith)

cat-prints_example :
    (end : Kernel) × (cat (kernel_calls setting) literals 3 printing ≡ some (0, end))
    × Shown opened.0
        (bytes_from (byte_of opened.0 3) 0 (file_length opened.0 3))
        opened.0.screen
        end.screen
cat-prints_example =
    cat-prints setting literals 3 3 1025 printing argument.0 opened.0 argument.1 opened.1
      (Found-Ready opened.0 opened-Found) (rw opened-Found.length (omega arith))
      (Found-CanPrint opened.0 opened-Found) (rw opened-Found.col (omega arith))
      (Found-fits opened.0 opened-Found)
