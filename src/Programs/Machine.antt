-- ===== src/Programs/Machine.antt =====
-- The system calls of the kernel as a program calls them: the record that the programs take, filled by
-- the functions of student-distrib/syscall.c, behind the
-- checks of student-distrib/linkage/syscall_link.S. A program and the kernel address the same memory, and
-- while a program runs no other does.
use unix_operation_system.Prelude.{ℕ, Bool, ◌||◌, ltb, if◌then◌else◌, Option, none, some, ◌≡◌, refl}
use unix_operation_system.Prelude.Int.{ℤ, pos, fail}
use unix_operation_system.Memory.{write}
use unix_operation_system.State.{Kernel}
use unix_operation_system.Syscall.Calls.{
  Outcome, returned, unending, null_used, Others, sys_open, sys_read, sys_write, sys_close, after,
  result,
}
use unix_operation_system.Paging.{Placement}
use unix_operation_system.Syscall.Vidmap.{sys_vidmap}
use unix_operation_system.Process.{sys_getargs}
use unix_operation_system.Process.Execute.{
  Locals, Executed, refused, started, endless, overran, sys_execute,
}
use unix_operation_system.Programs.Reading.{Calls}

-- A call that does not return has no result.
abbrev pub of_outcome : Outcome → Option (ℤ × Kernel)
of_outcome (returned r k) = some (r, k)
of_outcome unending = none
of_outcome null_used = none

-- What the calls take besides the program's arguments: what happens while one waits, the address of
-- the local of sys_open, where the page tables are, and what the calls do with the registers as they
-- are
pub record Setting : Type 0 where
  pub others : Others
  pub dentry : ℕ
  pub placement : Placement
  -- the variables of sys_execute and its registers, and what a program that it started does until
  -- sys_halt is back in it: the status, and the kernel then
  pub locals : Locals
  pub ebp : ℕ
  pub esp : ℕ
  pub program : ℕ → Kernel → Option (ℤ × Kernel)
  pub numbered : ℕ → Kernel → Option (ℤ × Kernel)

-- A program that is started runs to its end.
abbrev pub run : (ℕ → Kernel → Option (ℤ × Kernel)) → Executed → Option (ℤ × Kernel)
run program (refused r k) = some (r, k)
run program (started eip k) = program eip k
run program endless = none
run program overran = none

-- The checks of syscall_handler, on an unsigned number
abbrev pub invalid_sys : ℕ → Bool
invalid_sys num = ltb num 1 || ltb 10 num

abbrev pub kernel_calls : Setting → Calls Kernel
kernel_calls c = record {
  memory = λ k. k.memory;
  store = λ k a v. record k { memory = write k.memory a v };
  ece391_getargs = λ k buf n. some (sys_getargs k buf n);
  ece391_open = λ k name. of_outcome (sys_open k c.dentry name);
  ece391_read = λ k fd buf n. of_outcome (sys_read c.others k fd buf (pos n));
  ece391_write = λ k fd buf n. of_outcome (sys_write k fd buf n);
  ece391_close = λ k fd. of_outcome (sys_close k fd);
  ece391_vidmap = λ k start. some (sys_vidmap c.placement k start);
  ece391_execute = λ k command. run c.program (sys_execute c.locals c.ebp c.esp k command);
  call_sys = λ k num. if invalid_sys num then some (fail, k) else c.numbered num k;
}

pub of_outcome-after : (o : Option (ℤ × Kernel)) → of_outcome (after o result) ≡ o
unfolding after result
of_outcome-after none = refl
of_outcome-after (some (r, k)) = refl
