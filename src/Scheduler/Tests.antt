-- ===== src/Scheduler/Tests.antt =====
-- Three shells on the sample machine
use unix_operation_system.Prelude.{ℕ, ◌≡◌, refl, arith, true, ltb, if◌then◌else◌}
use unix_operation_system.Sample.{kernel, terminal, placement, fname, program, frame, registers}
use unix_operation_system.State.{Kernel}
use unix_operation_system.Process.Execute.{
  started, sys_execute, find_file, found_file, admit, load_process, entered, mapped, prepared,
  enter_process, new_pcb, label,
}
use unix_operation_system.Process.{find_pid, pid_loop, parse_arg, parse_loop}
use unix_operation_system.Memory.{max_rounds, copy_word}
use unix_operation_system.Strings.{
  strlen_unsigned, strlen_loop, strcpy_unsigned, strcpy_loop, strncmp_unsigned, strncmp_loop,
  strncmp, strncmp_signed_loop,
}
use unix_operation_system.Blocks.{memset, memset_loop}
use unix_operation_system.FileSystem.{
  load_dentry, by_name_loop, read_dentry_by_name, read_data, copy_bytes, loop_bounds, copy_blocks,
  request,
}
use unix_operation_system.Paging.{map_program}
use unix_operation_system.Scheduler.Starting.{sys_execute-work}
use unix_operation_system.Scheduler.{Registers, switched, pit_interrupt_handler}
use unix_operation_system.Scheduler.Switching.{
  Ready, Switched, waiting, pit_interrupt_handler-Switched,
}
use unix_operation_system.Scheduler.Mapping.{CurrentMapped, pit_interrupt_handler-Mapped}

abbrev pub shells : Kernel
shells = record kernel {
  memory = program;
  pcb_counter = λ i. if ltb i 3 then 1 else 0;
  terminal = λ t. record (terminal t) { running_pcb = t };
}

shells-Ready : Ready shells
shells-Ready = record {
  low = omega arith;
  high = omega arith;
  shells = refl;
  current = refl;
  distinct = λ t t' lo hi lo' hi' ne. ne;
  occupied = λ t lo hi. (lo, ground (arith, lo, hi));
}

pit_interrupt_handler-Switched_example :
    (r' : Registers) × (k' : Kernel) × (pit_interrupt_handler frame shells registers
      ≡ switched r' k')
    × Switched shells registers r' k'
    × (k'.interrupts_on ≡ true)
pit_interrupt_handler-Switched_example =
    pit_interrupt_handler-Switched frame shells registers shells-Ready

-- The first interrupt, and the state after it
first_interrupt :
    (r' : Registers) × (k' : Kernel) × (pit_interrupt_handler frame shells registers
      ≡ switched r' k')
first_interrupt =
    let s = pit_interrupt_handler-Switched frame shells registers shells-Ready in (s.0, s.1, s.2)

pit_interrupt_handler-Mapped_example : CurrentMapped placement first_interrupt.1
pit_interrupt_handler-Mapped_example =
    pit_interrupt_handler-Mapped frame shells registers first_interrupt.0 first_interrupt.1 refl
      (λ p. refl) (λ e. absurd (omega arith)) first_interrupt.2

-- The process of the first terminal starts the program of the file `a`.
execute_runs :
    (eip : ℕ) × (k' : Kernel) × (sys_execute frame.locals 0 0 shells fname ≡ started eip k')
unfolding sys_execute find_file found_file admit load_process entered mapped prepared enter_process
    new_pcb label max_rounds strlen_unsigned strlen_loop strcpy_unsigned strcpy_loop memset
    memset_loop copy_word load_dentry by_name_loop read_dentry_by_name read_data copy_bytes
    loop_bounds copy_blocks request parse_arg parse_loop map_program find_pid pid_loop
    strncmp_unsigned strncmp_loop strncmp strncmp_signed_loop
execute_runs = (_, _, refl)

sys_execute-work_example : Ready execute_runs.1 × (waiting execute_runs.1 ≡ waiting shells)
sys_execute-work_example =
    sys_execute-work frame.locals 0 0 shells execute_runs.1 fname execute_runs.0 shells-Ready
      execute_runs.2
