-- ===== src/Process/Tests.antt =====
-- The processes of the sample machine
use unix_operation_system.Prelude.{◌≡◌, refl, arith}
use unix_operation_system.Prelude.Int.{pos}
use unix_operation_system.Sample.{kernel, command, buffer, image, program}
use unix_operation_system.Sample.{table-IsValid}
use unix_operation_system.State.{Kernel}
use unix_operation_system.Process.{sys_getargs, sys_halt}
use unix_operation_system.Process.Arguments.{IsWord, WordAt, sys_getargs-WordAt}
use unix_operation_system.Process.Execute.{Locals}
use unix_operation_system.Process.Halt.{EndsIn, Left, sys_halt-Left}

first-IsWord : IsWord command 0 3
first-IsWord = record { ends = refl; goes_on = λ i h. ground (arith, h) }

second-IsWord : IsWord command 4 1
second-IsWord = record { ends = refl; goes_on = λ i h. ground (arith, h) }

sys_getargs-WordAt_example :
    let (r, k') = sys_getargs kernel buffer 16 in
    (r ≡ pos 0) × WordAt command 4 1 buffer 16 image k'.memory
sys_getargs-WordAt_example =
    sys_getargs-WordAt kernel buffer 16 3 1 (omega arith) first-IsWord second-IsWord (omega arith)
      (omega arith) (omega arith)

-- The second process runs.
abbrev child : Kernel
child = record kernel { current_pcb_pointer = 2 }

sys_halt-Left_example : (end : Kernel) × (EndsIn end (sys_halt child 7) × Left child end)
sys_halt-Left_example = sys_halt-Left child 7 table-IsValid

abbrev locals : Locals
locals = record {
  filename = 8000000;
  tmp_cmd = 8001000;
  execute_file = 8002000;
  code_buf = 8003000;
}

-- The machine with the executable
abbrev loaded : Kernel
loaded = record kernel { memory = program }
