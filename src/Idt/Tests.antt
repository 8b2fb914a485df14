-- ===== src/Idt/Tests.antt =====
-- Interrupts of a table, and an exception of the sample machine
use unix_operation_system.Prelude.{ℕ, ◌%◌, ◌≡◌, arith, none, leb, ◌==◌, if◌then◌else◌}
use unix_operation_system.Sample.{kernel}
use unix_operation_system.Sample.{table-IsValid}
use unix_operation_system.State.{Kernel}
use unix_operation_system.Process.{sys_halt}
use unix_operation_system.Process.Halt.{EndsIn, Left, Reports}
use unix_operation_system.Idt.{Handlers, idt_init, reset_gate, exception_function}
use unix_operation_system.Idt.Gates.{InSpace, deliver, function_of, idt_init-deliver}
use unix_operation_system.Idt.Exceptions.{exception_function-Left}

abbrev handlers : Handlers
handlers = record {
  exception = λ n. 0x400000;
  pit_handler_linkage = 0x401000;
  keyboard_handler_linkage = 0x402000;
  rtc_handler_linkage = 0x403000;
  syscall_handler = 0x404000;
}

handlers-InSpace : InSpace handlers
handlers-InSpace = record {
  exceptions = λ n. omega arith;
  pit = omega arith;
  keyboard = omega arith;
  rtc = omega arith;
  syscall = omega arith;
}

idt_init-deliver_example :
    deliver (idt_init handlers (λ n. reset_gate) 0x80) 3
    ≡ (if leb 3 (if 0x80 == 0x80 then 3 else 0) then function_of handlers 0x80 else none)
idt_init-deliver_example =
    idt_init-deliver handlers (λ n. reset_gate) 0x80 3 handlers-InSpace (omega arith)

-- The second process has a page fault.
abbrev child : Kernel
child = record kernel { current_pcb_pointer = 2 }

exception_function-Left_example :
    (end : Kernel) × (EndsIn end (exception_function 14 child)
      × Left child end
      × Reports 256 (exception_function 14 child)
      × ((status : ℕ) → Reports (status % 256) (sys_halt end status)))
exception_function-Left_example = exception_function-Left child 14 table-IsValid
