-- ===== src/Hardware.antt =====
-- What the kernel does to the machine besides memory, in the order in which it does it.
use unix_operation_system.Prelude.{ℕ}

-- `outb(value, port)`, and the instructions on the interrupt flag
pub data Event : Type 0 where
  outb : ℕ → ℕ → Event
  cli sti save_flags restore_flags : Event
