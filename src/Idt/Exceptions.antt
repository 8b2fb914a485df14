-- ===== src/Idt/Exceptions.antt =====
-- What an exception does to the process that raised it: exception_handler_n of student-distrib/idt.c,
-- with sys_halt of student-distrib/syscall.c.
use unix_operation_system.Prelude.{ℕ, ◌%◌, ◌≡◌, ◌==◌, refl, false, arith}
use unix_operation_system.State.{Kernel}
use unix_operation_system.Syscall.{current}
use unix_operation_system.Syscall.Table.{IsValid}
use unix_operation_system.Process.{sys_halt}
use unix_operation_system.Process.Halt.{EndsIn, Left, Reports, sys_halt-Left, sys_halt-Reports}
use unix_operation_system.Idt.{raised, exception_handler_n, exception_function}

-- Only the screen and the flag are changed before sys_halt.
Left-raised : (k : Kernel) (n : ℕ) (end : Kernel) → Left (raised k n) end → Left k end
unfolding raised
Left-raised k n end l = record {
  slot = l.slot;
  pointer = l.pointer;
  running = l.running;
  term = l.term;
  blocks = l.blocks;
  closed = l.closed;
  tables = l.tables;
  flag = λ h. l.flag refl;
}

-- An exception, whatever its number, ends the process that runs, when the table of its parent is
-- valid: its slot is free, the parent is current, and sys_execute returns 256 to the parent or a new base
-- shell starts. The flag of the exception is taken back: whatever status the next process gives when it
-- ends, what sys_halt reports of it is this status cut to eight bits, so not 256.
pub exception_function-Left :
    (k : Kernel) (n : ℕ)
    → IsValid (k.pcb (current k).parent_pcb).fd_entry
    → (end : Kernel) × (EndsIn end (exception_function n k)
        × Left k end
        × Reports 256 (exception_function n k)
        × ((status : ℕ) → Reports (status % 256) (sys_halt end status)))
unfolding exception_handler_n raised
exception_function-Left k n v =
    let (end, (ends, left)) = sys_halt-Left (raised k n) 255 v in
    let back : end.exception_flag == 1 ≡ false = ground (arith, left.flag refl) in
    (
      end,
      (
        ends,
        Left-raised k n end left,
        sys_halt-Reports (raised k n) 255,
        λ status. rw back at (sys_halt-Reports end status),
      ),
    )
