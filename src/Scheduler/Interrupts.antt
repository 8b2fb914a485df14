-- ===== src/Scheduler/Interrupts.antt =====
-- An interrupt of the timer that switches is the one of the handler in student-distrib/devices/pit.c.
use unix_operation_system.Prelude.{◌≡◌, sym, ◌∙◌}
use unix_operation_system.State.{Kernel}
use unix_operation_system.Scheduler.{Registers, Frame, switched, pit_interrupt_handler}
use unix_operation_system.Scheduler.Switching.{Ready, Switched, pit_interrupt_handler-Switched}

pub same_end :
    {r r' : Registers} {k k' : Kernel} → switched r k ≡ switched r' k' → (r ≡ r') × (k ≡ k')
same_end e = (cc, cc)

-- A turn is the one of the handler.
pub turn-Switched :
    (f : Frame) (k k' : Kernel) (r r' : Registers)
    → Ready k
    → pit_interrupt_handler f k r ≡ switched r' k'
    → Switched k r r' k'
turn-Switched f k k' r r' v e =
    let s = pit_interrupt_handler-Switched f k r v in
    let same = same_end (sym s.2 ∙ e) in rw (← same.0, ← same.1) s.3
