-- ===== src/Start/Shells.antt =====
-- From entry of student-distrib/kernel.c to the three shells, which interrupts of the timer start
-- (student-distrib/scheduling.c).
use unix_operation_system.Prelude.{ℕ, ◌+◌, ◌≡◌}
use unix_operation_system.State.{Kernel}
use unix_operation_system.Pic.{Pic}
use unix_operation_system.Process.Execute.{started}
use unix_operation_system.Process.Kin.{Kin}
use unix_operation_system.Scheduler.{Frame, Registers, executed, pit_interrupt_handler}
use unix_operation_system.Scheduler.Works.{Work}

-- How `n` shells are started behind entry: by interrupts of the timer that start a program, with steps
-- of Work between them, which start and end no process
pub data Starting (f : Frame) (k : Kernel) : ℕ → Kernel → Type 0 where
  booted : Starting f k 0 k
  shell :
      {n : ℕ} {k1 k2 : Kernel} (r : Registers) (eip : ℕ)
      → Starting f k n k1
      → pit_interrupt_handler f k1 r ≡ executed (started eip k2)
      → Starting f k (n + 1) k2
  works : {n : ℕ} {k1 k2 : Kernel} → Starting f k n k1 → Work k1 k2 → Starting f k n k2
