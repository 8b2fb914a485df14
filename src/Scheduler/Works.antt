-- ===== src/Scheduler/Works.antt =====
-- What happens besides the switches, starts and ends: the interrupts of the keyboard and the clock, and
-- what the process that runs does, its stores and its calls. None of it makes, ends or moves a process.
use unix_operation_system.Prelude.{ℕ, ◌≡◌, refl, ap, ◌++◌, both_branches, ◌==◌}
use unix_operation_system.Prelude.Int.{ℤ}
use unix_operation_system.Memory.{Memory}
use unix_operation_system.Paging.{Placement}
use unix_operation_system.Rtc.{rtc_interrupt}
use unix_operation_system.State.{Kernel}
use unix_operation_system.Keyboard.Handler.{keyboard_interrupt_handler}
use unix_operation_system.Keyboard.Keeping.{keyboard_interrupt_handler-Kin}
use unix_operation_system.Syscall.{entry}
use unix_operation_system.Syscall.Calls.{
  Outcome, returned, Others, sys_open, sys_close, sys_read, sys_write,
}
use unix_operation_system.Syscall.Keeping.Operations.{Keeps}
use unix_operation_system.Syscall.Keeping.{
  Harmless, sys_open-Keeps, sys_close-Keeps, sys_read-Keeps, sys_write-Keeps,
}
use unix_operation_system.Syscall.Vidmap.{sys_vidmap, bad_pointer}
use unix_operation_system.Process.{sys_getargs}
use unix_operation_system.Process.Execute.{Locals, refused, sys_execute}
use unix_operation_system.Process.Start.{Processes, processes, Started, kept, sys_execute-Started}
use unix_operation_system.Process.Kin.{Kin, Kin-same, same_blocks, untouched}

-- The clock's interrupt, for the kernel
abbrev pub clock_interrupt : Kernel → Kernel
clock_interrupt k = let (r, es) = rtc_interrupt k.rtc in record k { rtc = r; ports = k.ports ++ es }

pub data Work : Kernel → Kernel → Type 0 where
  key :
      (k : Kernel) (beyond : ℕ → ℕ × ℕ) (inb : ℕ) → Work k (keyboard_interrupt_handler beyond k inb)
  clock : (k : Kernel) → Work k (clock_interrupt k)
  -- the program that runs has changed memory
  stores : (k : Kernel) (m : Memory) → Work k (record k { memory = m })
  opens :
      {k k' : Kernel} {r : ℤ} (dentry filename : ℕ)
      → sys_open k dentry filename ≡ returned r k'
      → Work k k'
  closes : {k k' : Kernel} {r : ℤ} (fd : ℤ) → sys_close k fd ≡ returned r k' → Work k k'
  -- while it waits, only what keeps the processes happens
  reads :
      {k k' : Kernel} {r : ℤ} (o : Others) (fd : ℤ) (buf : ℕ) (nbytes : ℤ)
      → Harmless o
      → sys_read o k fd buf nbytes ≡ returned r k'
      → Work k k'
  writes :
      {k k' : Kernel} {r : ℤ} (fd : ℤ) (buf : ℕ) (nbytes : ℤ)
      → sys_write k fd buf nbytes ≡ returned r k'
      → Work k k'
  -- a command that is refused, or for which there is no slot
  refused_command :
      {k k' : Kernel} {r : ℤ} (a : Locals) (ebp esp command : ℕ)
      → sys_execute a ebp esp k command ≡ refused r k'
      → Work k k'
  gets_arguments : (k : Kernel) (buf nbytes : ℕ) → Work k (sys_getargs k buf nbytes).1
  maps_video : (k : Kernel) (a : Placement) (start : ℕ) → Work k (sys_vidmap a k start).1

at_return : {k k' : Kernel} {r : ℤ} (o : Outcome) → Keeps k o → o ≡ returned r k' → Kin k k'
at_return {k} o keeps e = rw e at keeps

sys_getargs-Kin : (k : Kernel) (buf nbytes : ℕ) → Kin k (sys_getargs k buf nbytes).1
unfolding sys_getargs
sys_getargs-Kin k buf nbytes =
    both_branches (λ (r : ℤ × Kernel). Kin k r.1) ((entry k 0).flag == 0) (Kin-same k)
      (untouched refl refl refl refl refl)

sys_vidmap-Kin : (k : Kernel) (a : Placement) (start : ℕ) → Kin k (sys_vidmap a k start).1
unfolding sys_vidmap
sys_vidmap-Kin k a start =
    both_branches (λ (r : ℤ × Kernel). Kin k r.1) (bad_pointer start) (Kin-same k)
      (untouched refl refl refl refl refl)

kept-Kin : (k k' : Kernel) (tmp : ℕ) {r : ℤ} → Started (processes k) tmp (refused r k') → Kin k k'
kept-Kin k _ tmp (kept r k' e) =
    same_blocks (ap (λ (s : Processes). s.pcb) e) (λ t. ap (λ (s : Processes). s.running t) e)
      (ap (λ (s : Processes). s.counter) e) (ap (λ (s : Processes). s.term) e)
      (ap (λ (s : Processes). s.pointer) e)

pub Work-Kin : {k k' : Kernel} → Work k k' → Kin k k'
Work-Kin (key k beyond inb) = keyboard_interrupt_handler-Kin beyond k inb
Work-Kin (clock k) = untouched refl refl refl refl refl
Work-Kin (stores k m) = untouched refl refl refl refl refl
Work-Kin (opens {k} dentry filename e) = at_return _ (sys_open-Keeps k dentry filename) e
Work-Kin (closes {k} fd e) = at_return _ (sys_close-Keeps k fd) e
Work-Kin (reads {k} o fd buf nbytes h e) = at_return _ (sys_read-Keeps k o fd buf nbytes h) e
Work-Kin (writes {k} fd buf nbytes e) = at_return _ (sys_write-Keeps k fd buf nbytes) e
Work-Kin (refused_command {k} {k'} {r} a ebp esp command e) =
    kept-Kin k k' a.tmp_cmd {r = r} (rw (← e) (sys_execute-Started a ebp esp k command))
Work-Kin (gets_arguments k buf nbytes) = sys_getargs-Kin k buf nbytes
Work-Kin (maps_video k a start) = sys_vidmap-Kin k a start
