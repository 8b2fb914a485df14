-- ===== src/Scheduler/Turns.antt =====
-- The scheduler as a queue of processes: student-distrib/scheduling.c over any number of interrupts, with
-- what the processes and the other devices do between them.
use unix_operation_system.Prelude.{ℕ, ◌≡◌, ◌≢◌, refl, ap, ap₂, ◌∙◌, arith, List, [], ◌∷◌, ◌++◌}
use unix_operation_system.State.{Kernel}
use unix_operation_system.Process.{sys_halt}
use unix_operation_system.Process.Execute.{Locals, started, sys_execute}
use unix_operation_system.Process.Halt.{EndsIn, Left}
use unix_operation_system.Process.Kin.{Kin, identity, Identity}
use unix_operation_system.Idt.{exception_function}
use unix_operation_system.Scheduler.{Registers, Frame, context, switched, pit_interrupt_handler}
use unix_operation_system.Scheduler.Switching.{Ready, running, after, waiting, after-other}
use unix_operation_system.Scheduler.Interrupts.{turn-Switched}
use unix_operation_system.Scheduler.Starting.{sys_execute-work}
use unix_operation_system.Scheduler.Works.{Work, Work-Kin}
use unix_operation_system.Scheduler.Reach.{
  Reach, timer, starts, ends, raises, works, Reach-Ready, halt-Left, exception-Left,
}

-- The machine goes from one state to another by interrupts of the timer and by what happens between them.
-- `left` are the registers of the process that runs when an interrupt of the timer comes, `resumed` those
-- that are loaded.
pub data Turns (f : Frame) : Kernel → List Registers → List Registers → Kernel → Type 0 where
  rest : {k : Kernel} → Turns f k [] [] k
  turn :
      {k k' k'' : Kernel} {r r' : Registers} {left resumed : List Registers}
      → pit_interrupt_handler f k r ≡ switched r' k'
      → Turns f k' left resumed k''
      → Turns f k (r ∷ left) (r' ∷ resumed) k''
  work :
      {k k' k'' : Kernel} {left resumed : List Registers}
      → Work k k'
      → Turns f k' left resumed k''
      → Turns f k left resumed k''
  start :
      {k k' k'' : Kernel} {left resumed : List Registers} (a : Locals) (ebp esp command eip : ℕ)
      → sys_execute a ebp esp k command ≡ started eip k'
      → Turns f k' left resumed k''
      → Turns f k left resumed k''
  -- a process that is not the shell of its terminal ends, or raises an exception
  halt :
      {k k' k'' : Kernel} {left resumed : List Registers} (status : ℕ)
      → running k k.running_term ≢ k.running_term
      → EndsIn k' (sys_halt k status)
      → Turns f k' left resumed k''
      → Turns f k left resumed k''
  exception :
      {k k' k'' : Kernel} {left resumed : List Registers} (n : ℕ)
      → running k k.running_term ≢ k.running_term
      → EndsIn k' (exception_function n k)
      → Turns f k' left resumed k''
      → Turns f k left resumed k''

-- The saved registers are part of what makes a process.
abbrev registers_of : Identity → Registers
registers_of i = record { ebp = i.current_ebp; esp = i.current_esp }

waits :
    (k k' : Kernel) (t : ℕ)
    → running k' t ≡ running k t
    → ((p : ℕ) → identity (k'.pcb p) ≡ identity (k.pcb p))
    → context (k'.pcb (running k' t)) ≡ context (k.pcb (running k t))
waits k k' t same blocks = rw same (ap registers_of (blocks (running k t)))

Kin-waiting : (k k' : Kernel) → Kin k k' → waiting k' ≡ waiting k
Kin-waiting k k' kin =
    let t = after k.running_term in
    rw kin.term (
      ap₂ (λ x y. x ∷ y ∷ []) (waits k k' t (kin.running t) kin.blocks)
        (waits k k' (after t) (kin.running (after t)) kin.blocks))

Left-waiting : (k k' : Kernel) → Ready k → Left k k' → waiting k' ≡ waiting k
Left-waiting k k' v l =
    let t = after k.running_term in
    let o = after-other k.running_term v.low v.high in
    let first : running k' t ≡ running k t = l.running t ∙ ground (arith, o.0) in
    let second : running k' (after t) ≡ running k (after t) =
      l.running (after t) ∙ ground (arith, o.1) in
    rw l.term
      (ap₂ (λ x y. x ∷ y ∷ []) (waits k k' t first l.blocks) (waits k k' (after t) second l.blocks))

-- From a state that is reached from the start of the three shells, by any sequence of interrupts of the
-- timer, the keyboard and the clock, of starts and ends of processes, of exceptions, and of calls and
-- stores, the processes that wait are a queue: the registers that the timer loads and those that wait at the
-- end are those that waited at the start and those that the timer saved, in this order. What ends is not
-- the shell of its terminal.
pub Turns-queue :
    (f : Frame) {k k' : Kernel} {left resumed : List Registers}
    → Reach f k
    → Turns f k left resumed k'
    → (resumed ++ waiting k' ≡ waiting k ++ left) × Ready k'
Turns-queue f {k} reached rest = (refl, Reach-Ready f k reached)
Turns-queue f reached (turn {k} {k'} {k''} {r} {r'} {left} e more) =
    let s = turn-Switched f k k' r r' (Reach-Ready f k reached) e in
    let later = Turns-queue f (timer r r' reached e) more in
    (ap (λ w. r' ∷ w) later.0 ∙ ap (λ w. w ++ left) s.queue, later.1)
Turns-queue f reached (work {k} {k'} {k''} {left} w more) =
    let later = Turns-queue f (works reached w) more in
    (later.0 ∙ ap (λ w. w ++ left) (Kin-waiting k k' (Work-Kin w)), later.1)
Turns-queue f reached (start {k} {k'} {k''} {left} a ebp esp command eip e more) =
    let later = Turns-queue f (starts a ebp esp command eip reached e) more in
    let same = sys_execute-work a ebp esp k k' command eip (Reach-Ready f k reached) e in
    (later.0 ∙ ap (λ w. w ++ left) same.1, later.1)
Turns-queue f reached (halt {k} {k'} {k''} {left} status not_shell e more) =
    let later = Turns-queue f (ends status reached not_shell e) more in
    let gone = halt-Left f k k' status reached not_shell e in
    (later.0 ∙ ap (λ w. w ++ left) (Left-waiting k k' (Reach-Ready f k reached) gone), later.1)
Turns-queue f reached (exception {k} {k'} {k''} {left} n not_shell e more) =
    let later = Turns-queue f (raises n reached not_shell e) more in
    let gone = exception-Left f k k' n reached not_shell e in
    (later.0 ∙ ap (λ w. w ++ left) (Left-waiting k k' (Reach-Ready f k reached) gone), later.1)
