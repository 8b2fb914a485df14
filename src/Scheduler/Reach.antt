-- ===== src/Scheduler/Reach.antt =====
-- The states that the kernel reaches once the three shells run, by the interrupts of its devices and by
-- what the processes do, in any order.
mod Tests
use unix_operation_system.Prelude.{
  ℕ, ◌+◌, ◌-◌, ◌%◌, ◌≤◌, ◌<◌, ◌≡◌, ◌≢◌, refl, sym, ap, ◌∙◌, arith, true, false, ◌==◌, List, [], ◌∷◌,
}
use unix_operation_system.Paging.{Placement}
use unix_operation_system.State.{Kernel}
use unix_operation_system.Syscall.{current}
use unix_operation_system.Syscall.Table.{IsValid}
use unix_operation_system.Syscall.Safety.{Safe, calls-Safe}
use unix_operation_system.Process.{sys_halt}
use unix_operation_system.Process.Kin.{Kin, identity, same_tables}
use unix_operation_system.Process.Halt.{EndsIn, Left, EndsIn-unique, sys_halt-Left}
use unix_operation_system.Process.Execute.{Locals, started, sys_execute}
use unix_operation_system.Idt.{exception_function}
use unix_operation_system.Idt.Exceptions.{exception_function-Left}
use unix_operation_system.Scheduler.{
  Registers, Frame, Scheduled, switched, next_term, save_context, map_next, switch_state,
  switch_process, scheduler, pit_begin, pit_end, pit_interrupt_handler,
}
use unix_operation_system.Scheduler.Switching.{
  Ready, Switched, running, after, pit_interrupt_handler-Switched,
}
use unix_operation_system.Scheduler.Interrupts.{same_end, turn-Switched}
use unix_operation_system.Scheduler.Starting.{executed-Entered}
use unix_operation_system.Scheduler.Boot.{Booting}
use unix_operation_system.Scheduler.Stacks.{
  member, Chain, base, Alive, Stack, Family, SameProcess, top-member, Family-Ready, Family-same,
}
use unix_operation_system.Scheduler.Works.{Work, Work-Kin}
use unix_operation_system.Scheduler.Nesting.{pop, parent-IsValid, Family-push, Family-pop}

-- An interrupt that switches changes which process runs, and no process but for its registers.
record Turned (k k' : Kernel) : Type 0 where
  same : (p : ℕ) → SameProcess k k' p
  terminals : (t : ℕ) → running k' t ≡ running k t

switch_state-Turned :
    (a : Placement) (k : Kernel) (r : Registers)
    → Turned k (record (switch_state a (next_term (pit_begin k)) r) { interrupts_on = true })
unfolding switch_state map_next save_context pit_begin
switch_state-Turned a k r = record {
  same = λ p. record {
    parent = ground arith;
    pid = ground arith;
    slot = refl;
    table = λ v. same_tables k.pcb k.current_pcb_pointer _ (λ w. w) p v;
  };
  terminals = λ t. refl;
}

booted-Family : (k : Kernel) → Booting 3 k → Family k (λ t. t ∷ [])
booted-Family k b = record {
  low = ground (arith, b.term);
  high = ground (arith, b.term);
  current = b.current (omega arith) ∙ rw b.term (sym (b.own 3 (omega arith) (omega arith)));
  stack = λ t lo hi. record {
    below = [];
    top = rw (b.own t lo hi) refl;
    chain = base t;
    alive = λ p h.
        let is : p ≡ t = ground (arith, h) in
        rw is (record {
          some_slot = lo;
          slot = b.used (t - 1) (omega arith);
          number = b.number t lo hi;
          table = b.tables t lo hi;
        });
    different = refl;
    shell = ground arith;
  };
  apart = λ t t' p lo hi lo' hi' ne h. ground (arith, h, ne);
}

timer-Turned :
    (f : Frame) (k k' : Kernel) (r r' : Registers)
    → Ready k
    → pit_interrupt_handler f k r ≡ switched r' k'
    → Turned k k'
unfolding pit_interrupt_handler scheduler switch_process pit_end pit_begin
timer-Turned f k k' r r' v e =
    let k1 : Kernel = record (switch_state f.placement (next_term (pit_begin k)) r) {
      interrupts_on = true;
    } in
    let same : k1 ≡ k' = (same_end (rw v.shells at e)).1 in
    rw (← same) (switch_state-Turned f.placement k r)

-- The states that are reached from the start of the third shell
pub data Reach (f : Frame) : Kernel → Type 0 where
  booted : {k : Kernel} → Booting 3 k → Reach f k
  timer :
      {k k' : Kernel} (r r' : Registers)
      → Reach f k
      → pit_interrupt_handler f k r ≡ switched r' k'
      → Reach f k'
  starts :
      {k k' : Kernel} (a : Locals) (ebp esp command eip : ℕ)
      → Reach f k
      → sys_execute a ebp esp k command ≡ started eip k'
      → Reach f k'
  -- a process that is not the shell of its terminal ends
  ends :
      {k k' : Kernel} (status : ℕ)
      → Reach f k
      → running k k.running_term ≢ k.running_term
      → EndsIn k' (sys_halt k status)
      → Reach f k'
  -- such a process raises an exception
  raises :
      {k k' : Kernel} (n : ℕ)
      → Reach f k
      → running k k.running_term ≢ k.running_term
      → EndsIn k' (exception_function n k)
      → Reach f k'
  -- an interrupt of a device, or a store or call of the process that runs
  works : {k k' : Kernel} → Reach f k → Work k k' → Reach f k'

Kin-Family : (k k' : Kernel) (s : ℕ → List ℕ) → Kin k k' → Family k s → Family k' s
Kin-Family k k' s kin v =
    Family-same k k' s (rw kin.term v.low) (rw kin.term v.high)
      (kin.pointer ∙ v.current ∙ sym (rw kin.term (kin.running k.running_term))) kin.running
      (λ p. record {
        parent = ap (λ i. i.parent_pcb) (kin.blocks p);
        pid = ap (λ i. i.pid) (kin.blocks p);
        slot = ap (λ c. c (p - 1)) kin.counter;
        table = kin.tables p;
      })
      v

-- When the processes of the terminals are stacks and one that is not the shell of its terminal ends,
-- sys_halt ends in a state in which the stack of its terminal has lost its top and no other stack has
-- changed: the terminal runs the process that had started it.
pub sys_halt-pop :
    (k : Kernel) (status : ℕ) (s : ℕ → List ℕ)
    → Family k s
    → running k k.running_term ≢ k.running_term
    → (end : Kernel) × EndsIn end (sys_halt k status) × Family end (pop k.running_term s)
sys_halt-pop k status s v not_shell =
    let (end, (ends_in, left)) = sys_halt-Left k status (parent-IsValid k s v not_shell) in
    (end, ends_in, Family-pop s v left not_shell)

-- The process that runs has a valid table.
current-IsValid : (k : Kernel) (s : ℕ → List ℕ) → Family k s → IsValid (current k).fd_entry
current-IsValid k s v =
    let t = k.running_term in
    let top = v.stack t v.low v.high in
    rw v.current (top.alive (running k t) (top-member k t (s t) top)).table

-- In every state that is reached, by any sequence of interrupts of the timer, the keyboard and the
-- clock, of starts and ends of processes, of exceptions, and of calls and stores, the processes of each
-- terminal are a stack in which each was started by the one below it, no process is in two places, and
-- all have slots in use and valid tables of descriptors; so the timer switches, and no call on
-- descriptors calls a NULL operation. What ends is not the shell of its terminal.
pub Reach-Family :
    (f : Frame) (k : Kernel) → Reach f k → (s : ℕ → List ℕ) × Family k s × Ready k × Safe k
Reach-Family f k reached =
    let (s, v) = go k reached in (s, v, Family-Ready k s v, calls-Safe k (current-IsValid k s v))
  where
    go : (k : Kernel) → Reach f k → (s : ℕ → List ℕ) × Family k s
    go k (booted b) = (λ t. t ∷ [], booted-Family k b)
    go _ (timer {k} {k'} r r' before e) =
        let (s, v) = go k before in
        let ready = Family-Ready k s v in
        let sw = turn-Switched f k k' r r' ready e in
        let t = timer-Turned f k k' r r' ready e in
        (s, Family-same k k' s sw.ready.low sw.ready.high sw.ready.current t.terminals t.same v)
    go _ (starts {k} {k'} a ebp esp command eip before e) =
        let (s, v) = go k before in
        let n = executed-Entered a ebp esp k k' command eip e in (_, Family-push s v n.1)
    go _ (ends {k} {k'} status before not_shell e) =
        let (s, v) = go k before in
        let h = sys_halt-pop k status s v not_shell in
        (pop k.running_term s, rw (EndsIn-unique e h.1) h.2)
    go _ (raises {k} {k'} n before not_shell e) =
        let (s, v) = go k before in
        let (end, (ends_in, left, told, later)) =
          exception_function-Left k n (parent-IsValid k s v not_shell) in
        (pop k.running_term s, rw (EndsIn-unique e ends_in) (Family-pop s v left not_shell))
    go _ (works {k} {k'} before work) =
        let (s, v) = go k before in (s, Kin-Family k k' s (Work-Kin work) v)

pub Reach-Ready : (f : Frame) (k : Kernel) → Reach f k → Ready k
Reach-Ready f k reached = (Reach-Family f k reached).2

-- What a process leaves that ends in a state that is reached
pub halt-Left :
    (f : Frame) (k k' : Kernel) (status : ℕ)
    → Reach f k
    → running k k.running_term ≢ k.running_term
    → EndsIn k' (sys_halt k status)
    → Left k k'
halt-Left f k k' status reached not_shell e =
    let fam = Reach-Family f k reached in
    let (end, (ends_in, left)) = sys_halt-Left k status (parent-IsValid k fam.0 fam.1 not_shell) in
    rw (EndsIn-unique e ends_in) left

pub exception-Left :
    (f : Frame) (k k' : Kernel) (n : ℕ)
    → Reach f k
    → running k k.running_term ≢ k.running_term
    → EndsIn k' (exception_function n k)
    → Left k k'
exception-Left f k k' n reached not_shell e =
    let fam = Reach-Family f k reached in
    let (end, (ends_in, left, told, later)) =
      exception_function-Left k n (parent-IsValid k fam.0 fam.1 not_shell) in
    rw (EndsIn-unique e ends_in) left
