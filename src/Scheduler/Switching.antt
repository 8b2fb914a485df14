-- ===== src/Scheduler/Switching.antt =====
-- The processes that wait, and what a switch does with them: student-distrib/scheduling.c.
use unix_operation_system.Prelude.{
  ℕ, ◌+◌, ◌-◌, ◌%◌, ◌≤◌, ◌≡◌, ◌≢◌, refl, sym, ◌∙◌, arith, true, false, ◌==◌, List, [], ◌∷◌, ◌++◌,
  ne→==, eq→==,
}
use unix_operation_system.Paging.{Placement}
use unix_operation_system.State.{Kernel}
use unix_operation_system.Scheduler.{
  Registers, Frame, context, switch_state, switched, shell_missing, next_term, save_context,
  map_next, switch_process, scheduler, pit_begin, pit_end, pit_interrupt_handler,
}

abbrev pub after : ℕ → ℕ
after t = t % 3 + 1

abbrev pub running : Kernel → ℕ → ℕ
running k t = (k.terminal t).running_pcb

-- The three shells run: the current process is that of the running terminal, the terminals have
-- different processes, and their slots are in use.
pub record Ready (k : Kernel) : Type 0 where
  pub low : 1 ≤ k.running_term
  pub high : k.running_term ≤ 3
  pub shells : shell_missing k ≡ false
  pub current : k.current_pcb_pointer ≡ running k k.running_term
  pub distinct : (t t' : ℕ) → 1 ≤ t → t ≤ 3 → 1 ≤ t' → t' ≤ 3 → t ≢ t' → running k t ≢ running k t'
  pub occupied : (t : ℕ) → 1 ≤ t → t ≤ 3 → (1 ≤ running k t) × (k.pcb_counter (running k t - 1) ≢ 0)

-- The registers of the two terminals that wait, the next one first
abbrev pub waiting : Kernel → List Registers
waiting k =
    let t = after k.running_term in
    context (k.pcb (running k t)) ∷ context (k.pcb (running k (after t))) ∷ []

-- The registers of the terminals from `t` on, twice round, which wait or run
-- A switch to the next terminal: its process goes on with its registers, and the process that was
-- left waits behind the third.
pub record Switched (k : Kernel) (r r' : Registers) (k' : Kernel) : Type 0 where
  pub ready : Ready k'
  pub term : k'.running_term ≡ after k.running_term
  pub queue : r' ∷ waiting k' ≡ waiting k ++ (r ∷ [])

pub after-other : (t : ℕ) → 1 ≤ t → t ≤ 3 → (after t ≢ t) × (after (after t) ≢ t)
after-other t lo hi = (λ e. absurd (omega arith), λ e. absurd (omega arith))

after_thrice : (t : ℕ) → 1 ≤ t → t ≤ 3 → after (after (after t)) ≡ t
after_thrice t lo hi = omega arith

-- The process of another terminal is not the current one.
elsewhere :
    (k : Kernel) (t : ℕ)
    → Ready k
    → 1 ≤ t
    → t ≤ 3
    → t ≢ k.running_term
    → (running k t == k.current_pcb_pointer) ≡ false
elsewhere k t v lo hi ne =
    ne→== (running k t) k.current_pcb_pointer
      (λ e. v.distinct t k.running_term lo hi v.low v.high ne (e ∙ v.current))

switch_state-Ready :
    (a : Placement) (k : Kernel) (r : Registers) → Ready k → Ready (switch_state a (next_term k) r)
unfolding switch_state map_next save_context
switch_state-Ready a k r v = record {
  low = omega arith;
  high = omega arith;
  shells = v.shells;
  current = refl;
  distinct = v.distinct;
  occupied = v.occupied;
}

switch_state-queue :
    (a : Placement) (k : Kernel) (r : Registers)
    → Ready k
    → let k' = switch_state a (next_term k) r in
      context (k'.pcb k'.current_pcb_pointer) ∷ waiting k' ≡ waiting k ++ (r ∷ [])
unfolding switch_state map_next save_context
switch_state-queue a k r v =
    let t = k.running_term in
    let o = after-other t v.low v.high in
    let first = elsewhere k (after t) v (omega arith) (omega arith) o.0 in
    let second = elsewhere k (after (after t)) v (omega arith) (omega arith) o.1 in
    let third = eq→== (running k t) k.current_pcb_pointer (sym v.current) in
    rw (first, second, after_thrice t v.low v.high, third) refl

switch_state-term :
    (a : Placement) (k : Kernel) (r : Registers)
    → (switch_state a (next_term k) r).running_term ≡ after k.running_term
unfolding switch_state map_next save_context
switch_state-term a k r = refl

switch_state-Switched :
    (a : Placement) (k : Kernel) (r : Registers)
    → Ready k
    → let k' = switch_state a (next_term k) r in
      Switched k r (context (k'.pcb k'.current_pcb_pointer)) k'
switch_state-Switched a k r v = record {
  ready = switch_state-Ready a k r v;
  term = switch_state-term a k r;
  queue = switch_state-queue a k r v;
}

-- Neither what the handler does before a switch nor what it does after it disturbs the processes.
pit_begin-Ready : (k : Kernel) → Ready k → Ready (pit_begin k)
unfolding pit_begin
pit_begin-Ready k v = record {
  low = v.low;
  high = v.high;
  shells = v.shells;
  current = v.current;
  distinct = v.distinct;
  occupied = v.occupied;
}

with_interrupts : Kernel → Kernel
with_interrupts k = record k { interrupts_on = true }

interrupts_on-Switched :
    (k : Kernel) (r r' : Registers) (k' : Kernel)
    → Switched (pit_begin k) r r' k'
    → Switched k r r' (with_interrupts k')
unfolding pit_begin with_interrupts
interrupts_on-Switched k r r' k' s = record {
  ready = record {
    low = s.ready.low;
    high = s.ready.high;
    shells = s.ready.shells;
    current = s.ready.current;
    distinct = s.ready.distinct;
    occupied = s.ready.occupied;
  };
  term = s.term;
  queue = s.queue;
}

-- While the three shells run, an interrupt of the timer always switches to the next terminal: its
-- process goes on with the registers with which it was left, the process that was interrupted waits
-- behind the third with its own registers, interrupts are on, and the machine is as ready as before.
pub pit_interrupt_handler-Switched :
    (f : Frame) (k : Kernel) (r : Registers)
    → Ready k
    → (r' : Registers) × (k' : Kernel) × (pit_interrupt_handler f k r ≡ switched r' k')
      × Switched k r r' k'
      × (k'.interrupts_on ≡ true)
unfolding pit_interrupt_handler scheduler switch_process pit_end with_interrupts
pit_interrupt_handler-Switched f k r v =
    let k' = switch_state f.placement (next_term (pit_begin k)) r in
    let ready = pit_begin-Ready k v in
    (
      context (k'.pcb k'.current_pcb_pointer),
      with_interrupts k',
      rw ready.shells refl,
      interrupts_on-Switched k r _ k' (switch_state-Switched f.placement (pit_begin k) r ready),
      refl,
    )
