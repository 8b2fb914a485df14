-- ===== src/Scheduler/Boot.antt =====
-- The first shells: the first half of scheduler in student-distrib/scheduling.c.
use unix_operation_system.Prelude.{
  ℕ, ◌+◌, ◌-◌, ◌≤◌, ◌<◌, ◌≡◌, ◌≢◌, sym, ap, ◌∙◌, arith, true, ◌==◌, if◌then◌else◌, update,
  Bool-cases, inl, inr, ltb,
}
use unix_operation_system.State.{Kernel, Pcb}
use unix_operation_system.Syscall.Table.{IsValid}
use unix_operation_system.Process.Execute.{
  Executed, started, refused, endless, overran, sys_execute,
}
use unix_operation_system.Process.Start.{processes, Entered}
use unix_operation_system.Scheduler.{
  Registers, Frame, executed, shell_missing, next_term, save_context, scheduler, pit_begin, pit_end,
  pit_interrupt_handler,
}
use unix_operation_system.Scheduler.Switching.{Ready, running}
use unix_operation_system.Scheduler.Starting.{least-NewSlot, executed-Entered}

-- `n` shells are started, each on its own terminal and in its own slot, with a valid table of
-- descriptors, and all other slots are free.
pub record Booting (n : ℕ) (k : Kernel) : Type 0 where
  pub term : k.running_term ≡ n
  pub used : (i : ℕ) → i < n → k.pcb_counter i ≢ 0
  pub free : (i : ℕ) → n ≤ i → i < 6 → k.pcb_counter i ≡ 0
  pub own : (t : ℕ) → 1 ≤ t → t ≤ n → running k t ≡ t
  pub current : 1 ≤ n → k.current_pcb_pointer ≡ n
  pub number : (t : ℕ) → 1 ≤ t → t ≤ n → (k.pcb t).pid ≡ t
  pub tables : (t : ℕ) → 1 ≤ t → t ≤ n → IsValid (k.pcb t).fd_entry

-- The interrupt went to a program that sys_execute has started.
pit_end-started :
    (x : Executed) {eip : ℕ} {k' : Kernel}
    → pit_end (executed x) ≡ executed (started eip k')
    → x ≡ started eip k'
unfolding pit_end
pit_end-started (refused r k) e = absurd cc
pit_end-started (started eip k) e = cc
pit_end-started endless e = absurd cc
pit_end-started overran e = absurd cc

-- The state in which the timer's interrupt calls sys_execute
calling : Kernel → Registers → Kernel
calling k r = save_context (next_term (pit_begin k)) r

calling-pid : (k : Kernel) (r : Registers) (p : ℕ) → ((calling k r).pcb p).pid ≡ (k.pcb p).pid
unfolding calling save_context pit_begin
calling-pid k r p = ground arith

calling-fd_entry :
    (k : Kernel) (r : Registers) (p : ℕ) → ((calling k r).pcb p).fd_entry ≡ (k.pcb p).fd_entry
unfolding calling save_context pit_begin
calling-fd_entry k r p = ground arith

interrupt-started :
    (f : Frame) (k k' : Kernel) (r : Registers) (eip : ℕ)
    → shell_missing k ≡ true
    → pit_interrupt_handler f k r ≡ executed (started eip k')
    → (pid : ℕ) × Entered (processes (calling k r)) pid k'
unfolding pit_interrupt_handler scheduler calling
interrupt-started f k k' r eip missing e =
    executed-Entered f.locals f.execute.ebp f.execute.esp (calling k r) k' f.shell eip (
      pit_end-started (sys_execute f.locals f.execute.ebp f.execute.esp (calling k r) f.shell)
        {eip = eip} {k' = k'} (rw missing at e))

missing : (n : ℕ) (k : Kernel) → n < 3 → Booting n k → shell_missing k ≡ true
missing n k lt b = ground (arith, b.free n (omega arith) (omega arith))

-- At start, an interrupt of the timer that goes to a program has started one shell more, on the next
-- terminal and in the next slot; with the third the three shells run.
pub start-Booting :
    (f : Frame) (n : ℕ) (k k' : Kernel) (r : Registers) (eip : ℕ)
    → n < 3
    → Booting n k
    → pit_interrupt_handler f k r ≡ executed (started eip k')
    → Booting (n + 1) k'
unfolding calling save_context pit_begin
start-Booting f n k k' r eip lt b e =
    let (pid, new) = interrupt-started f k k' r eip (missing n k lt b) e in
    let slot = least-NewSlot (processes (calling k r)) pid new.some_slot new.slot in
    let is : pid ≡ n + 1 = elim (Bool-cases (ltb (pid - 1) n)) [
      | inl below ↦ absurd (b.used (pid - 1) (ground (arith, below)) slot.free)
      | inr not_below ↦ elim (Bool-cases (ltb n (pid - 1))) [
        | inl above ↦
            absurd (slot.before n (ground (arith, above)) (b.free n (omega arith) (omega arith)))
        | inr not_above ↦ ground (arith, not_below, not_above, slot.some_slot)
      ]
    ] in
    let term : k'.running_term ≡ n + 1 = new.term ∙ ground (arith, b.term) in
    let counter : (i : ℕ) → k'.pcb_counter i ≡ update k.pcb_counter n 1 i =
      λ i. rw (new.counter, is) (ground arith) in
    let own : (t : ℕ) → running k' t ≡ (if t == n + 1 then n + 1 else running k t) =
      λ t. new.running t ∙ rw (is, b.term) (ground (arith, lt)) in
    record {
      term = term;
      used = λ i h. rw (counter i) (ground (arith, h, b.used i));
      free = λ i lo hi. rw (counter i) (ground (arith, lo, b.free i (omega arith) hi));
      own = λ t lo hi. own t ∙ ground (arith, lo, hi, b.own t lo);
      current = λ h. new.pointer ∙ is;
      number = λ t lo hi. elim (Bool-cases (t == n + 1)) [
        | inl here ↦
            let at : k'.current_pcb_pointer ≡ t = new.pointer ∙ is ∙ ground (arith, here) in
            ap (λ (q : ℕ). (k'.pcb q).pid) (sym at) ∙ new.number ∙ is ∙ ground (arith, here)
        | inr there ↦
            let ne : t ≢ pid = ground (arith, is, there) in
            let same = ap (λ (b : Pcb). b.pid) (new.others t ne) in
            same ∙ calling-pid k r t ∙ b.number t lo (ground (arith, hi, there))
      ];
      tables = λ t lo hi. elim (Bool-cases (t == n + 1)) [
        | inl here ↦
            let at : k'.current_pcb_pointer ≡ t = new.pointer ∙ is ∙ ground (arith, here) in
            rw at at new.valid
        | inr there ↦
            let ne : t ≢ pid = ground (arith, is, there) in
            let same = ap (λ (b : Pcb). b.fd_entry) (new.others t ne) ∙ calling-fd_entry k r t in
            rw same (b.tables t lo (ground (arith, hi, there)))
      ];
    }

-- With three shells started, the machine is ready for switches.
pub Booting-Ready : (k : Kernel) → Booting 3 k → Ready k
Booting-Ready k b = record {
  low = ground (arith, b.term);
  high = ground (arith, b.term);
  shells = ground (arith, b.used 0 (omega arith), b.used 1 (omega arith), b.used 2 (omega arith));
  current = b.current (omega arith) ∙ rw b.term (sym (b.own 3 (omega arith) (omega arith)));
  distinct = λ t t' lo hi lo' hi' ne same. ne (sym (b.own t lo hi) ∙ same ∙ b.own t' lo' hi');
  occupied = λ t lo hi. rw (b.own t lo hi) (lo, b.used (t - 1) (omega arith));
}
