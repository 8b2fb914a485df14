-- ===== src/Scheduler/Starting.antt =====
-- A new process among those that wait: sys_execute of student-distrib/syscall.c, with
-- student-distrib/scheduling.c.
use unix_operation_system.Prelude.{
  ℕ, ◌-◌, ◌≤◌, ◌<◌, ◌≡◌, ◌≢◌, refl, sym, ap, ◌∙◌, arith, ◌==◌, [], ◌∷◌, Bool-cases, inl, inr, ap₂,
}
use unix_operation_system.State.{Kernel}
use unix_operation_system.Process.Execute.{Locals, started, sys_execute}
use unix_operation_system.Process.Slots.{LeastSlot, found, full}
use unix_operation_system.Process.Start.{
  Processes, processes, Entered, Started, made, sys_execute-Started,
}
use unix_operation_system.Scheduler.{context}
use unix_operation_system.Scheduler.Switching.{Ready, after, running, waiting, after-other}

-- The slot of a new process was free, and is now in use.
pub record NewSlot (s : Processes) (pid : ℕ) : Type 0 where
  pub some_slot : 1 ≤ pid
  pub few : pid ≤ 6
  pub free : s.counter (pid - 1) ≡ 0
  pub before : (i : ℕ) → i < pid - 1 → s.counter i ≢ 0

pub least-NewSlot : (s : Processes) (pid : ℕ) → pid ≢ 0 → LeastSlot s.counter 0 pid → NewSlot s pid
least-NewSlot s pid some_slot (found slot free lo hi before) = record {
  some_slot = omega arith;
  few = omega arith;
  free = ap s.counter (omega arith) ∙ free;
  before = λ i h. before i (omega arith) (omega arith);
}
least-NewSlot s pid some_slot (full all) = absurd (some_slot refl)

-- What started the program is a new process.
started-Entered :
    (s : Processes) (tmp : ℕ) {eip : ℕ} {k' : Kernel}
    → Started s tmp (started eip k')
    → (pid : ℕ) × Entered s pid k'
started-Entered s tmp (made eip pid k' e) = (pid, e)

pub executed-Entered :
    (a : Locals) (ebp esp : ℕ) (k k' : Kernel) (command eip : ℕ)
    → sys_execute a ebp esp k command ≡ started eip k'
    → (pid : ℕ) × Entered (processes k) pid k'
executed-Entered a ebp esp k k' command eip e =
    started-Entered (processes k) a.tmp_cmd {eip = eip} {k' = k'}
      (rw (← e) (sys_execute-Started a ebp esp k command))

Entered-elsewhere :
    (k k' : Kernel) (pid t : ℕ)
    → Ready k
    → Entered (processes k) pid k'
    → 1 ≤ t
    → t ≤ 3
    → t ≢ k.running_term
    → (running k' t ≡ running k t)
      × (running k t ≢ pid)
      × (context (k'.pcb (running k' t)) ≡ context (k.pcb (running k t)))
Entered-elsewhere k k' pid t v e lo hi ne =
    let slot = least-NewSlot (processes k) pid e.some_slot e.slot in
    let same : running k' t ≡ running k t = ground (arith, e.running t, ne) in
    let differ : running k t ≢ pid = λ h. (v.occupied t lo hi).1 (rw h slot.free) in
    (same, differ, rw same (ap context (e.others (running k t) differ)))

Entered-Ready : (k k' : Kernel) (pid : ℕ) → Ready k → Entered (processes k) pid k' → Ready k'
Entered-Ready k k' pid v e =
    let slot = least-NewSlot (processes k) pid e.some_slot e.slot in
    let here : running k' k.running_term ≡ pid = ground (arith, e.running k.running_term) in
    let others = λ (t : ℕ). Entered-elsewhere k k' pid t v e in
    record {
      low = rw e.term v.low;
      high = rw e.term v.high;
      shells = rw e.counter (ground (arith, v.shells));
      current = rw e.term (e.pointer ∙ sym here);
      distinct = λ t t' lo hi lo' hi' ne same. elim (Bool-cases (t == k.running_term)) [
        | inl at ↦
            let is : t ≡ k.running_term = ground (arith, at) in
            let o = others t' lo' hi' (λ q. ne (is ∙ sym q)) in
            o.1 (sym o.0 ∙ sym same ∙ ap (running k') is ∙ here)
        | inr off ↦
            let o = others t lo hi (ground (arith, off)) in
            elim (Bool-cases (t' == k.running_term)) [
              | inl at' ↦
                  let is : t' ≡ k.running_term = ground (arith, at') in
                  o.1 (sym o.0 ∙ same ∙ ap (running k') is ∙ here)
              | inr off' ↦
                  let o' = others t' lo' hi' (ground (arith, off')) in
                  v.distinct t t' lo hi lo' hi' ne (sym o.0 ∙ same ∙ o'.0)
            ]
      ];
      occupied = λ t lo hi. elim (Bool-cases (t == k.running_term)) [
        | inl at ↦
            let is : running k' t ≡ pid = ap (running k') (ground (arith, at)) ∙ here in
            rw (is, e.counter) (slot.some_slot, ground arith)
        | inr off ↦
            let o = others t lo hi (ground (arith, off)) in
            let was = v.occupied t lo hi in rw (o.0, e.counter) (was.0, ground (arith, was.1))
      ];
    }

-- While the three shells run, a process that starts another one on its terminal does not disturb the
-- processes of the other two, however sys_execute goes to the program: the new process is current and
-- that of the running terminal, in a slot of its own, and the other two wait with the same registers.
pub sys_execute-work :
    (a : Locals) (ebp esp : ℕ) (k k' : Kernel) (command eip : ℕ)
    → Ready k
    → sys_execute a ebp esp k command ≡ started eip k'
    → Ready k' × (waiting k' ≡ waiting k)
sys_execute-work a ebp esp k k' command eip v e =
    let n = executed-Entered a ebp esp k k' command eip e in
    let t = k.running_term in
    let o = after-other t v.low v.high in
    let first = Entered-elsewhere k k' n.0 (after t) v n.1 (omega arith) (omega arith) o.0 in
    let second =
      Entered-elsewhere k k' n.0 (after (after t)) v n.1 (omega arith) (omega arith) o.1 in
    (Entered-Ready k k' n.0 v n.1, rw n.1.term (ap₂ (λ x y. x ∷ y ∷ []) first.2 second.2))
