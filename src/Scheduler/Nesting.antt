-- ===== src/Scheduler/Nesting.antt =====
-- What sys_execute and sys_halt of student-distrib/syscall.c do to the stacks of processes.
use unix_operation_system.Prelude.{
  ℕ, ◌≤◌, ◌≡◌, ◌≢◌, refl, sym, ap, ◌∙◌, arith, true, false, ◌==◌, if◌then◌else◌, update, List, [],
  ◌∷◌, Bool-cases, inl, inr, eq→==,
}
use unix_operation_system.State.{Kernel, Pcb}
use unix_operation_system.Syscall.{current}
use unix_operation_system.Syscall.Table.{IsValid}
use unix_operation_system.Process.Start.{processes, Entered}
use unix_operation_system.Process.Halt.{Left}
use unix_operation_system.Scheduler.Switching.{running}
use unix_operation_system.Scheduler.Starting.{NewSlot, least-NewSlot}
use unix_operation_system.Scheduler.Stacks.{
  member, Chain-parent, Alive, Stack, Family, SameProcess, Stack-same, Stack-push, Stack-pop,
  top-member,
}

abbrev pub push : ℕ → ℕ → (ℕ → List ℕ) → ℕ → List ℕ
push t p s = update s t (p ∷ s t)

abbrev pub rest_of : List ℕ → List ℕ
rest_of [] = []
rest_of (p ∷ below) = below

abbrev pub pop : ℕ → (ℕ → List ℕ) → ℕ → List ℕ
pop t s = update s t (rest_of (s t))

push_at : (u p : ℕ) (s : ℕ → List ℕ) (t : ℕ) → push u p s t ≡ (if t == u then p ∷ s t else s t)
push_at u p s t = elim (Bool-cases (t == u)) [
  | inl e ↦ let is : u ≡ t = ground (arith, e) in rw (e, is) refl
  | inr e ↦ rw e refl
]

module _ {k k' : Kernel} {pid : ℕ} (s : ℕ → List ℕ) (v : Family k s)
    (e : Entered (processes k) pid k') where
  new_slot : NewSlot (processes k) pid
  new_slot = least-NewSlot (processes k) pid e.some_slot e.slot

  outside : (t : ℕ) → 1 ≤ t → t ≤ 3 → member pid (s t) ≡ false
  outside t lo hi = elim (Bool-cases (member pid (s t))) [
    | inl h ↦ absurd (((v.stack t lo hi).alive pid h).slot new_slot.free)
    | inr h ↦ h
  ]

  kept : (t p : ℕ) → 1 ≤ t → t ≤ 3 → member p (s t) ≡ true → SameProcess k k' p
  kept t p lo hi h =
      let a = (v.stack t lo hi).alive p h in
      let ne : p ≢ pid = λ q. absurd (ground (arith, h, outside t lo hi, q)) in
      let same = e.others p ne in
      record {
        parent = ap (λ (b : Pcb). b.parent_pcb) same;
        pid = ap (λ (b : Pcb). b.pid) same;
        slot = rw e.counter (ground (arith, ne, a.some_slot, new_slot.some_slot));
        table = λ w. rw same w;
      }

  born : Alive k' pid
  born = record {
    some_slot = new_slot.some_slot;
    slot = rw e.counter (ground arith);
    number = ap (λ (q : ℕ). (k'.pcb q).pid) (sym e.pointer) ∙ e.number;
    table = rw e.pointer at e.valid;
  }

  parent_of_new : (k'.pcb pid).parent_pcb ≡ running k k.running_term
  parent_of_new = ap (λ (q : ℕ). (k'.pcb q).parent_pcb) (sym e.pointer) ∙ e.parent ∙ v.current

  runs : running k' k.running_term ≡ pid
  runs = e.running k.running_term ∙ ground arith

  -- A process that is started is put on top of the stack of the terminal.
  pub Family-push : Family k' (push k.running_term pid s)
  Family-push = record {
    low = rw e.term v.low;
    high = rw e.term v.high;
    current = rw e.term (e.pointer ∙ sym runs);
    stack = λ t lo hi. elim (Bool-cases (t == k.running_term)) [
      | inl here ↦
          let is : k.running_term ≡ t = ground (arith, here) in
          rw (here, is)
            (Stack-push t pid (s t) (rw is at runs) (rw is at parent_of_new) born (outside t lo hi)
              (λ p h. kept t p lo hi h) (v.stack t lo hi))
      | inr off ↦
          let same : running k' t ≡ running k t = e.running t ∙ ground (arith, off) in
          rw off (Stack-same t (s t) same (λ p h. kept t p lo hi h) (v.stack t lo hi))
    ];
    apart = λ t t' p lo hi lo' hi' ne h.
        let at : push k.running_term pid s t ≡ (if t == k.running_term then pid ∷ s t else s t) =
          push_at k.running_term pid s t in
        let at' = push_at k.running_term pid s t' in
        let before = v.apart t t' p lo hi lo' hi' ne in
        rw at' (ground (arith, ne, before, outside t lo hi, outside t' lo' hi', (rw at at h)));
  }

pop_at : (u : ℕ) (s : ℕ → List ℕ) (t : ℕ) → pop u s t ≡ (if t == u then rest_of (s t) else s t)
pop_at u s t = elim (Bool-cases (t == u)) [
  | inl e ↦ let is : u ≡ t = ground (arith, e) in rw (e, is) refl
  | inr e ↦ rw e refl
]

member_rest : (p : ℕ) (xs : List ℕ) → member p (rest_of xs) ≡ true → member p xs ≡ true
member_rest p [] h = h
member_rest p (x ∷ xs) h = ground (arith, h)

member-pop :
    (u p : ℕ) (s : ℕ → List ℕ) (t : ℕ) → member p (pop u s t) ≡ true → member p (s t) ≡ true
member-pop u p s t h = ground (arith, member_rest p (s t), (rw (pop_at u s t) at h))

-- A stack whose top is not the shell of its terminal has a second process.
second :
    (k : Kernel) (t : ℕ) (s : List ℕ)
    → Stack k t s
    → running k t ≢ t
    → (q : ℕ) × (below : List ℕ) × (s ≡ running k t ∷ q ∷ below)
second k t s v ne = go v.below v.top
  where
    go :
        (below : List ℕ)
        → s ≡ running k t ∷ below
        → (q : ℕ) × (below' : List ℕ) × (s ≡ running k t ∷ q ∷ below')
    go [] e = absurd (ground (arith, ne, (rw e at v.shell)))
    go (q ∷ below) e = (q, below, e)

-- The parent of a process that is not the shell of its terminal has a valid table.
pub parent-IsValid :
    (k : Kernel) (s : ℕ → List ℕ)
    → Family k s
    → running k k.running_term ≢ k.running_term
    → IsValid (k.pcb (current k).parent_pcb).fd_entry
parent-IsValid k s v not_shell =
    let top = v.stack k.running_term v.low v.high in
    let (q, below, is) = second k k.running_term (s k.running_term) top not_shell in
    let two : Stack k k.running_term (running k k.running_term ∷ q ∷ below) = rw is at top in
    let parent : (current k).parent_pcb ≡ q = rw v.current (Chain-parent two.chain) in
    rw parent (two.alive q (ground arith)).table

module _ {k k' : Kernel} (s : ℕ → List ℕ) (v : Family k s) (l : Left k k')
    (not_shell : running k k.running_term ≢ k.running_term) where
  top : Stack k k.running_term (s k.running_term)
  top = v.stack k.running_term v.low v.high

  two : (q : ℕ) × (below : List ℕ) × (s k.running_term ≡ running k k.running_term ∷ q ∷ below)
  two = second k k.running_term (s k.running_term) top not_shell

  -- The process that ends, on top of its stack
  ending : Stack k k.running_term (running k k.running_term ∷ two.0 ∷ two.1)
  ending = rw two.2 at top

  ends-Alive : Alive k (running k k.running_term)
  ends-Alive = ending.alive (running k k.running_term) (ground arith)

  parent : (current k).parent_pcb ≡ two.0
  parent = rw v.current (Chain-parent ending.chain)

  number : (current k).pid ≡ running k k.running_term
  number = rw v.current ends-Alive.number

  stays : (p : ℕ) → 1 ≤ p → p ≢ running k k.running_term → SameProcess k k' p
  stays p some_slot ne = record {
    parent = ap (λ i. i.parent_pcb) (l.blocks p);
    pid = ap (λ i. i.pid) (l.blocks p);
    slot = rw (l.slot, number) (ground (arith, ne, some_slot, ends-Alive.some_slot));
    table = l.tables p (λ z. ne (z ∙ v.current));
  }

  runs_parent : running k' k.running_term ≡ two.0
  runs_parent = l.running k.running_term ∙ ground (arith, parent)

  -- When a process that is not the shell of its terminal ends, the stack loses its top.
  pub Family-pop : Family k' (pop k.running_term s)
  Family-pop = record {
    low = rw l.term v.low;
    high = rw l.term v.high;
    current = rw l.term (l.pointer ∙ parent ∙ sym runs_parent);
    stack = λ t lo hi. elim (Bool-cases (t == k.running_term)) [
      | inl here ↦
          let is : t ≡ k.running_term = ground (arith, here) in
          rw (is, eq→== k.running_term k.running_term refl, two.2)
            (Stack-pop k.running_term (running k k.running_term) two.0 two.1 not_shell runs_parent
              (λ r h.
                stays r ((ending.alive r (ground (arith, h))).some_slot)
                  (λ same. absurd (ground (arith, h, ending.different, same))))
              ending)
      | inr off ↦
          let same : running k' t ≡ running k t = l.running t ∙ ground (arith, off) in
          let other : t ≢ k.running_term = ground (arith, off) in
          let out =
            v.apart k.running_term t (running k k.running_term) v.low v.high lo hi
              (λ z. other (sym z)) (top-member k k.running_term (s k.running_term) top) in
          rw off (
            Stack-same t (s t) same
              (λ r h.
                stays r ((v.stack t lo hi).alive r h).some_slot
                  (λ z. absurd (ground (arith, h, out, z))))
              (v.stack t lo hi))
    ];
    apart = λ t t' p lo hi lo' hi' ne h.
        let out = v.apart t t' p lo hi lo' hi' ne (member-pop k.running_term p s t h) in
        elim (Bool-cases (member p (pop k.running_term s t'))) [
          | inl within ↦ absurd (ground (arith, out, member-pop k.running_term p s t' within))
          | inr without ↦ without
        ];
  }
