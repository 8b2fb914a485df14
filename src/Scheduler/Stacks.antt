-- ===== src/Scheduler/Stacks.antt =====
-- The processes of each terminal as a stack: a process runs on top of the one that started it.
use unix_operation_system.Prelude.{
  ℕ, ◌-◌, ◌≤◌, ◌≡◌, ◌≢◌, refl, sym, ◌∙◌, arith, Bool, true, false, ◌&&◌, ◌||◌, not, ◌==◌, List, [],
  ◌∷◌, Bool-cases, inl, inr,
}
use unix_operation_system.State.{Kernel}
use unix_operation_system.Syscall.Table.{IsValid}
use unix_operation_system.Scheduler.Switching.{Ready, running}

abbrev pub member : ℕ → List ℕ → Bool
member p [] = false
member p (x ∷ xs) = (p == x) || member p xs

abbrev pub all_different : List ℕ → Bool
all_different [] = true
all_different (x ∷ xs) = not (member x xs) && all_different xs

-- Each process was started by the one below it.
pub data Chain (k : Kernel) : List ℕ → Type 0 where
  base : (p : ℕ) → Chain k (p ∷ [])
  next :
      (p q : ℕ) (below : List ℕ)
      → (k.pcb p).parent_pcb ≡ q
      → Chain k (q ∷ below)
      → Chain k (p ∷ q ∷ below)

-- A process with a slot that is in use, its own number, and a valid table of descriptors
pub record Alive (k : Kernel) (p : ℕ) : Type 0 where
  pub some_slot : 1 ≤ p
  pub slot : k.pcb_counter (p - 1) ≢ 0
  pub number : (k.pcb p).pid ≡ p
  pub table : IsValid (k.pcb p).fd_entry

-- A terminal's stack: its process on top, the shell in the slot of the terminal somewhere in it.
pub record Stack (k : Kernel) (t : ℕ) (s : List ℕ) : Type 0 where
  pub below : List ℕ
  pub top : s ≡ running k t ∷ below
  pub chain : Chain k s
  pub alive : (p : ℕ) → member p s ≡ true → Alive k p
  pub different : all_different s ≡ true
  pub shell : member t s ≡ true

pub record Family (k : Kernel) (s : ℕ → List ℕ) : Type 0 where
  pub low : 1 ≤ k.running_term
  pub high : k.running_term ≤ 3
  pub current : k.current_pcb_pointer ≡ running k k.running_term
  pub stack : (t : ℕ) → 1 ≤ t → t ≤ 3 → Stack k t (s t)
  pub apart :
      (t t' p : ℕ)
      → 1 ≤ t
      → t ≤ 3
      → 1 ≤ t'
      → t' ≤ 3
      → t ≢ t'
      → member p (s t) ≡ true
      → member p (s t') ≡ false

pub top-member : (k : Kernel) (t : ℕ) (s : List ℕ) → Stack k t s → member (running k t) s ≡ true
top-member k t s v = rw v.top (ground arith)

-- The shells keep their slots, so that the timer switches.
pub Family-Ready : (k : Kernel) (s : ℕ → List ℕ) → Family k s → Ready k
Family-Ready k s v =
    let used =
      λ (t : ℕ) (lo : 1 ≤ t) (hi : t ≤ 3). let w = v.stack t lo hi in (w.alive t w.shell).slot in
    record {
      low = v.low;
      high = v.high;
      shells = ground (
        arith,
        used 1 (omega arith) (omega arith),
        used 2 (omega arith) (omega arith),
        used 3 (omega arith) (omega arith),
      );
      current = v.current;
      distinct = λ t t' lo hi lo' hi' ne e.
          let here = top-member k t (s t) (v.stack t lo hi) in
          let there = top-member k t' (s t') (v.stack t' lo' hi') in
          let out = v.apart t t' (running k t) lo hi lo' hi' ne here in
          absurd (ground (arith, e, there, out));
      occupied = λ t lo hi.
          let w = v.stack t lo hi in
          let a = w.alive (running k t) (top-member k t (s t) w) in (a.some_slot, a.slot);
    }

-- A process is as it was, and a valid table of descriptors stays valid.
pub record SameProcess (k k' : Kernel) (p : ℕ) : Type 0 where
  pub parent : (k'.pcb p).parent_pcb ≡ (k.pcb p).parent_pcb
  pub pid : (k'.pcb p).pid ≡ (k.pcb p).pid
  pub slot : k'.pcb_counter (p - 1) ≡ k.pcb_counter (p - 1)
  pub table : IsValid (k.pcb p).fd_entry → IsValid (k'.pcb p).fd_entry

Chain-same :
    {k k' : Kernel} {s : List ℕ}
    → ((p : ℕ) → member p s ≡ true → SameProcess k k' p)
    → Chain k s
    → Chain k' s
Chain-same same (base p) = base p
Chain-same same (next p q below e c) =
    next p q below ((same p (ground arith)).parent ∙ e)
      (Chain-same (λ r h. same r (ground (arith, h))) c)

-- The chain without its top, and what the top was started by
Chain-tail : {k : Kernel} {p q : ℕ} {below : List ℕ} → Chain k (p ∷ q ∷ below) → Chain k (q ∷ below)
Chain-tail (next p q below e c) = c

pub Chain-parent :
    {k : Kernel} {p q : ℕ} {below : List ℕ} → Chain k (p ∷ q ∷ below) → (k.pcb p).parent_pcb ≡ q
Chain-parent (next p q below e c) = e

Alive-same : {k k' : Kernel} (p : ℕ) → SameProcess k k' p → Alive k p → Alive k' p
Alive-same p same a = record {
  some_slot = a.some_slot;
  slot = λ z. a.slot (sym same.slot ∙ z);
  number = same.pid ∙ a.number;
  table = same.table a.table;
}

-- A terminal whose processes are as they were keeps its stack.
pub Stack-same :
    {k k' : Kernel} (t : ℕ) (s : List ℕ)
    → running k' t ≡ running k t
    → ((p : ℕ) → member p s ≡ true → SameProcess k k' p)
    → Stack k t s
    → Stack k' t s
Stack-same t s e same v = record {
  below = v.below;
  top = rw e v.top;
  chain = Chain-same same v.chain;
  alive = λ p h. Alive-same p (same p h) (v.alive p h);
  different = v.different;
  shell = v.shell;
}

-- Nothing happens to the stacks when processes and terminals are as they were.
pub Family-same :
    (k k' : Kernel) (s : ℕ → List ℕ)
    → 1 ≤ k'.running_term
    → k'.running_term ≤ 3
    → k'.current_pcb_pointer ≡ running k' k'.running_term
    → ((t : ℕ) → running k' t ≡ running k t)
    → ((p : ℕ) → SameProcess k k' p)
    → Family k s
    → Family k' s
Family-same k k' s low high current terminals same v = record {
  low = low;
  high = high;
  current = current;
  stack = λ t lo hi. Stack-same t (s t) (terminals t) (λ p h. same p) (v.stack t lo hi);
  apart = v.apart;
}

-- A process that is in no stack is put on top of the one of a terminal.
pub Stack-push :
    {k k' : Kernel} (t pid : ℕ) (s : List ℕ)
    → running k' t ≡ pid
    → (k'.pcb pid).parent_pcb ≡ running k t
    → Alive k' pid
    → member pid s ≡ false
    → ((p : ℕ) → member p s ≡ true → SameProcess k k' p)
    → Stack k t s
    → Stack k' t (pid ∷ s)
Stack-push {k} {k'} t pid s e parent alive out same v = record {
  below = s;
  top = rw e refl;
  chain = rw v.top (next pid (running k t) v.below parent (rw v.top at (Chain-same same v.chain)));
  alive = λ p h. elim (Bool-cases (p == pid)) [
    | inl here ↦ let is : pid ≡ p = ground (arith, here) in rw (← is) alive
    | inr there ↦
        let h' : member p s ≡ true = ground (arith, there, h) in
        Alive-same p (same p h') (v.alive p h')
  ];
  different = ground (arith, out, v.different);
  shell = ground (arith, v.shell);
}

-- The process on top ends, which is not the shell of the terminal.
pub Stack-pop :
    {k k' : Kernel} (t p q : ℕ) (below : List ℕ)
    → p ≢ t
    → running k' t ≡ q
    → ((r : ℕ) → member r (q ∷ below) ≡ true → SameProcess k k' r)
    → Stack k t (p ∷ q ∷ below)
    → Stack k' t (q ∷ below)
Stack-pop t p q below ne e same v = record {
  below = below;
  top = rw e refl;
  chain = Chain-same same (Chain-tail v.chain);
  alive = λ r h. Alive-same r (same r h) (v.alive r (ground (arith, h)));
  different = ground (arith, v.different);
  shell = ground (arith, v.shell, ne);
}
