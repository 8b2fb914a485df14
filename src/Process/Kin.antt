-- ===== src/Process/Kin.antt =====
-- What most calls of student-distrib/syscall.c keep of the processes: who they are, whose children, where
-- they were interrupted, which slots are used and which terminal runs what.
use unix_operation_system.Prelude.{
  ℕ, ◌≡◌, ◌≢◌, ap, ◌==◌, refl, ◌∙◌, arith, update, Bool-cases, inl, inr,
}
use unix_operation_system.State.{Kernel, Pcb, FdEntry, Terminal}
use unix_operation_system.Syscall.{with_entry, current}
use unix_operation_system.Syscall.Table.{IsValid, is_device}
use unix_operation_system.Process.{drop_flag}

-- The number of a process, its parent and the registers with which the scheduler left it
pub record Identity : Type 0 where
  pub pid : ℕ
  pub parent_pcb : ℕ
  pub current_ebp : ℕ
  pub current_esp : ℕ

abbrev pub identity : Pcb → Identity
identity p = record {
  pid = p.pid;
  parent_pcb = p.parent_pcb;
  current_ebp = p.current_ebp;
  current_esp = p.current_esp;
}

pub record Kin (k k' : Kernel) : Type 0 where
  pub blocks : (p : ℕ) → identity (k'.pcb p) ≡ identity (k.pcb p)
  pub counter : k'.pcb_counter ≡ k.pcb_counter
  pub running : (t : ℕ) → (k'.terminal t).running_pcb ≡ (k.terminal t).running_pcb
  pub term : k'.running_term ≡ k.running_term
  pub pointer : k'.current_pcb_pointer ≡ k.current_pcb_pointer
  -- a table of descriptors that is valid stays so
  pub tables : (p : ℕ) → IsValid (k.pcb p).fd_entry → IsValid (k'.pcb p).fd_entry

pub Kin-same : (k : Kernel) → Kin k k
Kin-same k = record {
  blocks = λ p. refl;
  counter = refl;
  running = λ t. refl;
  term = refl;
  pointer = refl;
  tables = λ p v. v;
}

pub Kin-trans : {k k' k'' : Kernel} → Kin k k' → Kin k' k'' → Kin k k''
Kin-trans a b = record {
  blocks = λ p. b.blocks p ∙ a.blocks p;
  counter = b.counter ∙ a.counter;
  running = λ t. b.running t ∙ a.running t;
  term = b.term ∙ a.term;
  pointer = b.pointer ∙ a.pointer;
  tables = λ p v. b.tables p (a.tables p v);
}

-- Another block, or another terminal, is put in the place of one that agrees with it.
pub same_identity :
    (pcb : ℕ → Pcb) (p : ℕ) (b : Pcb)
    → identity b ≡ identity (pcb p)
    → (q : ℕ) → identity (update pcb p b q) ≡ identity (pcb q)
same_identity pcb p b e q = ground (arith, e)

pub same_running :
    (terminal : ℕ → Terminal) (u : ℕ) (b : Terminal)
    → b.running_pcb ≡ (terminal u).running_pcb
    → (t : ℕ) → (update terminal u b t).running_pcb ≡ (terminal t).running_pcb
same_running terminal u b e t = ground (arith, e)

-- An entry is replaced by one with the same operations, and no free one is taken.
pub kept_entry :
    (t : ℕ → FdEntry) (fd : ℕ) (e : FdEntry)
    → e.fot_ptr ≡ (t fd).fot_ptr
    → (e.flag ≢ 0 → (t fd).flag ≢ 0)
    → IsValid t
    → IsValid (update t fd e)
kept_entry t fd e same used v = record {
  stdin = ground (arith, v.stdin, same);
  stdout = ground (arith, v.stdout, same);
  others = λ i lo hi in_use. elim (Bool-cases (i == fd)) [
    | inl here ↦
        let is : i ≡ fd = ground (arith, here) in
        rw here
          (ap is_device same ∙ v.others fd (rw is at lo) (rw is at hi) (used (rw here at in_use)))
    | inr there ↦ rw there (v.others i lo hi (rw there at in_use))
  ];
}

-- The table of a process is replaced.
pub same_tables :
    (pcb : ℕ → Pcb) (p : ℕ) (b : Pcb)
    → (IsValid (pcb p).fd_entry → IsValid b.fd_entry)
    → (q : ℕ) → IsValid (pcb q).fd_entry
    → IsValid (update pcb p b q).fd_entry
same_tables pcb p b keeps q v = elim (Bool-cases (q == p)) [
  | inl here ↦ let is : q ≡ p = ground (arith, here) in rw here (keeps (rw is at v))
  | inr there ↦ rw there v
]

pub with_entry-Kin :
    (k : Kernel) (fd : ℕ) (e : FdEntry)
    → (IsValid (current k).fd_entry → IsValid (update (current k).fd_entry fd e))
    → Kin k (with_entry k fd e)
with_entry-Kin k fd e keeps = record {
  blocks = same_identity k.pcb k.current_pcb_pointer _ refl;
  counter = refl;
  running = λ t. refl;
  term = refl;
  pointer = refl;
  tables = same_tables k.pcb k.current_pcb_pointer _ keeps;
}

pub drop_flag-Kin : (k : Kernel) (p i : ℕ) → Kin k (drop_flag k p i)
unfolding drop_flag
drop_flag-Kin k p i = record {
  blocks = same_identity k.pcb p _ refl;
  counter = refl;
  running = λ t. refl;
  term = refl;
  pointer = refl;
  tables = same_tables k.pcb p _ (kept_entry (k.pcb p).fd_entry i _ refl (λ h. absurd (h refl)));
}

-- No block of a process is touched.
pub same_blocks :
    {k k' : Kernel}
    → k'.pcb ≡ k.pcb
    → ((t : ℕ) → (k'.terminal t).running_pcb ≡ (k.terminal t).running_pcb)
    → k'.pcb_counter ≡ k.pcb_counter
    → k'.running_term ≡ k.running_term
    → k'.current_pcb_pointer ≡ k.current_pcb_pointer
    → Kin k k'
same_blocks pcb running counter term pointer = record {
  blocks = λ p. rw pcb refl;
  counter = counter;
  running = running;
  term = term;
  pointer = pointer;
  tables = λ p v. rw pcb v;
}

-- Nothing of what `Kin` compares is touched.
pub untouched :
    {k k' : Kernel}
    → k'.pcb ≡ k.pcb
    → k'.terminal ≡ k.terminal
    → k'.pcb_counter ≡ k.pcb_counter
    → k'.running_term ≡ k.running_term
    → k'.current_pcb_pointer ≡ k.current_pcb_pointer
    → Kin k k'
untouched pcb terminal counter term pointer =
    same_blocks pcb (λ t. rw terminal refl) counter term pointer

-- The terminal `u` is replaced by one that runs the same process.
pub one_terminal :
    {k k' : Kernel} (u : ℕ) (b : Terminal)
    → b.running_pcb ≡ (k.terminal u).running_pcb
    → k'.terminal ≡ update k.terminal u b
    → k'.pcb ≡ k.pcb
    → k'.pcb_counter ≡ k.pcb_counter
    → k'.running_term ≡ k.running_term
    → k'.current_pcb_pointer ≡ k.current_pcb_pointer
    → Kin k k'
one_terminal {k} u b e terminal pcb counter term pointer =
    same_blocks pcb (λ t. rw terminal (same_running k.terminal u b e t)) counter term pointer
