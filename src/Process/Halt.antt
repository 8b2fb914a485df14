-- ===== src/Process/Halt.antt =====
-- The end of a process: sys_halt of student-distrib/syscall.c.
use unix_operation_system.Prelude.{
  ℕ, ◌-◌, ◌%◌, ◌≤◌, ◌≡◌, ◌≢◌, false, refl, ◌∙◌, arith, each_branch, ◌==◌, if◌then◌else◌, update,
}
use unix_operation_system.Prelude.Int.{pos}
use unix_operation_system.State.{Kernel, Terminal}
use unix_operation_system.Syscall.{current, entry, fd_min, fd_max}
use unix_operation_system.Syscall.Calls.{Outcome, returned, unending, null_used}
use unix_operation_system.Syscall.Table.{IsValid}
use unix_operation_system.Process.Kin.{identity, same_running, same_identity}
use unix_operation_system.Process.Closing.{close_loop-AllClosed}
use unix_operation_system.Process.{
  close_loop, leave, retire, left_terminal, cleared_pcb, conclude, restart, same_int, sys_halt,
  Halted, restarted, resumed, not_ended,
}

-- sys_halt ends with a new base shell or in the parent, in the state `k'`.
pub data EndsIn (k' : Kernel) : Halted → Type 0 where
  shell : EndsIn k' (restarted k')
  parent : (status ebp esp : ℕ) → EndsIn k' (resumed status ebp esp k')

-- What a process that ends leaves behind: its slot is free and no other has changed, its parent is
-- the current process and that of the terminal, the other terminals have theirs and all processes are
-- who they were, and the descriptors from 2 to 7 of the parent are closed.
pub record Left (k k' : Kernel) : Type 0 where
  pub slot : k'.pcb_counter ≡ update k.pcb_counter ((current k).pid - 1) 0
  pub pointer : k'.current_pcb_pointer ≡ (current k).parent_pcb
  pub running :
      (t : ℕ)
      → (k'.terminal t).running_pcb
        ≡ (if t == k.running_term then (current k).parent_pcb else (k.terminal t).running_pcb)
  pub term : k'.running_term ≡ k.running_term
  pub blocks : (p : ℕ) → identity (k'.pcb p) ≡ identity (k.pcb p)
  pub closed : (j : ℕ) → fd_min ≤ j → j ≤ fd_max → (entry k' j).flag ≡ 0
  pub flag : k.exception_flag ≡ 1 → k'.exception_flag ≡ 0
  -- a valid table of another process stays valid
  pub tables :
      (q : ℕ) → q ≢ k.current_pcb_pointer → IsValid (k.pcb q).fd_entry → IsValid (k'.pcb q).fd_entry

left_terminal-running_pcb : (t : Terminal) → (left_terminal t).running_pcb ≡ t.running_pcb
unfolding left_terminal
left_terminal-running_pcb t = refl

retire-Left : (k k' : Kernel) → Left k k' → Left k (retire k.current_pcb_pointer k')
unfolding retire
retire-Left k k' l =
    let p = k.current_pcb_pointer in
    record {
      slot = l.slot;
      pointer = l.pointer;
      running = λ t.
          same_running k'.terminal k'.running_term (left_terminal (k'.terminal k'.running_term))
            (left_terminal-running_pcb (k'.terminal k'.running_term)) t
          ∙ l.running t;
      term = l.term;
      blocks = λ q. same_identity k'.pcb p (cleared_pcb (k'.pcb p)) refl q ∙ l.blocks q;
      closed = λ j lo hi. ground (arith, l.closed j lo hi, lo);
      tables =
          λ q ne v. let other : q == p ≡ false = ground (arith, ne) in rw other (l.tables q ne v);
      flag = l.flag;
    }

restart-Left : (k k' : Kernel) → Left k k' → Left k (restart k')
unfolding restart
restart-Left k k' l = record {
  slot = l.slot;
  pointer = l.pointer;
  running = λ t. same_running k'.terminal k'.running_term _ refl t ∙ l.running t;
  term = l.term;
  blocks = l.blocks;
  closed = l.closed;
  tables = l.tables;
  flag = l.flag;
}

conclude-Left :
    (status : ℕ) (k k' : Kernel)
    → Left k k'
    → (end : Kernel) × (EndsIn end (conclude status k.current_pcb_pointer (returned (pos 0) k'))
        × Left k end)
unfolding conclude
conclude-Left status k k' l =
    let p = k.current_pcb_pointer in
    let r = retire-Left k k' l in
    let last = retire p k' in
    let ebp = (last.pcb p).saved_ebp in
    let esp = (last.pcb p).saved_esp in
    each_branch (λ (h : Halted). (end : Kernel) × (EndsIn end h × Left k end))
      (same_int (last.terminal last.running_term).task_counter (pos 0))
      {x = restarted (restart last)} {y = resumed status ebp esp last}
      (λ e. (restart last, (shell, restart-Left k last r)))
      (λ e. (last, (parent status ebp esp, r)))

-- When the table of the parent is valid, sys_halt ends, with a new base shell or in the parent: the
-- slot of the process is free and no other slot has changed, the parent is the current process, and
-- the descriptors from 2 to 7 that are closed are those of the parent, whatever it had open; every other
-- valid table stays valid, and the flag of an exception is taken back.
pub sys_halt-Left :
    (k : Kernel) (status : ℕ)
    → IsValid (k.pcb (current k).parent_pcb).fd_entry
    → (end : Kernel) × (EndsIn end (sys_halt k status) × Left k end)
unfolding sys_halt leave
sys_halt-Left k status v =
    let loop =
      close_loop-AllClosed 6 k.current_pcb_pointer fd_min (leave k) refl (omega arith)
        (record { valid = v; free = λ j a b. absurd (omega (arith, a, b)) }) in
    rw loop.1.returns (
      conclude-Left _ k loop.0 (record {
        slot = loop.1.kin.counter;
        pointer = loop.1.kin.pointer;
        running = λ t. loop.1.kin.running t ∙ ground arith;
        term = loop.1.kin.term;
        blocks = loop.1.kin.blocks;
        closed = λ j lo hi. loop.1.free.free j lo (omega arith);
        tables = λ q ne v. loop.1.kin.tables q v;
        flag = λ h. loop.1.flag ∙ ground (arith, h);
      }))

-- If the parent goes on, its sys_execute returns `status`.
pub data Reports (status : ℕ) : Halted → Type 0 where
  shell : (k' : Kernel) → Reports status (restarted k')
  parent : (ebp esp : ℕ) (k' : Kernel) → Reports status (resumed status ebp esp k')
  stuck : (o : Outcome) → Reports status (not_ended o)

conclude-Reports : (status p : ℕ) (o : Outcome) → Reports status (conclude status p o)
unfolding conclude
conclude-Reports status p (returned r k) =
    let k' = retire p k in
    let ebp = (k'.pcb p).saved_ebp in
    let esp = (k'.pcb p).saved_esp in
    each_branch (Reports status) (same_int (k'.terminal k'.running_term).task_counter (pos 0))
      {x = restarted (restart k')} {y = resumed status ebp esp k'} (λ e. Reports.shell (restart k'))
      (λ e. Reports.parent ebp esp k')
conclude-Reports status p unending = Reports.stuck unending
conclude-Reports status p null_used = Reports.stuck null_used

pub sys_halt-Reports :
    (k : Kernel) (status : ℕ)
    → Reports (if k.exception_flag == 1 then 256 else status % 256) (sys_halt k status)
unfolding sys_halt
sys_halt-Reports k status =
    conclude-Reports (if k.exception_flag == 1 then 256 else status % 256) k.current_pcb_pointer
      (close_loop 6 k.current_pcb_pointer fd_min (leave k))

-- The end state is determined.
pub EndsIn-unique : {k k' : Kernel} {h : Halted} → EndsIn k h → EndsIn k' h → k ≡ k'
EndsIn-unique EndsIn.shell EndsIn.shell = refl
EndsIn-unique (EndsIn.parent status ebp esp) (EndsIn.parent status' ebp' esp') = refl
