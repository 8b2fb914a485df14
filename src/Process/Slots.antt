-- ===== src/Process/Slots.antt =====
-- Which slot a new process gets: find_pid of student-distrib/syscall.c.
use unix_operation_system.Prelude.{
  ℕ, zero, suc, ◌+◌, ◌≤◌, ◌<◌, ◌≡◌, ◌≢◌, refl, inl, inr, arith, Bool-cases, each_branch, not, ◌==◌,
}
use unix_operation_system.State.{Kernel}
use unix_operation_system.Process.{pid_loop, find_pid}

-- `pid` is one more than the least free slot from `lo` to 5, or 0 when none is free.
pub data LeastSlot (counter : ℕ → ℕ) (lo : ℕ) : ℕ → Type 0 where
  found :
      (slot : ℕ)
      → counter slot ≡ 0
      → lo ≤ slot
      → slot < 6
      → ((i : ℕ) → lo ≤ i → i < slot → counter i ≢ 0)
      → LeastSlot counter lo (slot + 1)
  full : ((i : ℕ) → lo ≤ i → i < 6 → counter i ≢ 0) → LeastSlot counter lo 0

one_more :
    {counter : ℕ → ℕ} {lo pid : ℕ}
    → counter lo ≢ 0
    → LeastSlot counter (lo + 1) pid
    → LeastSlot counter lo pid
one_more {counter} {lo} used (found slot free l h before) =
    found slot free (omega arith) h (λ i a b. elim (Bool-cases (i == lo)) [
      | inl e ↦ ground (arith, e, used)
      | inr e ↦ before i (ground (arith, e)) b
    ])
one_more {counter} {lo} used (full all) = full (λ i a b. elim (Bool-cases (i == lo)) [
  | inl e ↦ ground (arith, e, used)
  | inr e ↦ all i (ground (arith, e)) b
])

pid_loop-LeastSlot :
    (n : ℕ) (counter : ℕ → ℕ) (lo : ℕ) → lo + n ≡ 6 → LeastSlot counter lo (pid_loop n counter lo)
unfolding pid_loop
pid_loop-LeastSlot zero counter lo sum = full (λ i a b. absurd (omega arith))
pid_loop-LeastSlot (suc n) counter lo sum =
    each_branch (LeastSlot counter lo) (not (counter lo == 0))
      (λ e. one_more (ground (arith, e)) (pid_loop-LeastSlot n counter (lo + 1) (omega arith)))
      (λ e.
        found lo (ground (arith, e)) (omega arith) (omega arith) (λ i a b. absurd (omega arith)))

-- find_pid returns one more than the number of the least free slot of six, and 0 exactly when all are
-- in use.
pub find_pid-LeastSlot : (k : Kernel) → LeastSlot k.pcb_counter 0 (find_pid k)
unfolding find_pid
find_pid-LeastSlot k = pid_loop-LeastSlot 6 k.pcb_counter 0 refl
