-- ===== src/Syscall/Descriptors.antt =====
-- Which descriptor is handed out: find_next_fd of student-distrib/syscall.c.
use unix_operation_system.Prelude.{
  ℕ, zero, suc, ◌+◌, ◌≤◌, ◌<◌, ◌≡◌, ◌≢◌, refl, inl, inr, arith, Bool-cases, each_branch, ◌==◌,
}
use unix_operation_system.Prelude.Int.{ℤ, pos, fail}
use unix_operation_system.State.{Kernel, FdEntry}
use unix_operation_system.Syscall.{fd_min, fd_max, current, next_fd_loop, find_next_fd}

-- `r` is the least number from `lo` below `hi` whose descriptor is free, or there is none.
pub data LeastFree (t : ℕ → FdEntry) (lo hi : ℕ) : ℤ → Type 0 where
  found :
      (fd : ℕ)
      → (t fd).flag ≡ 0
      → (lo ≤ fd) × (fd < hi)
      → ((i : ℕ) → lo ≤ i → i < fd → (t i).flag ≢ 0)
      → LeastFree t lo hi (pos fd)
  full : ((i : ℕ) → lo ≤ i → i < hi → (t i).flag ≢ 0) → LeastFree t lo hi fail

one_more :
    {t : ℕ → FdEntry} {lo hi : ℕ} {r : ℤ}
    → (t lo).flag ≢ 0
    → LeastFree t (lo + 1) hi r
    → LeastFree t lo hi r
one_more {t} {lo} used (found fd free (l, h) before) =
    found fd free (omega arith, h)
      (λ i a b. elim (Bool-cases (i == lo)) [
        | inl e ↦ ground (arith, e, used)
        | inr e ↦ before i (ground (arith, e)) b
      ])
one_more {t} {lo} used (full all) = full (λ i a b. elim (Bool-cases (i == lo)) [
  | inl e ↦ ground (arith, e, used)
  | inr e ↦ all i (ground (arith, e)) b
])

next_fd_loop-LeastFree :
    (n : ℕ) (t : ℕ → FdEntry) (lo hi : ℕ) → lo + n ≡ hi → LeastFree t lo hi (next_fd_loop n t lo)
unfolding next_fd_loop
next_fd_loop-LeastFree zero t lo hi sum = full (λ i a b. absurd (omega arith))
next_fd_loop-LeastFree (suc n) t lo hi sum =
    each_branch (LeastFree t lo hi) ((t lo).flag == 0)
      (λ e. found lo (ground (arith, e)) (omega arith, omega arith) (λ i a b. absurd (omega arith)))
      (λ e. one_more (ground (arith, e)) (next_fd_loop-LeastFree n t (lo + 1) hi (omega arith)))

-- find_next_fd returns the least number from 2 to 7 of a free descriptor of the current process, and
-- -1 exactly when all six are in use.
pub find_next_fd-LeastFree :
    (k : Kernel) → LeastFree (current k).fd_entry fd_min (fd_max + 1) (find_next_fd k)
unfolding find_next_fd
find_next_fd-LeastFree k = next_fd_loop-LeastFree 6 (current k).fd_entry 2 8 refl
