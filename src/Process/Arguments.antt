-- ===== src/Process/Arguments.antt =====
-- The arguments of a process: sys_getargs of student-distrib/syscall.c.
use unix_operation_system.Prelude.{
  ℕ, zero, suc, ◌+◌, ◌-◌, ◌≤◌, ◌<◌, ◌≡◌, ◌≢◌, refl, ap, ◌∙◌, ◌⊎◌, inl, inr, arith, true, false,
  Bool-cases, each_branch, ltb, leb, ◌&&◌, ◌==◌, if◌then◌else◌,
}
use unix_operation_system.Prelude.Int.{ℤ, pos}
use unix_operation_system.Memory.{Memory}
use unix_operation_system.Blocks.{memset, memset-Set}
use unix_operation_system.State.{Kernel}
use unix_operation_system.Syscall.{current, entry}
use unix_operation_system.Process.{ends_word, copy_word_loop, args_loop, sys_getargs}

-- The `n` characters from `at` on, up to a space or a NUL
pub record IsWord (cmd : ℕ → ℕ) (at n : ℕ) : Type 0 where
  pub ends : ends_word (cmd (at + n)) ≡ true
  pub goes_on : (i : ℕ) → i < n → ends_word (cmd (at + i)) ≡ false

-- The characters of a word from letter `j` on
record Rest (cmd : ℕ → ℕ) (at j n : ℕ) : Type 0 where
  ends : ends_word (cmd (at + n)) ≡ true
  goes_on : (i : ℕ) → j ≤ i → i < n → ends_word (cmd (at + i)) ≡ false

copy_word_loop_lem :
    (f : ℕ) (cmd : ℕ → ℕ) (at buf j n p : ℕ) (m : Memory)
    → Rest cmd at j n
    → j ≤ n
    → n < j + f
    → copy_word_loop f cmd at buf j m p
      ≡ (if leb (buf + j) p && ltb p (buf + n) then cmd (at + (p - buf)) else m p)
unfolding copy_word_loop
copy_word_loop_lem zero cmd at buf j n p m w h fuel = absurd (omega arith)
copy_word_loop_lem (suc f) cmd at buf j n p m w h fuel =
    each_branch
      (λ (r : Memory).
        r p ≡ (if leb (buf + j) p && ltb p (buf + n) then cmd (at + (p - buf)) else m p))
      (ends_word (cmd (at + j)))
      (λ e. elim (Bool-cases (j == n)) [
        | inl same ↦ ground (arith, same)
        | inr d ↦ absurd (ground (arith, e, w.goes_on j (omega arith) (ground (arith, d))))
      ])
      (λ e. elim (Bool-cases (j == n)) [
        | inl same ↦ absurd (ground (arith, same, e, w.ends))
        | inr d ↦
            copy_word_loop_lem f cmd at buf (j + 1) n p _
              (record { ends = w.ends; goes_on = λ i a b. w.goes_on i (omega arith) b })
              (ground (arith, d)) (omega arith)
            ∙ elim (Bool-cases (p == buf + j)) [
              | inl here ↦
                  let same : cmd (at + (p - buf)) ≡ cmd (at + j) =
                    ap (λ i. cmd (at + i)) (ground (arith, here)) in
                  ground (arith, here, same, d, h)
              | inr there ↦ ground (arith, there, d, h)
            ]
      ])

args_loop_lem :
    (f : ℕ) (cmd : ℕ → ℕ) (buf i n l p : ℕ) (m : Memory)
    → Rest cmd 0 i n
    → i ≤ n
    → n < i + f
    → IsWord cmd (n + 1) l
    → l < 1024
    → args_loop f cmd buf i m p
      ≡ (if leb buf p && ltb p (buf + l) then cmd (n + 1 + (p - buf)) else m p)
unfolding args_loop
args_loop_lem zero cmd buf i n l p m w h fuel second short = absurd (omega arith)
args_loop_lem (suc f) cmd buf i n l p m w h fuel second short =
    each_branch
      (λ (r : Memory).
        r p ≡ (if leb buf p && ltb p (buf + l) then cmd (n + 1 + (p - buf)) else m p))
      (ends_word (cmd i))
      (λ e. elim (Bool-cases (i == n)) [
        | inl same ↦
            let at : i ≡ n = ground (arith, same) in
            rw at (
              copy_word_loop_lem 1024 cmd (n + 1) buf 0 l p m
                (record { ends = second.ends; goes_on = λ k a b. second.goes_on k b }) (omega arith)
                (omega arith)
              ∙ ground arith)
        | inr d ↦ absurd (ground (arith, e, w.goes_on i (omega arith) (ground (arith, d, h))))
      ])
      (λ e. elim (Bool-cases (i == n)) [
        | inl same ↦ absurd (ground (arith, same, e, w.ends))
        | inr d ↦
            args_loop_lem f cmd buf (i + 1) n l p m
              (record { ends = w.ends; goes_on = λ k a b. w.goes_on k (omega arith) b })
              (ground (arith, d, h)) (omega arith) second short
      ])

-- The buffer holds a word, with NULs behind it.
pub record WordAt (cmd : ℕ → ℕ) (at l buf nbytes : ℕ) (m m' : Memory) : Type 0 where
  pub letters : (i : ℕ) → i < l → m' (buf + i) ≡ cmd (at + i)
  pub blank : (i : ℕ) → l ≤ i → i < nbytes → m' (buf + i) ≡ 0
  pub outside : (p : ℕ) → (p < buf) ⊎ (buf + nbytes ≤ p) → m' p ≡ m p

-- For a command whose first word has `n` characters and whose second word has `l`, where both are
-- shorter than 1024 and the second fits into the buffer, sys_getargs returns 0 and leaves in the buffer
-- exactly the second word, with NULs behind it; nothing else changes.
pub sys_getargs-WordAt :
    (k : Kernel) (buf nbytes n l : ℕ)
    → (entry k 0).flag ≢ 0
    → IsWord (current k).cmd 0 n
    → IsWord (current k).cmd (n + 1) l
    → n < 1024
    → l < 1024
    → l ≤ nbytes
    → let (r, k') = sys_getargs k buf nbytes in
      (r ≡ pos 0) × WordAt (current k).cmd (n + 1) l buf nbytes k.memory k'.memory
unfolding sys_getargs
sys_getargs-WordAt k buf nbytes n l used first second short short' fits =
    let P = λ (r : ℤ × Kernel).
      (r.0 ≡ pos 0) × WordAt (current k).cmd (n + 1) l buf nbytes k.memory r.1.memory in
    let blank = memset-Set k.memory buf 0 nbytes in
    let found = λ (p : ℕ).
      args_loop_lem 1024 (current k).cmd buf 0 n l p (memset k.memory buf 0 nbytes)
        (record { ends = first.ends; goes_on = λ i a b. first.goes_on i b }) (omega arith)
        (omega arith) second short' in
    each_branch P ((entry k 0).flag == 0) (λ e. absurd (ground (arith, e, used)))
      (λ e. (
        refl,
        record {
          letters = λ i h.
              let same : (current k).cmd (n + 1 + (buf + i - buf)) ≡ (current k).cmd (n + 1 + i) =
                ap (current k).cmd (omega arith) in
              found (buf + i) ∙ ground (arith, h, same);
          blank = λ i a h. ground (arith, found (buf + i), blank.inside i h, a);
          outside = λ p o. ground (arith, found p, blank.outside p o, o, fits);
        },
      ))
