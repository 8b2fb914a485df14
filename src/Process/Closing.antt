-- ===== src/Process/Closing.antt =====
-- sys_halt of student-distrib/syscall.c closes descriptors.
use unix_operation_system.Prelude.{
  ℕ, zero, suc, ◌+◌, ◌≤◌, ◌<◌, ◌≡◌, refl, ◌∙◌, inl, inr, arith, true, Bool-cases, le→ltb, ap, ◌&&◌,
  ◌==◌, if◌then◌else◌,
}
use unix_operation_system.Prelude.Int.{ℤ, pos, fail}
use unix_operation_system.State.{
  Kernel, FileOps, null, rtc_op, file_op, dir_op, terminal_stdin, terminal_stdout,
}
use unix_operation_system.Syscall.{current, entry, with_entry, fd_min, fd_max}
use unix_operation_system.Syscall.Calls.{Outcome, returned, sys_close, call_close}
use unix_operation_system.Syscall.Table.{IsValid, is_device, with_entry-IsValid}
use unix_operation_system.Process.Kin.{
  Kin, Kin-same, Kin-trans, with_entry-Kin, kept_entry, drop_flag-Kin,
}
use unix_operation_system.Process.{and_then, drop_flag, close_loop}

call_close-device :
    (f : FileOps) (k : Kernel) (fd : ℤ)
    → is_device f ≡ true
    → (r : ℤ) × (call_close f k fd ≡ returned r k)
unfolding is_device call_close
call_close-device null k fd d = absurd (ground (arith, d))
call_close-device rtc_op k fd d = (_, refl)
call_close-device file_op k fd d = (_, refl)
call_close-device dir_op k fd d = (_, refl)
call_close-device terminal_stdin k fd d = absurd (ground (arith, d))
call_close-device terminal_stdout k fd d = absurd (ground (arith, d))

-- The table of the current process is valid, and its descriptors from 2 up to `i` are free.
pub record FreeBelow (i : ℕ) (k : Kernel) : Type 0 where
  pub valid : IsValid (current k).fd_entry
  pub free : (j : ℕ) → fd_min ≤ j → j < i → (entry k j).flag ≡ 0

drop_flag-fot_ptr :
    (k : Kernel) (p i j : ℕ) → (entry (drop_flag k p i) j).fot_ptr ≡ (entry k j).fot_ptr
unfolding drop_flag
drop_flag-fot_ptr k p i j = ground arith

drop_flag-flag :
    (k : Kernel) (p i j : ℕ)
    → (entry (drop_flag k p i) j).flag
      ≡ (if (k.current_pcb_pointer == p) && (j == i) then 0 else (entry k j).flag)
unfolding drop_flag
drop_flag-flag k p i j = ground arith

drop_flag-FreeBelow : (k : Kernel) (p i : ℕ) {n : ℕ} → FreeBelow n k → FreeBelow n (drop_flag k p i)
drop_flag-FreeBelow k p i v = record {
  valid = record {
    stdin = drop_flag-fot_ptr k p i 0 ∙ v.valid.stdin;
    stdout = drop_flag-fot_ptr k p i 1 ∙ v.valid.stdout;
    others = λ j lo hi used.
        ap is_device (drop_flag-fot_ptr k p i j)
        ∙ v.valid.others j lo hi (λ z. used (ground (arith, z, drop_flag-flag k p i j)));
  };
  free = λ j lo hi. ground (arith, drop_flag-flag k p i j, v.free j lo hi);
}

drop_flag-exception : (k : Kernel) (p i : ℕ) → (drop_flag k p i).exception_flag ≡ k.exception_flag
unfolding drop_flag
drop_flag-exception k p i = refl

-- One more descriptor is closed by a call that returns.
record Closed (i : ℕ) (k k' : Kernel) (o : Outcome) : Type 0 where
  result : ℤ
  returns : o ≡ returned result k'
  free : FreeBelow (i + 1) k'
  flag : k'.exception_flag ≡ k.exception_flag
  kin : Kin k k'

sys_close-Closed :
    (i : ℕ) (k : Kernel)
    → FreeBelow i k
    → fd_min ≤ i
    → i ≤ fd_max
    → (k' : Kernel) × Closed i k k' (sys_close k (pos i))
unfolding sys_close
sys_close-Closed i k v lo hi = elim (Bool-cases ((entry k i).flag == 0)) [
  | inl e ↦ (
    k,
    record {
      result = fail;
      returns = rw (le→ltb i 2 lo, le→ltb 7 i hi, e) refl;
      free = record {
        valid = v.valid;
        free = λ j a b. elim (Bool-cases (j == i)) [
          | inl q ↦ ground (arith, q, e)
          | inr q ↦ v.free j a (ground (arith, q, b))
        ];
      };
      kin = Kin-same k;
      flag = refl;
    },
  )
  | inr e ↦
      let device = v.valid.others i lo hi (ground (arith, e)) in
      let closed = with_entry k i (record (entry k i) { flag = 0 }) in
      let c = call_close-device (entry k i).fot_ptr closed (pos i) device in
      (
        closed,
        record {
          result = c.0;
          returns = rw (le→ltb i 2 lo, le→ltb 7 i hi, e) c.1;
          free = record {
            valid = with_entry-IsValid k i _ v.valid lo (λ h. absurd (h refl));
            free = λ j a b. elim (Bool-cases (j == i)) [
              | inl q ↦ ground (arith, q)
              | inr q ↦ ground (arith, q, v.free j a (ground (arith, q, b)))
            ];
          };
          flag = refl;
          kin =
              with_entry-Kin k i (record (entry k i) { flag = 0 })
                (kept_entry (current k).fd_entry i _ refl (λ h. absurd (h refl)));
        },
      )
]

-- The loop has closed all descriptors of the current process.
pub record AllClosed (k k' : Kernel) (o : Outcome) : Type 0 where
  pub returns : o ≡ returned (pos 0) k'
  pub free : FreeBelow (fd_max + 1) k'
  pub flag : k'.exception_flag ≡ k.exception_flag
  pub kin : Kin k k'

pub close_loop-AllClosed :
    (n p i : ℕ) (k : Kernel)
    → i + n ≡ fd_max + 1
    → fd_min ≤ i
    → FreeBelow i k
    → (k' : Kernel) × AllClosed k k' (close_loop n p i k)
unfolding close_loop and_then
close_loop-AllClosed zero p i k sum lo v =
    let at : i ≡ fd_max + 1 = omega arith in
    (
      k,
      record {
        returns = refl;
        free = record { valid = v.valid; free = λ j a b. v.free j a (omega arith) };
        kin = Kin-same k;
        flag = refl;
      },
    )
close_loop-AllClosed (suc n) p i k sum lo v =
    let c = sys_close-Closed i k v lo (omega arith) in
    let rest =
      close_loop-AllClosed n p (i + 1) (drop_flag c.0 p i) (omega arith) (omega arith)
        (drop_flag-FreeBelow c.0 p i c.1.free) in
    (
      rest.0,
      record {
        returns = rw c.1.returns rest.1.returns;
        free = rest.1.free;
        flag = rest.1.flag ∙ drop_flag-exception c.0 p i ∙ c.1.flag;
        kin = Kin-trans c.1.kin (Kin-trans (drop_flag-Kin c.0 p i) rest.1.kin);
      },
    )
