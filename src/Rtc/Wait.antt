-- ===== src/Rtc/Wait.antt =====
-- How long a read of the clock waits.
use unix_operation_system.Prelude.{
  ℕ, suc, ◌+◌, ◌-◌, ◌≤◌, ◌<◌, ◌≡◌, ◌≢◌, refl, inl, inr, false, Option, some, none, List, [], ◌∷◌,
  arith, ltb, Bool-cases, ne→==, update,
}
use unix_operation_system.Prelude.Int.{ℤ, pos, below, above}
use unix_operation_system.Rtc.{
  Rtc, Step, interrupt, opened, ended, wrote, apply, wait_loop, rtc_read,
}

-- What happens to terminal `t` is interrupts alone: the other steps are those of other terminals.
abbrev pub Elsewhere : ℕ → List Step → Type 0
Elsewhere t [] = Unit {0}
Elsewhere t (interrupt ∷ es) = Elsewhere t es
Elsewhere t (opened u ∷ es) = (u ≢ t) × Elsewhere t es
Elsewhere t (ended u ∷ es) = (u ≢ t) × Elsewhere t es
Elsewhere t (wrote u freq ∷ es) = (u ≢ t) × Elsewhere t es

abbrev pub interrupts : List Step → ℕ
interrupts [] = 0
interrupts (interrupt ∷ es) = suc (interrupts es)
interrupts (opened u ∷ es) = interrupts es
interrupts (ended u ∷ es) = interrupts es
interrupts (wrote u freq ∷ es) = interrupts es

-- One of the terminals, with a bound as rtc_open and rtc_write set it
pub record IsTerm (r : Rtc) (t : ℕ) : Type 0 where
  pub one : 1 ≤ t
  pub three : t ≤ 3
  pub bound : r.rtc_counter_upperbound t ≤ 512

pub record Released (r : Rtc) (t : ℕ) (ret : Option (ℤ × Rtc)) : Type 0 where
  pub after : Rtc
  pub returns : ret ≡ some (pos 0, after)
  pub counter : after.rtc_interrupt_counter t ≡ 0
  pub bound : after.rtc_counter_upperbound t ≡ r.rtc_counter_upperbound t

left : Rtc → ℕ → ℕ
left r t = r.rtc_counter_upperbound t - r.rtc_interrupt_counter t

apply-interrupt :
    (r : Rtc) (t : ℕ)
    → IsTerm r t
    → r.rtc_interrupt_counter t < r.rtc_counter_upperbound t
    → ((apply interrupt r).rtc_interrupt_counter t ≡ r.rtc_interrupt_counter t + 1)
      × ((apply interrupt r).rtc_counter_upperbound t ≡ r.rtc_counter_upperbound t)
unfolding apply
apply-interrupt r t is h = ground (arith, is)

apply-opened :
    (r : Rtc) (t u : ℕ)
    → u ≢ t
    → ((apply (opened u) r).rtc_interrupt_counter t ≡ r.rtc_interrupt_counter t)
      × ((apply (opened u) r).rtc_counter_upperbound t ≡ r.rtc_counter_upperbound t)
unfolding apply
apply-opened r t u ne = ground arith

apply-ended :
    (r : Rtc) (t u : ℕ)
    → u ≢ t
    → ((apply (ended u) r).rtc_interrupt_counter t ≡ r.rtc_interrupt_counter t)
      × ((apply (ended u) r).rtc_counter_upperbound t ≡ r.rtc_counter_upperbound t)
unfolding apply
apply-ended r t u ne = ground arith

apply-wrote :
    (r : Rtc) (t u freq : ℕ)
    → u ≢ t
    → ((apply (wrote u freq) r).rtc_interrupt_counter t ≡ r.rtc_interrupt_counter t)
      × ((apply (wrote u freq) r).rtc_counter_upperbound t ≡ r.rtc_counter_upperbound t)
unfolding apply
apply-wrote r t u freq ne = ground arith

-- Terminal `t` sees the same in both states, but for `n` more interrupts.
record Later (t n : ℕ) (r r' : Rtc) : Type 0 where
  count : r'.rtc_interrupt_counter t ≡ r.rtc_interrupt_counter t + n
  bound : r'.rtc_counter_upperbound t ≡ r.rtc_counter_upperbound t

-- A step of the environment, as the waiting terminal sees it
step_count : Step → ℕ
step_count interrupt = 1
step_count (opened u) = 0
step_count (ended u) = 0
step_count (wrote u freq) = 0

apply-Later :
    (e : Step) (es : List Step) (r : Rtc) (t : ℕ)
    → Elsewhere t (e ∷ es)
    → IsTerm r t
    → r.rtc_interrupt_counter t < r.rtc_counter_upperbound t
    → Later t (step_count e) r (apply e r)
      × Elsewhere t es
      × (interrupts (e ∷ es) ≡ step_count e + interrupts es)
unfolding step_count
apply-Later interrupt es r t o is h =
    let s = apply-interrupt r t is h in (record { count = s.0; bound = s.1 }, o, omega arith)
apply-Later (opened u) es r t o is h =
    let s = apply-opened r t u o.0 in
    (record { count = omega (arith, s.0); bound = s.1 }, o.1, omega arith)
apply-Later (ended u) es r t o is h =
    let s = apply-ended r t u o.0 in
    (record { count = omega (arith, s.0); bound = s.1 }, o.1, omega arith)
apply-Later (wrote u freq) es r t o is h =
    let s = apply-wrote r t u freq o.0 in
    (record { count = omega (arith, s.0); bound = s.1 }, o.1, omega arith)

IsTerm-Later : {t n : ℕ} {r r' : Rtc} → Later t n r r' → IsTerm r t → IsTerm r' t
IsTerm-Later s is = record {
  one = is.one;
  three = is.three;
  bound = omega (arith, s.bound, is.bound);
}

-- The loop has ended, and the terminal's bound is what it was.
record Ended (r : Rtc) (t : ℕ) (ret : Option Rtc) : Type 0 where
  after : Rtc
  returns : ret ≡ some after
  bound : after.rtc_counter_upperbound t ≡ r.rtc_counter_upperbound t

wait_loop-Ended :
    (es : List Step) (r : Rtc) (t : ℕ)
    → Elsewhere t es
    → IsTerm r t
    → left r t ≤ interrupts es
    → Ended r t (wait_loop es r t)
unfolding wait_loop left
wait_loop-Ended [] r t o is h = record { after = r; returns = ground arith; bound = refl }
wait_loop-Ended (e ∷ es) r t o is h =
    elim (Bool-cases (ltb (r.rtc_interrupt_counter t) (r.rtc_counter_upperbound t))) [
      | inl on ↦
          let s = apply-Later e es r t o is (ground arith) in
          let rest =
            wait_loop-Ended es (apply e r) t s.1 (IsTerm-Later s.0 is)
              (omega (arith, s.0.count, s.0.bound, s.2)) in
          rw on (record {
            after = rest.after;
            returns = rest.returns;
            bound = omega (arith, rest.bound, s.0.bound);
          })
      | inr off ↦ rw off (record { after = r; returns = refl; bound = refl })
    ]

wait_loop-none :
    (es : List Step) (r : Rtc) (t : ℕ)
    → Elsewhere t es
    → IsTerm r t
    → interrupts es < left r t
    → wait_loop es r t ≡ none
unfolding wait_loop left
wait_loop-none [] r t o is h = ground arith
wait_loop-none (e ∷ es) r t o is h =
    let s = apply-Later e es r t o is (omega arith) in
    let rest =
      wait_loop-none es (apply e r) t s.1 (IsTerm-Later s.0 is)
        (omega (arith, s.0.count, s.0.bound, s.2)) in
    ground (arith, rest)

module _ (es : List Step) (r : Rtc) (t : ℕ) (fd : ℤ) (buf : ℕ) (others : Elsewhere t es)
    (is : IsTerm r t) (some_buf : buf ≢ 0) (low : below fd 2 ≡ false)
    (high : above fd 7 ≡ false) where
  -- rtc_read of a descriptor from 2 to 7, with a buffer, at a terminal from 1 to 3 whose bound
  -- is at most 512, returns 0 once the interrupts that are left to the bound have come,
  -- whatever the processes of other terminals do in between; then the terminal's counter is 0.
  pub rtc_read-Released :
      r.rtc_counter_upperbound t - r.rtc_interrupt_counter t ≤ interrupts es
      → Released r t (rtc_read es r t fd buf)
  unfolding rtc_read left
  rtc_read-Released enough =
      let w = wait_loop-Ended es r t others is enough in
      record {
        after = record w.after { rtc_interrupt_counter = update w.after.rtc_interrupt_counter t 0 };
        returns = rw (ne→== buf 0 some_buf, low, high, w.returns);
        counter = ground arith;
        bound = w.bound;
      }

  -- Under the same conditions, a descriptor from 2 to 7, a buffer and a terminal from 1 to 3
  -- whose bound is at most 512, rtc_read has not returned while fewer interrupts have come than
  -- are left to the bound.
  pub rtc_read-waits :
      interrupts es < r.rtc_counter_upperbound t - r.rtc_interrupt_counter t
      → rtc_read es r t fd buf ≡ none
  unfolding rtc_read left
  rtc_read-waits few = rw (ne→== buf 0 some_buf, low, high, wait_loop-none es r t others is few)
