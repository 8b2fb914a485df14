-- ===== src/Rtc/Rate.antt =====
-- Which frequencies a process can set, and the rate at which its reads then return.
use unix_operation_system.Prelude.{
  ℕ, zero, suc, ◌+◌, ◌*◌, ◌/◌, ◌^◌, ◌≤◌, ◌<◌, ◌≡◌, ◌≢◌, refl, ◌⊎◌, inl, inr, Bool, true, false,
  ◌&&◌, ◌||◌, not, arith, ltb, leb, ◌==◌, if◌then◌else◌,
}
use unix_operation_system.Prelude.Bits.{each_below, each_below-holds}
use unix_operation_system.Prelude.Int.{ℤ, pos, fail, below, above}
use unix_operation_system.Rtc.{Rtc, rtc_write, not_power_of_two, rtc_max_freq}

-- The frequencies 2, 4, ..., 1024
abbrev pub IsRate : ℕ → Type 0
IsRate freq = (k : ℕ) × (k < 10) × (freq ≡ 2 ^ (k + 1))

rate_index : ℕ → ℕ → ℕ
rate_index zero freq = 0
rate_index (suc k) freq = if freq == 2 ^ (suc k) then k else rate_index k freq

abbrev rate_test : ℕ → Bool
rate_test f =
    ltb f 2
    || (not_power_of_two f || (ltb (rate_index 10 f) 10 && (f == 2 ^ (rate_index 10 f + 1))))

rate_table : each_below 1025 rate_test ≡ true
unfolding each_below rate_index not_power_of_two
rate_table = refl

abbrev power_test : ℕ → Bool
power_test k =
    not (not_power_of_two (2 ^ (k + 1)))
    && (ltb 1 (2 ^ (k + 1))
        && (leb (2 ^ (k + 1)) 1024 && (rtc_max_freq / 2 ^ (k + 1) * 2 ^ (k + 1) == 1024)))

power_table : each_below 10 power_test ≡ true
unfolding each_below not_power_of_two
power_table = refl

IsRate-of : (freq : ℕ) → not_power_of_two freq ≡ false → 2 ≤ freq → freq ≤ 1024 → IsRate freq
IsRate-of freq p lo hi =
    let t = each_below-holds 1025 rate_test freq rate_table (omega arith) in
    (rate_index 10 freq, ground arith, ground arith)

pub IsRate-range :
    {freq : ℕ}
    → IsRate freq
    → (not_power_of_two freq ≡ false)
      × (2 ≤ freq)
      × (freq ≤ 1024)
      × (rtc_max_freq / freq * freq ≡ 1024)
IsRate-range (k, h, e) =
    let t = each_below-holds 10 power_test k power_table h in
    rw e (ground arith, ground arith, ground arith, ground arith)

-- What rtc_write accepts: four bytes at a buffer, a descriptor from 2 to 7, and one of the rates.
abbrev pub Accepted : ℤ → ℕ → ℤ → ℕ → Type 0
Accepted fd buf nbytes freq =
    (buf ≢ 0) × (nbytes ≡ pos 4) × (below fd 2 ≡ false) × (above fd 7 ≡ false) × IsRate freq

module _ (r : Rtc) (t : ℕ) (fd : ℤ) (buf : ℕ) (nbytes : ℤ) (freq : ℕ) where
  rtc_write-succeeds : (rtc_write r t fd buf nbytes freq).0 ≡ pos 0 → Accepted fd buf nbytes freq
  unfolding rtc_write
  rtc_write-succeeds h = (
    λ z. ground arith,
    ground arith,
    ground arith,
    ground arith,
    IsRate-of freq (ground arith) (ground arith) (ground arith),
  )

  fails_or_succeeds :
      (rtc_write r t fd buf nbytes freq ≡ (fail, r))
      ⊎ ((rtc_write r t fd buf nbytes freq).0 ≡ pos 0)
  unfolding rtc_write
  fails_or_succeeds = ground arith

  -- On anything but four bytes at a buffer, a descriptor from 2 to 7 and a power of two from 2
  -- to 1024, rtc_write returns -1 and changes nothing.
  pub rtc_write-rejected :
      ¬ Accepted fd buf nbytes freq → rtc_write r t fd buf nbytes freq ≡ (fail, r)
  rtc_write-rejected no_way = elim fails_or_succeeds [
    | inl f ↦ f
    | inr s ↦ absurd (no_way (rtc_write-succeeds s))
  ]

  -- On four bytes at a buffer, a descriptor from 2 to 7 and a power of two from 2 to 1024,
  -- rtc_write returns 0. Then the number of interrupts that a read of this terminal waits for,
  -- times the frequency, is the physical rate of 1024; the counters, and the bounds of the
  -- other terminals, stay.
  pub rtc_write-bound :
      Accepted fd buf nbytes freq
      → let (ret, r') = rtc_write r t fd buf nbytes freq in
        (ret ≡ pos 0)
        × (r'.rtc_counter_upperbound t * freq ≡ rtc_max_freq)
        × (r'.rtc_interrupt_counter ≡ r.rtc_interrupt_counter)
        × ((u : ℕ) → u ≢ t → r'.rtc_counter_upperbound u ≡ r.rtc_counter_upperbound u)
  unfolding rtc_write
  rtc_write-bound a =
      let range = IsRate-range a.4 in
      (ground (arith, a), ground (arith, a), ground (arith, a), λ u ne. ground (arith, a))
