-- ===== src/Rtc.antt =====
-- The real-time clock of student-distrib/devices/RTC.c, which each terminal sees at a rate of its own.
-- `t` is running_term. The messages that the driver prints are left out.
pub mod Rate
pub mod Wait
mod Tests
use unix_operation_system.Prelude.{
  ℕ, zero, suc, ◌+◌, ◌-◌, ◌*◌, ◌/◌, ◌%◌, ◌^◌, bit_and, bit_or, Bool, ◌&&◌, ◌||◌, not, Option, none,
  some, List, [], ◌∷◌, ◌++◌, ltb, ◌==◌, if◌then◌else◌, update, ◌>>=◌,
}
use unix_operation_system.Prelude.Int.{ℤ, pos, fail, below, above, is_nat}
use unix_operation_system.Hardware.{Event, outb, cli, sti, save_flags, restore_flags}
use unix_operation_system.Pic.{send_eoi}

pub record Rtc : Type 0 where
  pub current_freq : ℕ
  pub rtc_interrupt_counter : ℕ → ℕ
  pub rtc_counter_upperbound : ℕ → ℕ

abbrev pub rtc_max_freq : ℕ
rtc_max_freq = 1024

abbrev pub rtc_min_freq : ℕ
rtc_min_freq = 2

-- `(freq & (freq - 1)) != 0`, with the subtraction of a `uint32_t`
unfoldable pub not_power_of_two : ℕ → Bool
not_power_of_two freq = not (bit_and freq ((freq + 2 ^ 32 - 1) % 2 ^ 32) == 0)

-- `while (current < freq) { current *= 2; result++; }`. After 32 rounds `current` has become 0 and
-- stays so: a loop that has not ended by then does not end.
unfoldable pub log_loop : ℕ → ℕ → ℕ → ℕ → Option ℕ
log_loop zero freq current result = none
log_loop (suc f) freq current result =
    let rest = log_loop f freq (current * 2 % 2 ^ 32) (result + 1) in
    if ltb current freq then rest else some result

unfoldable pub log_2 : Rtc → ℕ → Option ℕ
unfolding log_loop not_power_of_two
log_2 r freq = log_loop 33 (if not_power_of_two freq then r.current_freq else freq) 1 0

-- `prev` is what the controller answers when register A is read.
unfoldable pub rtc_set_freq : Rtc → ℕ → ℕ → Option (Rtc × List Event)
rtc_set_freq r prev freq = do
  log ← log_2 r freq
  let rate = (16 + 256 - log) % 256
  some (
      if ltb 2 rate && ltb rate 16
      then (
        record r { current_freq = freq },
        save_flags
            ∷ cli
            ∷ outb 0x8A 0x70
            ∷ outb 0x8A 0x70
            ∷ outb (bit_or (bit_and prev 0xF0) rate) 0x71
            ∷ sti
            ∷ restore_flags
            ∷ [],
      )
      else (r, []))

-- The loop that clears the counters of terminals 0 to 3
pub init_loop : ℕ → ℕ → Rtc → Rtc
init_loop zero i r = r
init_loop (suc k) i r = init_loop k (i + 1) (record r {
  rtc_interrupt_counter = update r.rtc_interrupt_counter i 0;
  rtc_counter_upperbound = update r.rtc_counter_upperbound i (rtc_max_freq / rtc_min_freq);
})

-- `prev_a` and `prev_b` are what registers A and B hold.
unfoldable pub rtc_init : Rtc → ℕ → ℕ → Option (Rtc × List Event)
rtc_init r prev_a prev_b = do
  (r', set) ← rtc_set_freq (record r { current_freq = 1024 }) prev_a 1024
  some (
    init_loop 4 0 r',
    save_flags
        ∷ cli
        ∷ outb 0x8B 0x70
        ∷ outb 0x8B 0x70
        ∷ outb (bit_or prev_b 0x40) 0x71
        ∷ (set ++ (sti ∷ restore_flags ∷ [])),
  )

pub count_loop : ℕ → ℕ → (ℕ → ℕ) → ℕ → ℕ
count_loop zero i counter = counter
count_loop (suc k) i counter = count_loop k (i + 1) (update counter i ((counter i + 1) % 2 ^ 32))

pub rtc_interrupt : Rtc → Rtc × List Event
unfolding count_loop
rtc_interrupt r = (
  record r { rtc_interrupt_counter = count_loop 3 1 r.rtc_interrupt_counter },
  cli ∷ outb 0x0C 0x70 ∷ (send_eoi 8 ++ (sti ∷ [])),
)

-- `filename` is an address.
unfoldable pub rtc_open : Rtc → ℕ → ℕ → ℤ × Rtc
rtc_open r t filename = if filename == 0 then (fail, r) else (
  pos 0,
  record r {
    rtc_counter_upperbound = update r.rtc_counter_upperbound t (rtc_max_freq / rtc_min_freq);
    rtc_interrupt_counter = update r.rtc_interrupt_counter t 0;
  },
)

-- `freq` is the word at `buf`.
unfoldable pub rtc_write : Rtc → ℕ → ℤ → ℕ → ℤ → ℕ → ℤ × Rtc
rtc_write r t fd buf nbytes freq =
    if (buf == 0) || not (is_nat nbytes 4)
    then (fail, r)
    else if below fd 2 || above fd 7
    then (fail, r)
    else if not_power_of_two freq
    then (fail, r)
    else if ltb freq rtc_min_freq || ltb rtc_max_freq freq
    then (fail, r)
    else (
      pos 0,
      record r { rtc_counter_upperbound = update r.rtc_counter_upperbound t (rtc_max_freq / freq) },
    )

unfoldable pub rtc_close : ℤ → ℤ
rtc_close fd = if below fd 2 || above fd 7 then fail else pos 0

-- What can happen to the clock between two tests of the waiting loop: an interrupt, or what the
-- processes of other terminals do.
pub data Step : Type 0 where
  interrupt : Step
  opened ended : ℕ → Step
  wrote : ℕ → ℕ → Step

pub apply : Step → Rtc → Rtc
unfolding rtc_interrupt rtc_open rtc_write
apply interrupt r = (rtc_interrupt r).0
apply (opened u) r = (rtc_open r u 1).1
apply (ended u) r = record r { rtc_interrupt_counter = update r.rtc_interrupt_counter u 0 }
apply (wrote u freq) r = (rtc_write r u (pos 2) 1 (pos 4) freq).1

-- The loop of rtc_read, with the steps that happen between its tests; `none` is a loop that is still
-- waiting when they are over.
pub wait_loop : List Step → Rtc → ℕ → Option Rtc
wait_loop [] r t =
    if ltb (r.rtc_interrupt_counter t) (r.rtc_counter_upperbound t) then none else some r
wait_loop (e ∷ es) r t =
    let rest = wait_loop es (apply e r) t in
    if ltb (r.rtc_interrupt_counter t) (r.rtc_counter_upperbound t) then rest else some r

pub rtc_read : List Step → Rtc → ℕ → ℤ → ℕ → Option (ℤ × Rtc)
rtc_read es r t fd buf =
    if buf == 0 then some (pos 0, r) else if below fd 2 || above fd 7 then some (fail, r) else do
      r' ← wait_loop es r t
      some (pos 0, record r' { rtc_interrupt_counter = update r'.rtc_interrupt_counter t 0 })
