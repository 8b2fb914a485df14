-- ===== src/Pic/Masks.antt =====
-- The two masks as one set of sixteen interrupt lines.
use unix_operation_system.Prelude.{
  ℕ, ◌+◌, ◌-◌, ◌/◌, ◌%◌, ◌^◌, ◌<◌, ◌≡◌, refl, Bool, true, ◌&&◌, [], ◌∷◌, arith, ltb, bit_or, ◌==◌,
  ==_iff, if◌then◌else◌,
}
use unix_operation_system.Prelude.Bits.{each_below, each_below-holds}
use unix_operation_system.Hardware.{outb}
use unix_operation_system.Pic.{
  Pic, clear_bit, set_bit, enable_irq, disable_irq, send_eoi, i8259_init, master_port, slave_port,
  eoi,
}

-- The masks are bytes.
pub record IsValid (p : Pic) : Type 0 where
  pub master : p.master_mask < 256
  pub slave : p.slave_mask < 256

pub bit : ℕ → ℕ → ℕ
bit mask n = mask / 2 ^ n % 2

-- 1 if the line is masked
abbrev pub masked : Pic → ℕ → ℕ
masked p irq = if ltb irq 8 then bit p.master_mask irq else bit p.slave_mask (irq - 8)

-- Over all bytes and bit numbers
abbrev check_bits : (ℕ → ℕ → ℕ) → ℕ → Bool
check_bits op v = each_below 8 λ n. each_below 8 λ j.
    each_below 256
      λ mask. (bit (op mask n) j == (if j == n then v else bit mask j)) && ltb (op mask n) 256

check_bits_sound :
    (op : ℕ → ℕ → ℕ) (v mask n j : ℕ)
    → check_bits op v ≡ true
    → mask < 256
    → n < 8
    → j < 8
    → (bit (op mask n) j ≡ (if j == n then v else bit mask j)) × (op mask n < 256)
check_bits_sound op v mask n j h hm hn hj =
    let a =
      each_below-holds 8
        (λ n. each_below 8 λ j.
          each_below 256 λ mask.
            (bit (op mask n) j == (if j == n then v else bit mask j)) && ltb (op mask n) 256)
        n h hn in
    let b =
      each_below-holds 8
        (λ j.
          each_below 256 λ mask.
            (bit (op mask n) j == (if j == n then v else bit mask j)) && ltb (op mask n) 256)
        j a hj in
    let c =
      each_below-holds 256
        (λ mask. (bit (op mask n) j == (if j == n then v else bit mask j)) && ltb (op mask n) 256)
        mask b hm in
    ground arith

clear_table : check_bits clear_bit 0 ≡ true
unfolding each_below clear_bit bit
clear_table = refl

set_table : check_bits set_bit 1 ≡ true
unfolding each_below set_bit bit
set_table = refl

clear_lem :
    (mask n j : ℕ)
    → mask < 256
    → n < 8
    → j < 8
    → (bit (clear_bit mask n) j ≡ (if j == n then 0 else bit mask j)) × (clear_bit mask n < 256)
clear_lem mask n j = check_bits_sound clear_bit 0 mask n j clear_table

set_lem :
    (mask n j : ℕ)
    → mask < 256
    → n < 8
    → j < 8
    → (bit (set_bit mask n) j ≡ (if j == n then 1 else bit mask j)) × (set_bit mask n < 256)
set_lem mask n j = check_bits_sound set_bit 1 mask n j set_table

module _ {p : Pic} (irq j : ℕ) (v : IsValid p) (hi : irq < 16) (hj : j < 16) where
  -- enable_irq of a line below 16 unmasks this line and no other of the sixteen, and keeps the
  -- two masks bytes.
  pub enable_irq-masked :
      (masked (enable_irq p irq).0 j ≡ (if j == irq then 0 else masked p j))
      × IsValid (enable_irq p irq).0
  unfolding enable_irq
  enable_irq-masked = ground (
    arith,
    v,
    clear_lem p.master_mask irq j,
    clear_lem p.slave_mask (irq - 8) (j - 8),
    clear_lem p.master_mask irq irq,
    clear_lem p.slave_mask (irq - 8) (irq - 8),
  )

  -- disable_irq of a line below 16 masks this line and no other of the sixteen, and keeps the
  -- two masks bytes.
  pub disable_irq-masked :
      (masked (disable_irq p irq).0 j ≡ (if j == irq then 1 else masked p j))
      × IsValid (disable_irq p irq).0
  unfolding disable_irq
  disable_irq-masked = ground (
    arith,
    v,
    set_lem p.master_mask irq j,
    set_lem p.slave_mask (irq - 8) (j - 8),
    set_lem p.master_mask irq irq,
    set_lem p.slave_mask (irq - 8) (irq - 8),
  )

-- After i8259_init, of the sixteen lines exactly the one of the second controller is unmasked.
pub i8259_init-masked : (j : ℕ) → j < 16 → masked i8259_init.0 j ≡ (if j == 2 then 0 else 1)
unfolding i8259_init bit clear_bit each_below
i8259_init-masked j h =
    (==_iff _ _).0
      (each_below-holds 16 (λ j. masked i8259_init.0 j == (if j == 2 then 0 else 1)) j refl h)

pub i8259_init-IsValid : IsValid i8259_init.0
unfolding i8259_init clear_bit
i8259_init-IsValid = record { master = omega arith; slave = omega arith }

-- The end of an interrupt is told to the controller of its line by a byte that names the line there,
-- and for the second controller also to the first, by its own line; a number above 15 sends nothing.
pub send_eoi-names :
    (irq : ℕ)
    → send_eoi irq ≡ (
        if ltb irq 8
        then outb (eoi + irq) master_port ∷ []
        else if ltb irq 16
        then outb (eoi + (irq - 8)) slave_port ∷ outb (eoi + 2) master_port ∷ []
        else [])
unfolding send_eoi each_below
send_eoi-names irq = ground (arith, low irq, low (irq - 8))
  where
    low : (n : ℕ) → n < 8 → bit_or n eoi ≡ eoi + n
    low n h = (==_iff _ _).0 (each_below-holds 8 (λ n. bit_or n eoi == eoi + n) n refl h)
