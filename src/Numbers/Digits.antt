-- ===== src/Numbers/Digits.antt =====
-- The digits that itoa writes stand for its number.
use mathlib.Core.List.{reverse, reverse-cons}
use native.Mathlib.Nat.{pow-suc, div-mul-le_self, div-add-mod, mod-lt}
use unix_operation_system.Prelude.{
  ℕ, zero, suc, ◌+◌, ◌-◌, ◌*◌, ◌/◌, ◌%◌, ◌^◌, ◌≤◌, ◌<◌, ◌≡◌, refl, sym, ==→eq, ◌∙◌, inl, inr, List,
  [], ◌∷◌, ◌++◌, arith, ltb, ◌==◌, Bool-cases, if◌then◌else◌,
}
use unix_operation_system.Numbers.{digit, itoa_loop, itoa}

-- The value of a digit's character, and of a list of them with the lowest first
unfoldable pub digit_value : ℕ → ℕ
digit_value c = if ltb c b'A' then c - b'0' else c - b'A' + 10

unfoldable pub low_first : ℕ → List ℕ → ℕ
low_first radix [] = 0
low_first radix (c ∷ cs) = digit_value c + radix * low_first radix cs

-- Read from left to right, as a reader does
unfoldable pub read_number : ℕ → List ℕ → ℕ → ℕ
read_number radix [] acc = acc
read_number radix (c ∷ cs) acc = read_number radix cs (acc * radix + digit_value c)

digit_value-digit : (i : ℕ) → i < 36 → digit_value (digit i) ≡ i
unfolding digit_value digit
digit_value-digit i h = ground arith

read_number-append :
    (radix : ℕ) (xs : List ℕ) (c acc : ℕ)
    → read_number radix (xs ++ (c ∷ [])) acc ≡ read_number radix xs acc * radix + digit_value c
unfolding read_number
read_number-append radix [] c acc = refl
read_number-append radix (x ∷ xs) c acc =
    read_number-append radix xs c (acc * radix + digit_value x)

read_number-reverse :
    (radix : ℕ) (xs : List ℕ) → read_number radix (reverse xs) 0 ≡ low_first radix xs
unfolding read_number low_first
read_number-reverse radix [] = refl
read_number-reverse radix (x ∷ xs) =
    rw (reverse-cons x xs, read_number-append radix (reverse xs) x 0, read_number-reverse radix xs)
      (omega arith)

quotient_bound : (v radix h : ℕ) → 2 ≤ radix → v < h * 2 → v / radix < h
quotient_bound v radix h r b = grind (arith, div-mul-le_self)

low_first-itoa_loop :
    (f v radix : ℕ) → 2 ≤ radix → radix ≤ 36 → v < 2 ^ f → low_first radix (itoa_loop f v radix) ≡ v
unfolding low_first itoa_loop
low_first-itoa_loop zero v radix lo hi h = omega arith
low_first-itoa_loop (suc f) v radix lo hi h = elim (Bool-cases (v == 0)) [
  | inl z ↦ rw z (sym (==→eq v 0 z))
  | inr nz ↦
      let rest =
        low_first-itoa_loop f (v / radix) radix lo hi
          (quotient_bound v radix (2 ^ f) lo (rw pow-suc at h)) in
      rw
        (
          nz,
          rest,
          digit_value-digit (v % radix) (omega (arith, mod-lt v {m = radix} (omega arith))),
        )
        (omega (arith, div-add-mod v radix))
]

-- In a radix from 2 to 36, what itoa writes for a 32-bit number reads back, as a number in that
-- radix, as the number.
pub read_number-itoa :
    (value radix : ℕ)
    → value < 2 ^ 32
    → 2 ≤ radix
    → radix ≤ 36
    → read_number radix (itoa value radix) 0 ≡ value
unfolding itoa read_number digit_value
read_number-itoa value radix h lo hi = elim (Bool-cases (value == 0)) [
  | inl z ↦ rw z (zero ∙ sym (==→eq value 0 z))
  | inr nz ↦
      rw (nz, read_number-reverse radix (itoa_loop 32 value radix))
        (low_first-itoa_loop 32 value radix lo hi h)
]
  where
    zero : read_number radix (b'0' ∷ []) 0 ≡ 0
    zero = ground arith
