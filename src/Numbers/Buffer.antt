-- ===== src/Numbers/Buffer.antt =====
-- itoa of student-distrib/lib.c leaves its characters in the buffer, as a string.
use mathlib.Core.List.{reverse, reverse-cons}
use unix_operation_system.Prelude.{
  ℕ, zero, suc, ◌+◌, ◌-◌, ◌/◌, ◌%◌, ◌^◌, ◌≤◌, ◌<◌, ◌≡◌, ◌≢◌, refl, sym, ap, ◌∙◌, inl, inr, arith,
  some, List, [], ◌∷◌, ◌++◌, ◌==◌, Bool-cases, if◌then◌else◌, get_or, length,
}
use unix_operation_system.Memory.{Memory, write, IsString, SameOutside, max_rounds, lt-max_rounds}
use unix_operation_system.Strings.Reverse.{Reversed-IsString, strrev-Reversed}
use unix_operation_system.Numbers.{digit, itoa_loop, itoa, write_digits, itoa_buffer}

pub length-append : (xs : List ℕ) (c : ℕ) → length (xs ++ (c ∷ [])) ≡ length xs + 1
length-append [] c = refl
length-append (x ∷ xs) c = ground (arith, length-append xs c)

length-reverse : (xs : List ℕ) → length (reverse xs) ≡ length xs
length-reverse [] = refl
length-reverse (x ∷ xs) =
    rw (reverse-cons x xs) (length-append (reverse xs) x ∙ ground (arith, length-reverse xs))

pub get_or-append :
    (xs : List ℕ) (c i : ℕ)
    → get_or (xs ++ (c ∷ [])) i 0 ≡ (if i == length xs then c else get_or xs i 0)
get_or-append [] c zero = refl
get_or-append [] c (suc i) = ground arith
get_or-append (x ∷ xs) c zero = ground arith
get_or-append (x ∷ xs) c (suc i) = ground (arith, get_or-append xs c i)

get_or-reverse :
    (xs : List ℕ) (i : ℕ)
    → i < length xs
    → get_or (reverse xs) i 0 ≡ get_or xs (length xs - 1 - i) 0
get_or-reverse [] i h = absurd (omega arith)
get_or-reverse (x ∷ xs) i h = rw (reverse-cons x xs) (
    get_or-append (reverse xs) x i
    ∙ rw (length-reverse xs) (elim (Bool-cases (i == length xs)) [
      | inl last ↦
          let first : suc (length xs) - 1 - i ≡ 0 = ground (arith, last) in rw (last, first) refl
      | inr n ↦
          let later : suc (length xs) - 1 - i ≡ suc (length xs - 1 - i) = ground (arith, n, h) in
          rw (n, later) (get_or-reverse xs i (ground (arith, n, h)))
    ]))

-- At `buf` stand the characters of a list.
abbrev pub Holds : Memory → ℕ → List ℕ → Type 0
Holds m buf cs = (i : ℕ) → i < length cs → m (buf + i) ≡ get_or cs i 0

write_digits-end :
    (f : ℕ) (m : Memory) (v b r : ℕ) → (write_digits f m v b r).1 ≡ b + length (itoa_loop f v r)
unfolding write_digits itoa_loop
write_digits-end zero m v b r = omega arith
write_digits-end (suc f) m v b r =
    ground (arith, write_digits-end f (write m b (digit (v % r))) (v / r) (b + 1) r)

write_digits-outside :
    (f : ℕ) (m : Memory) (v b r : ℕ)
    → SameOutside b (length (itoa_loop f v r)) m (write_digits f m v b r).0
unfolding write_digits itoa_loop
write_digits-outside zero m v b r p o = refl
write_digits-outside (suc f) m v b r p o =
    ground (arith, o, write_digits-outside f (write m b (digit (v % r))) (v / r) (b + 1) r p)

-- The digit at `b`, and those behind it
digit_first :
    (f : ℕ) (m : Memory) (v b r i : ℕ)
    → let m' = write m b (digit (v % r)) in
      let ds = itoa_loop f (v / r) r in
      let last = (write_digits f m' (v / r) (b + 1) r).0 in
      Holds last (b + 1) ds → i < suc (length ds) → last (b + i) ≡ get_or (digit (v % r) ∷ ds) i 0
digit_first f m v b r zero later h =
    let m' = write m b (digit (v % r)) in
    write_digits-outside f m' (v / r) (b + 1) r (b + 0) (omega arith) ∙ ground arith
digit_first f m v b r (suc i) later h =
    let last = (write_digits f (write m b (digit (v % r))) (v / r) (b + 1) r).0 in
    ap last (omega arith) ∙ later i (omega arith)

write_digits-Holds :
    (f : ℕ) (m : Memory) (v b r : ℕ) → Holds (write_digits f m v b r).0 b (itoa_loop f v r)
unfolding write_digits itoa_loop
write_digits-Holds zero m v b r = λ i h. absurd (omega arith)
write_digits-Holds (suc f) m v b r = elim (Bool-cases (v == 0)) [
  | inl z ↦ rw z (λ i h. absurd (omega arith))
  | inr n ↦ rw n (λ i h.
      digit_first f m v b r i (write_digits-Holds f (write m b (digit (v % r))) (v / r) (b + 1) r)
        h)
]

chars_cons :
    (c : ℕ) (cs : List ℕ) (i : ℕ)
    → c ≢ 0
    → ((j : ℕ) → j < length cs → get_or cs j 0 ≢ 0)
    → i < suc (length cs)
    → get_or (c ∷ cs) i 0 ≢ 0
chars_cons c cs zero some_c all h = some_c
chars_cons c cs (suc i) some_c all h = all i (omega arith)

digits-chars : (f v r i : ℕ) → i < length (itoa_loop f v r) → get_or (itoa_loop f v r) i 0 ≢ 0
unfolding itoa_loop digit
digits-chars zero v r i h = absurd (omega arith)
digits-chars (suc f) v r i h = elim (Bool-cases (v == 0)) [
  | inl z ↦ absurd (ground (arith, z, h))
  | inr n ↦ rw n (
      chars_cons (digit (v % r)) (itoa_loop f (v / r) r) i (ground arith)
        (λ j h'. digits-chars f (v / r) r j h') (rw n at h))
]

digits_bound : (f v r : ℕ) → length (itoa_loop f v r) ≤ f
unfolding itoa_loop
digits_bound zero v r = omega arith
digits_bound (suc f) v r = ground (arith, digits_bound f (v / r) r)

zero_digit :
    (m : Memory) (buf i : ℕ)
    → i < 1
    → write (write m buf b'0') (buf + 1) 0 (buf + i) ≡ get_or (b'0' ∷ []) i 0
zero_digit m buf zero h = ground arith
zero_digit m buf (suc i) h = absurd (omega arith)

-- In a radix from 2 to 36, itoa of a 32-bit number ends and leaves in the buffer the number's
-- characters as a string, its first digit first, and changes no other byte.
pub itoa_buffer-Holds :
    (m : Memory) (value buf radix : ℕ)
    → value < 2 ^ 32
    → 2 ≤ radix
    → radix ≤ 36
    → (m' : Memory) × (itoa_buffer m value buf radix ≡ some m')
      × Holds m' buf (itoa value radix)
      × IsString m' buf (length (itoa value radix))
      × SameOutside buf (length (itoa value radix) + 1) m m'
unfolding itoa_buffer itoa
itoa_buffer-Holds m value buf radix lt lo hi = elim (Bool-cases (value == 0)) [
  | inl z ↦ rw z (
    write (write m buf b'0') (buf + 1) 0,
    refl,
    λ i h. zero_digit m buf i h,
    record { ends = ground arith; goes_on = λ i h. ground (arith, h) },
    λ p o. ground (arith, o),
  )
  | inr n ↦
      let ds = itoa_loop 32 value radix in
      let w = (write_digits 32 m value buf radix).0 in
      let end = (write_digits 32 m value buf radix).1 in
      let at : end ≡ buf + length ds = write_digits-end 32 m value buf radix in
      let written = write w end 0 in
      let holds : Holds written buf ds =
        λ i h. ground (arith, at, h, write_digits-Holds 32 m value buf radix i h) in
      let string : IsString written buf (length ds) = record {
        ends = ground (arith, at);
        goes_on = λ i h z. digits-chars 32 value radix i h (sym (holds i h) ∙ z);
      } in
      let short : length ds < max_rounds =
        lt-max_rounds (length ds) (omega (arith, digits_bound 32 value radix)) in
      let turned = strrev-Reversed short written string in
      let m' = turned.0 in
      let same : length (reverse ds) ≡ length ds = length-reverse ds in
      let result : Holds m' buf (reverse ds) = λ i h.
        turned.2.chars i (rw same at h)
        ∙ holds (length ds - 1 - i) (omega (arith, same))
        ∙ sym (get_or-reverse ds i (rw same at h)) in
      rw n (
        m',
        turned.1,
        result,
        rw same (Reversed-IsString short string turned.2),
        rw same (λ p o.
            turned.2.outside p (omega arith)
            ∙ ground (arith, at, o)
            ∙ write_digits-outside 32 m value buf radix p (omega arith)),
      )
]
