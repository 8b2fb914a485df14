-- ===== src/Strings/Compare.antt =====
-- When strncmp_unsigned answers 0.
use unix_operation_system.Prelude.{
  ℕ, zero, suc, ◌+◌, ◌≤◌, ◌<◌, ◌≡◌, ◌≢◌, ◌↔◌, refl, inl, inr, arith, ◌==◌, Bool-cases,
}
use unix_operation_system.Prelude.Int.{pos}
use unix_operation_system.Memory.{Memory}
use unix_operation_system.Strings.{strncmp_loop, strncmp_unsigned}

-- The two strings have the same bytes as far as the first ends, `n` bytes at most.
abbrev pub SamePrefix : Memory → ℕ → ℕ → ℕ → Type 0
SamePrefix m a b n = (i : ℕ) → i < n → ((j : ℕ) → j < i → m (a + j) ≢ 0) → m (a + i) ≡ m (b + i)

abbrev SameFrom : Memory → ℕ → ℕ → ℕ → ℕ → Type 0
SameFrom m a b i k =
    (j : ℕ) → i ≤ j → j < i + k → ((l : ℕ) → i ≤ l → l < j → m (a + l) ≢ 0) → m (a + j) ≡ m (b + j)

module _ (m : Memory) (a b : ℕ) where
  SameFrom-of_zero : (k i : ℕ) → strncmp_loop k m a b i ≡ pos 0 → SameFrom m a b i k
  unfolding strncmp_loop
  SameFrom-of_zero zero i e j p q r = absurd (omega arith)
  SameFrom-of_zero (suc k) i e j p q r = elim (Bool-cases (i == j)) [
    | inl s ↦ ground arith
    | inr d ↦ elim (Bool-cases (m (a + i) == 0)) [
      | inl nul ↦ absurd (r i (omega arith) (ground arith) (ground arith))
      | inr c ↦
          SameFrom-of_zero k (i + 1) (ground arith) j (ground arith) (omega arith)
            (λ l x y. r l (omega arith) y)
    ]
  ]

  zero-of_SameFrom : (k i : ℕ) → SameFrom m a b i k → strncmp_loop k m a b i ≡ pos 0
  unfolding strncmp_loop
  zero-of_SameFrom zero i same = refl
  zero-of_SameFrom (suc k) i same = elim (Bool-cases (m (a + i) == 0)) [
    | inl nul ↦
        let e : m (a + i) ≡ m (b + i) =
          same i (omega arith) (omega arith) (λ l x y. absurd (omega arith)) in
        ground arith
    | inr c ↦
        let e : m (a + i) ≡ m (b + i) =
          same i (omega arith) (omega arith) (λ l x y. absurd (omega arith)) in
        let rest : strncmp_loop k m a b (i + 1) ≡ pos 0 = zero-of_SameFrom k (i + 1) λ j p q r.
          same j (omega arith) (omega arith) (λ l x y. elim (Bool-cases (i == l)) [
            | inl s ↦ ground arith
            | inr d ↦ r l (ground arith) y
          ]) in
        ground arith
  ]

-- strncmp_unsigned returns 0 exactly when the two strings agree up to the NUL of the first or to
-- `n` bytes.
pub strncmp_unsigned-zero :
    (m : Memory) (a b n : ℕ) → (strncmp_unsigned m a b n ≡ pos 0) ↔ SamePrefix m a b n
unfolding strncmp_unsigned
strncmp_unsigned-zero m a b n = (
  λ e i p q. SameFrom-of_zero m a b n 0 e i (omega arith) (omega arith) (λ l x y. q l y),
  λ same. zero-of_SameFrom m a b n 0 λ j p q r. same j (omega arith) (λ l y. r l (omega arith) y),
)
