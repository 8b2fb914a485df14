-- ===== src/Programs/Bytes.antt =====
-- Consecutive bytes as a list
use unix_operation_system.Prelude.{
  ℕ, zero, suc, ◌+◌, ◌<◌, ◌≡◌, refl, ap, ◌∙◌, arith, List, [], ◌∷◌, ◌++◌, length, get_or,
}

-- `n` bytes from `a` on
abbrev pub bytes_from : (ℕ → ℕ) → ℕ → ℕ → List ℕ
bytes_from f a zero = []
bytes_from f a (suc n) = f a ∷ bytes_from f (a + 1) n

pub length-bytes_from : (f : ℕ → ℕ) (a n : ℕ) → length (bytes_from f a n) ≡ n
length-bytes_from f a zero = refl
length-bytes_from f a (suc n) = ground (arith, length-bytes_from f (a + 1) n)

pub get_or-bytes_from : (f : ℕ → ℕ) (a n i : ℕ) → i < n → get_or (bytes_from f a n) i 0 ≡ f (a + i)
get_or-bytes_from f a zero i h = absurd (omega arith)
get_or-bytes_from f a (suc n) zero h = ap f (omega arith)
get_or-bytes_from f a (suc n) (suc i) h =
    get_or-bytes_from f (a + 1) n i (omega arith) ∙ ap f (omega arith)

pub bytes_from-append :
    (f : ℕ → ℕ) (a n k : ℕ) → bytes_from f a n ++ bytes_from f (a + n) k ≡ bytes_from f a (n + k)
bytes_from-append f a zero k =
    let p : a + 0 ≡ a = omega arith in let q : 0 + k ≡ k = omega arith in rw (p, q) refl
bytes_from-append f a (suc n) k =
    let p : a + suc n ≡ a + 1 + n = omega arith in
    let q : suc n + k ≡ suc (n + k) = omega arith in
    rw (p, q) (ap (λ (r : List ℕ). f a ∷ r) (bytes_from-append f (a + 1) n k))
