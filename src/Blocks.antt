-- ===== src/Blocks.antt =====
-- memset and memcpy of student-distrib/lib.c, byte by byte in the order of their loops.
pub mod Words
pub mod Wide
pub mod Move
mod Tests
use unix_operation_system.Prelude.{
  ℕ, zero, suc, ◌+◌, ◌-◌, ◌%◌, ◌≤◌, ◌<◌, ◌≡◌, refl, ◌∙◌, ◌⊎◌, inl, inr, arith, ltb, Bool-cases,
  ◌==◌, if◌then◌else◌,
}
use unix_operation_system.Memory.{Memory, write, Apart, SameOutside}

-- `n` bytes before the end
unfoldable pub memset_loop : ℕ → Memory → ℕ → ℕ → Memory
memset_loop zero m s c = m
memset_loop (suc n) m s c = memset_loop n (write m s c) (s + 1) c

unfoldable pub memset : Memory → ℕ → ℕ → ℕ → Memory
memset m s c n = memset_loop n m s (c % 256)

pub memcpy_loop : ℕ → Memory → ℕ → ℕ → Memory
memcpy_loop zero m dest src = m
memcpy_loop (suc n) m dest src = memcpy_loop n (write m dest (m src)) (dest + 1) (src + 1)

pub memcpy : Memory → ℕ → ℕ → ℕ → Memory
memcpy m dest src n = memcpy_loop n m dest src

memset_loop-outside :
    (n : ℕ) (m : Memory) (s c p : ℕ) → (p < s) ⊎ (s + n ≤ p) → memset_loop n m s c p ≡ m p
unfolding memset_loop
memset_loop-outside zero m s c p o = refl
memset_loop-outside (suc n) m s c p o =
    memset_loop-outside n (write m s c) (s + 1) c p (omega arith) ∙ ground arith

memset_loop-inside : (n : ℕ) (m : Memory) (s c i : ℕ) → i < n → memset_loop n m s c (s + i) ≡ c
unfolding memset_loop
memset_loop-inside zero m s c i h = absurd (omega arith)
memset_loop-inside (suc n) m s c zero h =
    memset_loop-outside n (write m s c) (s + 1) c (s + 0) (omega arith) ∙ ground arith
memset_loop-inside (suc n) m s c (suc i) h =
    let shift : s + suc i ≡ s + 1 + i = omega arith in
    rw shift (memset_loop-inside n (write m s c) (s + 1) c i (omega arith))

-- The memory after `n` bytes at `s` are set to `c`
pub record Set (m : Memory) (s c n : ℕ) (m' : Memory) : Type 0 where
  pub inside : (i : ℕ) → i < n → m' (s + i) ≡ c
  pub outside : SameOutside s n m m'

-- memset sets its bytes to the low byte of `c`, and no other.
pub memset-Set : (m : Memory) (s c n : ℕ) → Set m s (c % 256) n (memset m s c n)
unfolding memset
memset-Set m s c n = record {
  inside = memset_loop-inside n m s (c % 256);
  outside = memset_loop-outside n m s (c % 256);
}

memcpy_loop-outside :
    (n : ℕ) (m : Memory) (dest src p : ℕ)
    → (p < dest) ⊎ (dest + n ≤ p)
    → memcpy_loop n m dest src p ≡ m p
unfolding memcpy_loop
memcpy_loop-outside zero m dest src p o = refl
memcpy_loop-outside (suc n) m dest src p o =
    memcpy_loop-outside n (write m dest (m src)) (dest + 1) (src + 1) p (omega arith) ∙ ground arith

memcpy_loop-inside :
    (n : ℕ) (m : Memory) (dest src i : ℕ)
    → Apart src n dest n
    → i < n
    → memcpy_loop n m dest src (dest + i) ≡ m (src + i)
unfolding memcpy_loop
memcpy_loop-inside zero m dest src i apart h = absurd (omega arith)
memcpy_loop-inside (suc n) m dest src zero apart h =
    memcpy_loop-outside n (write m dest (m src)) (dest + 1) (src + 1) (dest + 0) (omega arith)
    ∙ ground arith
memcpy_loop-inside (suc n) m dest src (suc i) apart h =
    let shift : dest + suc i ≡ dest + 1 + i = omega arith in
    rw shift (
      memcpy_loop-inside n (write m dest (m src)) (dest + 1) (src + 1) i (omega arith) (omega arith)
      ∙ ground arith)

-- The memory after `n` bytes are copied
pub record Moved (m : Memory) (dest src n : ℕ) (m' : Memory) : Type 0 where
  pub inside : (i : ℕ) → i < n → m' (dest + i) ≡ m (src + i)
  pub outside : SameOutside dest n m m'

-- Between regions that are apart, memcpy copies every byte and changes no other.
pub memcpy-Moved :
    (m : Memory) (dest src n : ℕ) → Apart src n dest n → Moved m dest src n (memcpy m dest src n)
unfolding memcpy
memcpy-Moved m dest src n apart = record {
  inside = λ i h. memcpy_loop-inside n m dest src i apart h;
  outside = memcpy_loop-outside n m dest src;
}
