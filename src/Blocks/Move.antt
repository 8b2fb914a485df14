-- ===== src/Blocks/Move.antt =====
-- memmove of student-distrib/lib.c, between regions that may overlap.
use unix_operation_system.Prelude.{
  ℕ, zero, suc, ◌+◌, ◌≤◌, ◌<◌, ◌≡◌, refl, ◌∙◌, inl, inr, arith, Bool, true, false, leb, Bool-cases,
  ◌==◌, if◌then◌else◌, each_branch,
}
use unix_operation_system.Memory.{Memory, write, SameOutside}
use unix_operation_system.Blocks.{memcpy_loop, Moved}

-- `rep movsb` with the direction flag set: the last byte goes first.
unfoldable pub movsb_down : ℕ → Memory → ℕ → ℕ → Memory
movsb_down zero m dest src = m
movsb_down (suc n) m dest src = movsb_down n (write m (dest + n) (m (src + n))) dest src

-- The memory and the direction flag when the function returns
pub memmove : Memory → ℕ → ℕ → ℕ → Memory × Bool
memmove m dest src n =
    if leb dest src then (memcpy_loop n m dest src, false) else (movsb_down n m dest src, true)

up-outside : (n : ℕ) (m : Memory) (d e : ℕ) → SameOutside d n m (memcpy_loop n m d e)
unfolding memcpy_loop
up-outside zero m d e p o = refl
up-outside (suc n) m d e p o =
    up-outside n (write m d (m e)) (d + 1) (e + 1) p (omega arith) ∙ ground arith

up-inside :
    (n : ℕ) (m : Memory) (d e i : ℕ) → d ≤ e → i < n → memcpy_loop n m d e (d + i) ≡ m (e + i)
unfolding memcpy_loop
up-inside zero m d e i le h = absurd (omega arith)
up-inside (suc n) m d e zero le h =
    up-outside n (write m d (m e)) (d + 1) (e + 1) (d + 0) (omega arith) ∙ ground arith
up-inside (suc n) m d e (suc i) le h =
    let shift : d + suc i ≡ d + 1 + i = omega arith in
    rw shift
      (up-inside n (write m d (m e)) (d + 1) (e + 1) i (omega arith) (omega arith) ∙ ground arith)

down-outside : (n : ℕ) (m : Memory) (d e : ℕ) → SameOutside d n m (movsb_down n m d e)
unfolding movsb_down
down-outside zero m d e p o = refl
down-outside (suc n) m d e p o =
    down-outside n (write m (d + n) (m (e + n))) d e p (omega arith) ∙ ground arith

down-inside :
    (n : ℕ) (m : Memory) (d e i : ℕ) → e < d → i < n → movsb_down n m d e (d + i) ≡ m (e + i)
unfolding movsb_down
down-inside zero m d e i lt h = absurd (omega arith)
down-inside (suc n) m d e i lt h =
    let m' = write m (d + n) (m (e + n)) in
    elim (Bool-cases (i == n)) [
      | inl last ↦ down-outside n m' d e (d + i) (ground (arith, last)) ∙ ground (arith, last)
      | inr d' ↦ down-inside n m' d e i lt (ground (arith, d')) ∙ ground (arith, d', h)
    ]

-- memmove copies every byte, however source and destination overlap, and changes no other.
pub memmove-Moved : (m : Memory) (dest src n : ℕ) → Moved m dest src n (memmove m dest src n).0
unfolding memmove
memmove-Moved m dest src n =
    each_branch (λ (r : Memory × Bool). Moved m dest src n r.0) (leb dest src)
      (λ e. record {
        inside = λ i h. up-inside n m dest src i (ground (arith, e)) h;
        outside = up-outside n m dest src;
      })
      (λ e. record {
        inside = λ i h. down-inside n m dest src i (ground (arith, e)) h;
        outside = down-outside n m dest src;
      })
