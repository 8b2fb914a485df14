-- ===== src/Prelude/Int.antt =====
-- The signed numbers of the source: an `int32_t` is the integer that it stands for.
use Prim.Native.Nat.{ℕ, suc, ◌-◌, ◌^◌}
use mathlib.Core.Bool.{Bool, true, false}
use unix_operation_system.Prelude.Tests.{ltb, leb, ◌==◌, if◌then◌else◌}

-- `negsuc n` is -(n + 1).
pub data ℤ : Type 0 where
  pos : ℕ → ℤ
  negsuc : ℕ → ℤ

-- The -1 by which the system calls fail.
abbrev pub fail : ℤ
fail = negsuc 0

-- a - b, as an integer.
abbrev pub sub_ℕ : ℕ → ℕ → ℤ
sub_ℕ a b = if leb b a then pos (a - b) else negsuc (b - a - 1)

abbrev pub is_negative : ℤ → Bool
is_negative (pos n) = false
is_negative (negsuc n) = true

-- `a < k` and `k < a` at a number `k`.
abbrev pub below : ℤ → ℕ → Bool
below (pos n) k = ltb n k
below (negsuc n) k = true

abbrev pub above : ℤ → ℕ → Bool
above (pos n) k = ltb k n
above (negsuc n) k = false

abbrev pub is_nat : ℤ → ℕ → Bool
is_nat (pos n) k = n == k
is_nat (negsuc n) k = false

abbrev pub is_fail : ℤ → Bool
is_fail (pos n) = false
is_fail (negsuc n) = n == 0

-- The value as an array index; it is used behind the tests that a negative number fails.
abbrev pub to_nat : ℤ → ℕ
to_nat (pos n) = n
to_nat (negsuc n) = 0

-- The bits of an `int32_t` read as a `uint32_t`.
abbrev pub to_u32 : ℤ → ℕ
to_u32 (pos n) = n
to_u32 (negsuc n) = 2 ^ 32 - suc n

-- A `uint8_t` bit pattern read as an `int8_t`.
abbrev pub signed8 : ℕ → ℤ
signed8 c = if ltb c 128 then pos c else negsuc (255 - c)
