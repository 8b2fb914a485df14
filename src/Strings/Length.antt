-- ===== src/Strings/Length.antt =====
-- What strlen_unsigned counts.
use unix_operation_system.Prelude.{ℕ, zero, suc, ◌+◌, ◌≤◌, ◌<◌, ◌≡◌, some, arith}
use unix_operation_system.Memory.{Memory, IsString, max_rounds}
use unix_operation_system.Strings.{strlen_loop, strlen_unsigned}

module _ {m : Memory} {s n : ℕ} (str : IsString m s n) where
  pub strlen_loop-IsString : (f i : ℕ) → i ≤ n → n < i + f → strlen_loop f m s i ≡ some n
  unfolding strlen_loop
  strlen_loop-IsString zero i h fuel = absurd (omega arith)
  strlen_loop-IsString (suc f) i h fuel =
      ground (arith, str.goes_on i, str.ends, strlen_loop-IsString f (i + 1))

  -- strlen_unsigned of a string that is shorter than the address space ends and returns the
  -- number of characters before the NUL.
  pub strlen_unsigned-IsString : n < max_rounds → strlen_unsigned m s ≡ some n
  unfolding strlen_unsigned
  strlen_unsigned-IsString fits = strlen_loop-IsString max_rounds 0 (omega arith) (omega arith)
