-- ===== src/Prelude/Bits.antt =====
-- Facts about bit operations over small ranges, by evaluation.
use Prim.Native.Nat.{ℕ, zero, suc, ◌<◌}
use mathlib.Core.Path.{◌≡◌}
use mathlib.Core.Bool.{Bool, true, ◌&&◌}
use native.Mathlib.Omega.{arith}

-- Every number below the first argument passes the test.
unfoldable pub each_below : ℕ → (ℕ → Bool) → Bool
each_below zero test = true
each_below (suc k) test = each_below k test && test k

pub each_below-holds :
    (bound : ℕ) (test : ℕ → Bool) (n : ℕ) → each_below bound test ≡ true → n < bound → test n ≡ true
unfolding each_below
each_below-holds zero test n all lt = absurd (omega arith)
each_below-holds (suc k) test n all lt = ground (arith, each_below-holds k test n)
