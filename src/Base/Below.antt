-- ===== src/Base/Below.antt =====
-- A test of all numbers below a bound, which is evaluated.
use Prim.Native.Nat.{ℕ, zero, suc, ◌<◌}
use mathlib.Core.Path.{◌≡◌}
use mathlib.Core.Bool.{Bool, true, ◌&&◌}
use native.Mathlib.Omega.{arith}

unfoldable pub all_below : (k : ℕ) → (ℕ → Bool) → Bool
all_below zero p = true
all_below (suc k) p = p k && all_below k p

pub all_below_lem : (k : ℕ) (p : ℕ → Bool) (n : ℕ) → all_below k p ≡ true → n < k → p n ≡ true
unfolding all_below
all_below_lem zero p n e h = absurd (omega arith)
all_below_lem (suc k) p n e h = ground (arith, all_below_lem k p n)
