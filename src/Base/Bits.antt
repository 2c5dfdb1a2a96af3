-- ===== src/Base/Bits.antt =====
-- A test that holds of each of the first numbers, found by running it.
use Prim.Native.Nat.{ℕ, zero, suc, ◌<◌}
use mathlib.Core.Path.{◌≡◌}
use mathlib.Core.Bool.{Bool, true, false}
use native.Mathlib.Omega.{arith}
use unix_like_file_system.Base.Tests.{if◌then◌else◌}

unfoldable pub holds_below : ℕ → (ℕ → Bool) → Bool
holds_below zero test = true
holds_below (suc bound) test =
    let rest = holds_below bound test in if test bound then rest else false

pub holds_below_lem :
    (bound : ℕ) (test : ℕ → Bool) (k : ℕ)
    → holds_below bound test ≡ true
    → k < bound
    → test k ≡ true
unfolding holds_below
holds_below_lem zero test k passed inside = absurd (omega arith)
holds_below_lem (suc bound) test k passed inside = ground (arith, holds_below_lem bound test k)
