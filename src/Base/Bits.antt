-- ===== src/Base/Bits.antt =====
-- Facts on `&`, `|` and `^` of small numbers, by evaluating a test at each of them.
use Prim.Native.Nat.{ℕ, zero, suc, ◌<◌}
use mathlib.Core.Path.{◌≡◌}
use mathlib.Core.Bool.{Bool, true, false}
use native.Mathlib.Omega.{arith}
use civetweb.Base.Tests.{if◌then◌else◌}

-- The test holds of the numbers up to a bound, from the bound down.
unfoldable pub holds_up_to : ℕ → (ℕ → Bool) → Bool
holds_up_to zero test = true
holds_up_to (suc bound) test =
    let below = holds_up_to bound test in if test bound then below else false

pub holds_up_to-true :
    (bound : ℕ) (test : ℕ → Bool) (k : ℕ)
    → holds_up_to bound test ≡ true
    → k < bound
    → test k ≡ true
unfolding holds_up_to
holds_up_to-true zero test k e less = absurd (omega arith)
holds_up_to-true (suc bound) test k e less =
    let below = holds_up_to-true bound test k in ground (arith, below)
