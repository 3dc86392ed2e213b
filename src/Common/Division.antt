-- ===== src/Common/Division.antt =====
-- Division of natural numbers and the order.
use Prim.Native.Nat.{ℕ, ◌+◌, ◌*◌, ◌/◌, ◌≤◌, ◌<◌}
use mathlib.Core.Path.{sym, subst}
use native.Mathlib.Nat.{le-div_iff_mul-le, div-mul-le_self, add-mul}
use native.Mathlib.Omega.{arith}

pub le_div : (x y k : ℕ) → 0 < k → x * k ≤ y → x ≤ y / k
le_div x y k p h = (le-div_iff_mul-le p).1 h

pub div_mono : (a b k : ℕ) → 0 < k → a ≤ b → a / k ≤ b / k
div_mono a b k p h = le_div (a / k) b k p (omega (arith, div-mul-le_self a k, h))

pub div_add : (a b k : ℕ) → 0 < k → a / k + b / k ≤ (a + b) / k
div_add a b k p = le_div (a / k + b / k) (a + b) k p (
    subst (λ x. x ≤ a + b) (sym (add-mul (a / k) (b / k) k))
      (omega (arith, div-mul-le_self a k, div-mul-le_self b k)))
