-- ===== src/Dag/Pow/Product.antt =====
-- The schoolbook product on limbs, against the product of the numbers.
use kovanica_node.Common.{
  ℕ, ◌+◌, ◌-◌, ◌*◌, ◌/◌, ◌%◌, ◌^◌, ◌≤◌, ◌<◌, ◌≡◌, refl, Bool, true, false, List, [], ◌∷◌, All, ◌==◌,
  if◌then◌else◌, arith,
}
use native.Mathlib.Nat.{mul-le-mul_left, mul-le-mul_right}
use kovanica_node.Dag.Pow.{propagate, row, rows}

-- The number of limbs read from the least significant.
unfoldable pub value : List ℕ → ℕ
value [] = 0
value (p ∷ prod) = p + 2 ^ 64 * value prod

-- One more than the largest number of as many limbs.
unfoldable pub size : List ℕ → ℕ
size [] = 1
size (p ∷ prod) = 2 ^ 64 * size prod

abbrev pub IsLimb : ℕ → Type 0
IsLimb n = n < 2 ^ 64

All-if :
    (b : Bool) (xs ys : List ℕ) → All IsLimb xs → All IsLimb ys → All IsLimb (if b then xs else ys)
All-if true xs ys p q = p
All-if false xs ys p q = q

-- The limbs hold the number `n`, with no digit lost.
pub record Holds (prod : List ℕ) (n top : ℕ) : Type 0 where
  pub reads : value prod ≡ n
  pub limbs : All IsLimb prod
  pub width : size prod ≡ top

propagate-Holds :
    (carry : ℕ) (prod : List ℕ)
    → IsLimb carry
    → All IsLimb prod
    → value prod + carry < size prod
    → Holds (propagate carry prod) (value prod + carry) (size prod)
unfolding propagate value size
propagate-Holds carry [] c ps fit = record { reads = omega (arith, fit); limbs = tt; width = refl }
propagate-Holds carry (p ∷ prod) c (l, ps) fit =
    let carry' = (p + carry) % 2 ^ 128 / 2 ^ 64 % 2 ^ 64 in
    let bounded : IsLimb carry' = omega arith in
    let low : IsLimb ((p + carry) % 2 ^ 128 % 2 ^ 64) = omega arith in
    let rest = propagate-Holds carry' prod bounded ps (omega (arith, fit, l, c)) in
    record {
      reads = ground (arith, rest.reads, l, c);
      limbs =
          All-if (carry == 0) (p ∷ prod) ((p + carry) % 2 ^ 128 % 2 ^ 64 ∷ propagate carry' prod)
            (l, ps) (low, rest.limbs);
      width = ground (arith, rest.width);
    }

le_pred : (a : ℕ) → IsLimb a → a ≤ 2 ^ 64 - 1
le_pred a l = omega (arith, l)

product_bound : (a b : ℕ) → IsLimb a → IsLimb b → a * b ≤ (2 ^ 64 - 1) * (2 ^ 64 - 1)
product_bound a b la lb =
    omega (arith, mul-le-mul_left a (le_pred b lb), mul-le-mul_right (2 ^ 64 - 1) (le_pred a la))

row-Holds :
    (hi : ℕ) (w : List ℕ) (carry : ℕ) (prod : List ℕ)
    → IsLimb hi
    → All IsLimb w
    → IsLimb carry
    → All IsLimb prod
    → value prod + hi * value w + carry < size prod
    → Holds (row hi w carry prod) (value prod + hi * value w + carry) (size prod)
unfolding row value size
row-Holds hi [] carry prod h ws c ps fit =
    let r = propagate-Holds carry prod c ps (omega (arith, fit)) in
    record { reads = omega (arith, r.reads); limbs = r.limbs; width = r.width }
row-Holds hi (wj ∷ w) carry [] h (lw, ws) c ps fit = record {
  reads = omega (arith, fit);
  limbs = tt;
  width = refl;
}
row-Holds hi (wj ∷ w) carry (p ∷ prod) h (lw, ws) c (l, ps) fit =
    let m = (hi * wj + p + carry) % 2 ^ 128 in
    let small : hi * wj + p + carry < 2 ^ 128 = omega (arith, product_bound hi wj h lw, l, c) in
    let split : hi * (wj + 2 ^ 64 * value w) ≡ hi * wj + 2 ^ 64 * (hi * value w) = omega arith in
    let low : IsLimb (m % 2 ^ 64) = omega arith in
    let rest =
      row-Holds hi w (m / 2 ^ 64 % 2 ^ 64) prod h ws (omega arith) ps
        (omega (arith, fit, split, small)) in
    record {
      reads = omega (arith, rest.reads, split, small);
      limbs = (low, rest.limbs);
      width = omega (arith, rest.width);
    }

-- The first limb of a row is final, and the next row works on the others.
next-Holds :
    (h w r : List ℕ) (n top : ℕ)
    → ((rest : List ℕ)
        → All IsLimb rest
        → value rest + value h * value w < size rest
        → Holds (rows h w rest) (value rest + value h * value w) (size rest))
    → Holds r n top
    → n + 2 ^ 64 * (value h * value w) < top
    → Holds
        (elim r [ [] ↦ [] | p ∷ rest ↦ p ∷ rows h w rest ])
        (n + 2 ^ 64 * (value h * value w))
        top
unfolding value size
next-Holds h w [] n top ih r fit = record {
  reads = omega (arith, fit, r.width, r.reads);
  limbs = tt;
  width = r.width;
}
next-Holds h w (p ∷ rest) n top ih r fit =
    let i = ih rest r.limbs.1 (omega (arith, fit, r.width, r.reads)) in
    record {
      reads = omega (arith, i.reads, r.reads);
      limbs = (r.limbs.0, i.limbs);
      width = omega (arith, i.width, r.width);
    }

pub rows-Holds :
    (h w prod : List ℕ)
    → All IsLimb h
    → All IsLimb w
    → All IsLimb prod
    → value prod + value h * value w < size prod
    → Holds (rows h w prod) (value prod + value h * value w) (size prod)
unfolding rows value size
rows-Holds [] w prod hs ws ps fit = record { reads = omega arith; limbs = ps; width = refl }
rows-Holds (hi ∷ h) w prod (lh, hs) ws ps fit =
    let r = row-Holds hi w 0 prod lh ws (omega arith) ps (omega (arith, fit)) in
    let all =
      next-Holds h w (row hi w 0 prod) (value prod + hi * value w + 0) (size prod)
        (λ rest. rows-Holds h w rest hs ws) r (omega (arith, fit)) in
    record { reads = omega (arith, all.reads); limbs = all.limbs; width = all.width }
