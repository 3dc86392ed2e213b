-- ===== src/Stake/Eligibility.antt =====
-- `eligibility_threshold` against exact arithmetic, and under a split of the stake.
use kovanica_node.Common.{
  ℕ, zero, suc, ◌+◌, ◌*◌, ◌/◌, ◌%◌, ◌^◌, ◌<◌, ◌≤◌, ◌≡◌, sym, ap, ◌∙◌, subst, min, max, ltb, ◌==◌,
  if◌then◌else◌, arith, inl, inr, Bool-cases,
}
use native.Mathlib.Nat.{zero-div, mod-eq_of_lt, mul-le-mul_right, add-mul, zero-mul}
use kovanica_node.Common.Words.{u64_max, u128_max, saturating_mul}
use kovanica_node.Common.Division.{le_div, div_mono, div_add}
use kovanica_node.Stake.State.{eligibility_threshold}

-- The threshold without a bound on the numbers: floor (floor (stake * 2^64 / total) * num / den).
abbrev pub exact : ℕ → ℕ → ℕ → ℕ → ℕ
exact stake total num den = stake * 2 ^ 64 / total * num / max den 1

product_le : (d : ℕ) → d ≤ u64_max → u64_max * d ≤ u128_max
product_le d h = omega arith

-- A product that saturates is past the cap after the division.
saturation :
    (x n d : ℕ)
    → 0 < d
    → d ≤ u64_max
    → min (saturating_mul u128_max x n / d) u64_max ≡ min (x * n / d) u64_max
saturation x n d p h = elim (Bool-cases (ltb u128_max (x * n))) [
  | inl big ↦
      let a = le_div u64_max u128_max d p (product_le d h) in
      let b = le_div u64_max (x * n) d p (ground (arith, product_le d h)) in ground (arith, a, b)
  | inr small ↦ ground arith
]

shift : (stake : ℕ) → stake ≤ u64_max → stake * 2 ^ 64 % 2 ^ 128 ≡ stake * 2 ^ 64
shift stake h = mod-eq_of_lt (omega arith)

unless_zero :
    {x y : ℕ} (stake total : ℕ)
    → 0 < total
    → x ≡ y
    → (if total == 0 then 0 else if suc stake == 0 then 0 else x) ≡ y
unless_zero stake total t e = ground (arith, e)

-- The shift, the saturating product and the division of the code give the exact share, capped at
-- the largest word, for stake and rate of 64 bits and a total that is not 0.
pub eligibility_threshold-exact :
    (stake total num den : ℕ)
    → 0 < total
    → stake ≤ u64_max
    → den ≤ u64_max
    → eligibility_threshold stake total num den ≡ min (exact stake total num den) u64_max
unfolding eligibility_threshold
eligibility_threshold-exact zero total num den t s d =
    ground (arith, zero-div total, zero-mul num, zero-div (max den 1))
eligibility_threshold-exact (suc stake) total num den t s d =
    let share = λ (y : ℕ). min (saturating_mul u128_max (y / total) num / max den 1) u64_max in
    let same : share (suc stake * 2 ^ 64 % 2 ^ 128)
        ≡ min (exact (suc stake) total num den) u64_max =
      ap share (shift (suc stake) s)
      ∙ saturation (suc stake * 2 ^ 64 / total) num (max den 1) (omega arith) (omega arith) in
    unless_zero stake total t same

exact_add :
    (a b total num den : ℕ)
    → 0 < total
    → exact a total num den + exact b total num den ≤ exact (a + b) total num den
exact_add a b total num den t =
    let share = div_add (a * 2 ^ 64) (b * 2 ^ 64) total t in
    let scaled = mul-le-mul_right num share in
    let both =
      div_add (a * 2 ^ 64 / total * num) (b * 2 ^ 64 / total * num) (max den 1) (omega arith) in
    let lower : a * 2 ^ 64 / total * num + b * 2 ^ 64 / total * num
        ≤ (a * 2 ^ 64 + b * 2 ^ 64) / total * num =
      omega (arith, scaled, add-mul (a * 2 ^ 64 / total) (b * 2 ^ 64 / total) num) in
    let whole =
      div_mono _ ((a * 2 ^ 64 + b * 2 ^ 64) / total * num) (max den 1) (omega arith) lower in
    subst (λ x. exact a total num den + exact b total num den ≤ x / total * num / max den 1)
      (sym (add-mul a b (2 ^ 64))) (omega (arith, both, whole))

-- Two parts of a stake have together no more than the threshold of the whole, up to the cap.
pub eligibility_threshold_split :
    (a b total num den : ℕ)
    → 0 < total
    → a + b ≤ u64_max
    → den ≤ u64_max
    → min (eligibility_threshold a total num den + eligibility_threshold b total num den) u64_max
      ≤ eligibility_threshold (a + b) total num den
eligibility_threshold_split a b total num den t s d = omega (
  arith,
  eligibility_threshold-exact a total num den t (omega arith) d,
  eligibility_threshold-exact b total num den t (omega arith) d,
  eligibility_threshold-exact (a + b) total num den t s d,
  exact_add a b total num den t,
)
