-- ===== src/Ledger/Emission.antt =====
-- `HalvingSchedule`: the subsidy by height.
use kovanica_node.Common.{
  ℕ, zero, suc, ◌/◌, ◌≤◌, ◌≡◌, refl, ltb, ◌==◌, if◌then◌else◌, arith, Bool-cases, inl, inr,
}
use kovanica_node.Common.Division.{div_mono}
use kovanica_node.Common.Words.{u64_max, saturating_mul}

abbrev pub atom : ℕ
atom = 100000000

abbrev pub rfc006_genesis_subsidy : ℕ
rfc006_genesis_subsidy = 1000000000

abbrev pub rfc006_era_length : ℕ
rfc006_era_length = 2000000

pub record HalvingSchedule : Type 0 where
  pub genesis_subsidy : ℕ
  pub halving_era : ℕ

abbrev pub rfc006 : HalvingSchedule
rfc006 = record { genesis_subsidy = rfc006_genesis_subsidy; halving_era = rfc006_era_length }

-- The loop over the eras, with its early return at 0.
unfoldable pub decay : ℕ → ℕ → ℕ
decay zero s = s
decay (suc eras) s =
    let next = saturating_mul u64_max s 3 / 4 in
    let rest = decay eras next in if next == 0 then 0 else rest

unfoldable pub subsidy_at : HalvingSchedule → ℕ → ℕ
subsidy_at schedule height =
    if schedule.halving_era == 0
    then 0
    else if ltb (height / schedule.halving_era) 256
    then decay (height / schedule.halving_era) schedule.genesis_subsidy
    else 0

-- One era's decay, as the code computes it.
abbrev pub three_quarters : ℕ → ℕ
three_quarters s = saturating_mul u64_max s 3 / 4

three_quarters_le : (s : ℕ) → three_quarters s ≤ s
three_quarters_le s = ground arith

three_quarters_mono : (s t : ℕ) → s ≤ t → three_quarters s ≤ three_quarters t
three_quarters_mono s t h = ground arith

decay_zero : (eras : ℕ) → decay eras 0 ≡ 0
unfolding decay
decay_zero zero = refl
decay_zero (suc eras) = refl

decay_le : (eras s : ℕ) → decay eras s ≤ s
unfolding decay
decay_le zero s = omega arith
decay_le (suc eras) s = ground (arith, decay_le eras (three_quarters s), three_quarters_le s)

decay_mono : (eras s t : ℕ) → s ≤ t → decay eras s ≤ decay eras t
unfolding decay
decay_mono zero s t h = h
decay_mono (suc eras) s t h = ground (
  arith,
  decay_mono eras (three_quarters s) (three_quarters t) (three_quarters_mono s t h),
  three_quarters_mono s t h,
)

decay_longer : (short long s : ℕ) → short ≤ long → decay long s ≤ decay short s
unfolding decay
decay_longer zero long s h = decay_le long s
decay_longer (suc short) zero s h = absurd (omega arith)
decay_longer (suc short) (suc long) s h =
    ground (arith, decay_longer short long (three_quarters s) (omega arith))

-- The subsidy never rises with the height.
pub subsidy_at_antitone :
    (schedule : HalvingSchedule) (low high : ℕ)
    → low ≤ high
    → subsidy_at schedule high ≤ subsidy_at schedule low
unfolding subsidy_at
subsidy_at_antitone schedule low high h = elim (Bool-cases (schedule.halving_era == 0)) [
  | inl zero_era ↦ ground (arith, zero_era)
  | inr era ↦
      let eras = div_mono low high schedule.halving_era (ground arith) h in
      ground (
        arith,
        era,
        eras,
        decay_longer (low / schedule.halving_era) (high / schedule.halving_era)
            schedule.genesis_subsidy eras,
      )
]
