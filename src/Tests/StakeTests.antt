-- ===== src/Tests/StakeTests.antt =====
-- Stake: bonds, an unbond and eligibility at small numbers.
use kovanica_node.Common.{
  ℕ, ◌≡◌, ◌↔◌, refl, min, some, List, [], ◌∷◌, replicate, length, ok, err, bytes_eq, arith,
}
use kovanica_node.Common.Words.{u64_max}
use kovanica_node.Common.Map
use kovanica_node.Tx.{outpoint_eq}
use kovanica_node.Utxo.{outpoint_key}
use kovanica_node.Stake.{StakeState, unbond_immature, key_eq}
use kovanica_node.Stake.Tags.{bond_tag, parse_bond_tag, parse_bond_tag_iff}
use kovanica_node.Stake.State.{
  empty, freeze, unfreeze_spend, check_unbond, unlock, stake_of, eligibility_threshold, total_stake,
}
use kovanica_node.Stake.Backing.{IsBacked, Reachable, start, bond, unbond, Reachable-IsBacked}
use kovanica_node.Stake.Eligibility.{exact, eligibility_threshold-exact}
use kovanica_node.Tests.Samples.{coin, asset}

abbrev pk : List ℕ
pk = replicate 32 7

-- One bond of 500 at height 10, and another of 80 at height 20.
abbrev one : StakeState
one = freeze (coin 1) asset pk 500 10 empty

abbrev two : StakeState
two = freeze (coin 2) asset pk 80 20 one

stake_of-two : stake_of asset pk two ≡ 580
unfolding stake_of freeze empty Map.get Map.insert Map.remove outpoint_eq key_eq
stake_of-two = refl

total_stake-two : total_stake asset two ≡ 580
unfolding total_stake stake_of freeze empty Map.get Map.insert Map.remove Map.total key_eq bytes_eq
total_stake-two = refl

abbrev after_unbond : StakeState
after_unbond = record {
  frozen = (coin 2, record { asset_id = asset; vrf_pk = pk; bond_height = 20; value = 80 }) ∷ [];
  locked = (record { asset_id = asset; vrf_pk = pk }, 80) ∷ [];
}

unbond_two : unfreeze_spend (coin 1) 110 two ≡ ok (after_unbond, 500)
unfolding unfreeze_spend check_unbond unlock stake_of freeze empty Map.get Map.insert Map.remove
    outpoint_eq key_eq
unbond_two = refl

too_early : check_unbond (coin 1) 109 two ≡ err (unbond_immature (coin 1) 110 109)
unfolding check_unbond stake_of freeze empty Map.get Map.insert Map.remove outpoint_eq
too_early = refl

two-Reachable : Reachable after_unbond
unfolding stake_of freeze empty Map.get Map.insert Map.remove outpoint_eq key_eq
two-Reachable =
    unbond (coin 1) 110 500 two after_unbond
      (bond (coin 2) asset pk 80 20 one
        (bond (coin 1) asset pk 500 10 empty start refl (omega arith)) refl (omega arith))
      unbond_two

Reachable-IsBacked_example : IsBacked after_unbond
Reachable-IsBacked_example = Reachable-IsBacked after_unbond two-Reachable

parse_bond_tag_iff_example :
    (parse_bond_tag (bond_tag asset pk) ≡ some (asset, pk))
    ↔ ((bond_tag asset pk ≡ bond_tag asset pk) × ((length asset.bytes ≡ 32) × (length pk ≡ 32)))
parse_bond_tag_iff_example = parse_bond_tag_iff (bond_tag asset pk) asset pk

eligibility_threshold-exact_example :
    eligibility_threshold 500 1000 1 2 ≡ min (exact 500 1000 1 2) u64_max
eligibility_threshold-exact_example =
    eligibility_threshold-exact 500 1000 1 2 (omega arith) (omega arith) (omega arith)
