-- ===== src/Stake/State.antt =====
-- The operations of `StakeState`.
use kovanica_node.Common.{
  ℕ, ◌+◌, ◌-◌, ◌*◌, ◌/◌, ◌%◌, ◌^◌, Bool, true, false, Option, none, some, List, [], ltb, ◌==◌,
  if◌then◌else◌, length, bytes_eq, Result, ok, err, and_then, min, max,
}
use kovanica_node.Common.Words.{u64_max, u128_max, saturating_add, saturating_mul}
use kovanica_node.Common.Map
use kovanica_node.Common.Map.{Map}
use kovanica_node.Tx.{OutPoint, AssetId}
use kovanica_node.Utxo.{outpoint_key}
use kovanica_node.Stake.{
  unbond_maturity, StakeError, unbond_not_frozen, unbond_immature, StakeKey, StakeState, stake_key,
}

unfoldable pub empty : StakeState
empty = record { frozen = []; locked = [] }

-- `.copied().unwrap_or(0)`
abbrev pub or_zero : Option ℕ → ℕ
or_zero none = 0
or_zero (some v) = v

unfoldable pub stake_of : AssetId → List ℕ → StakeState → ℕ
stake_of asset_id vrf_pk s =
    or_zero (Map.get (record { asset_id = asset_id; vrf_pk = vrf_pk }) s.locked)

-- The sums are sums of u64.
unfoldable pub stake_of_any_asset : List ℕ → StakeState → ℕ
stake_of_any_asset vrf_pk s =
    Map.total (λ (k : StakeKey) (v : ℕ). if bytes_eq k.vrf_pk vrf_pk then v else 0) s.locked
    % 2 ^ 64

unfoldable pub total_stake : AssetId → StakeState → ℕ
total_stake asset_id s =
    Map.total (λ (k : StakeKey) (v : ℕ). if bytes_eq k.asset_id.bytes asset_id.bytes then v else 0)
      s.locked
    % 2 ^ 64

unfoldable pub total_stake_all_assets : StakeState → ℕ
total_stake_all_assets s = Map.total (λ (k : StakeKey) (v : ℕ). v) s.locked % 2 ^ 64

unfoldable pub bond_count : StakeState → ℕ
bond_count s = length s.frozen

unfoldable pub is_frozen : OutPoint → StakeState → Bool
is_frozen outpoint s = elim (Map.get outpoint s.frozen) [ none ↦ false | some _ ↦ true ]

unfoldable pub freeze : OutPoint → AssetId → List ℕ → ℕ → ℕ → StakeState → StakeState
freeze outpoint asset_id vrf_pk value height s =
    let key : StakeKey = record { asset_id = asset_id; vrf_pk = vrf_pk } in
    record {
      frozen =
          Map.insert outpoint
            (record { asset_id = asset_id; vrf_pk = vrf_pk; bond_height = height; value = value })
            s.frozen;
      locked = Map.insert key ((stake_of asset_id vrf_pk s + value) % 2 ^ 64) s.locked;
    }

unfoldable pub check_unbond : OutPoint → ℕ → StakeState → Result StakeError (Unit {0})
check_unbond outpoint height s = elim (Map.get outpoint s.frozen) [
  | none ↦ err (unbond_not_frozen outpoint)
  | some fr ↦
      let matures_at = saturating_add u64_max fr.bond_height unbond_maturity in
      if ltb height matures_at then err (unbond_immature outpoint matures_at height) else ok tt
]

-- The lock of a key, without what is left when it is 0.
unfoldable pub unlock : StakeKey → ℕ → Map StakeKey ℕ → Map StakeKey ℕ
unlock key value locked =
    let left = or_zero (Map.get key locked) - value in
    if left == 0 then Map.remove key locked else Map.insert key left locked

-- The state afterwards, and the value that is free again. The check has found the bond, so the
-- `expect` of the source cannot fail: its branch repeats the check's error here.
unfoldable pub unfreeze_spend : OutPoint → ℕ → StakeState → Result StakeError (StakeState × ℕ)
unfreeze_spend outpoint height s = and_then (check_unbond outpoint height s) (λ _.
    elim (Map.get outpoint s.frozen) [
      | none ↦ err (unbond_not_frozen outpoint)
      | some fr ↦ ok (
        record {
          frozen = Map.remove outpoint s.frozen;
          locked = unlock (record { asset_id = fr.asset_id; vrf_pk = fr.vrf_pk }) fr.value s.locked;
        },
        fr.value,
      )
    ])

unfoldable pub eligibility_threshold : ℕ → ℕ → ℕ → ℕ → ℕ
eligibility_threshold stake total rate_num rate_den =
    if total == 0
    then 0
    else if stake == 0
    then 0
    else min (saturating_mul u128_max (stake * 2 ^ 64 % 2 ^ 128 / total) rate_num / max rate_den 1)
        u64_max

-- `output` is `VrfOutput::as_u64`.
unfoldable pub is_eligible : ℕ → ℕ → ℕ → ℕ → ℕ → Bool
is_eligible output stake total rate_num rate_den =
    ltb output (eligibility_threshold stake total rate_num rate_den)
