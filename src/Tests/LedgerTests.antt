-- ===== src/Tests/LedgerTests.antt =====
-- The transition of a block at small inputs, with the signature scheme of the samples.
use kovanica_node.Common.{
  ap, ℕ, ◌+◌, ◌/◌, ◌≤◌, ◌≡◌, refl, true, false, none, some, [], ◌∷◌, replicate, ok, err, arith, All,
  bytes_eq, to_le_bytes,
}
use kovanica_node.Common.Map
use kovanica_node.Crypto.{payload, is_p2pk, verify, verify_pk}
use kovanica_node.Tx.{Transaction, TxInput, OutPoint, outpoint_eq, is_coinbase}
use kovanica_node.Tx.Encode
use kovanica_node.Utxo
use kovanica_node.Utxo.{UtxoEntry, UtxoSet, asset_eq}
use kovanica_node.Validation
use kovanica_node.Stake.{unbond_prefix, StakeState}
use kovanica_node.Stake.Tags
use kovanica_node.Stake.Tags.{bond_tag}
use kovanica_node.Stake.State
use kovanica_node.Ledger.{id, missing_input, max_supply}
use kovanica_node.Ledger.Authorise
use kovanica_node.Ledger.Inputs
use kovanica_node.Ledger.Assets
use kovanica_node.Ledger.Assets.{conserve}
use kovanica_node.Ledger.Apply
use kovanica_node.Ledger.Apply.{
  check_unbonds, unfreeze_all, Applied, apply_regular, apply_coinbase, BlockSummary,
}
use kovanica_node.Ledger.Block
use kovanica_node.Ledger.Block.{Transition, apply_block_inner, default_activation}
use kovanica_node.Ledger.Conservation.{IsConserved, conserve-IsConserved, sum_of}
use kovanica_node.Ledger.Unbond.{unfreeze_all-total}
use kovanica_node.Ledger.Regular.{IsApplied, apply_regular-IsApplied}
use kovanica_node.Ledger.Coinbase.{IsPositive, apply_coinbase-bounds}
use kovanica_node.Ledger.Atomicity.{apply_block_inner-bounds}
use kovanica_node.Ledger.Runs.{Stopped}
use kovanica_node.Ledger.Refused.{apply_block_inner-Stopped}
use kovanica_node.Ledger.Supply.{supply}
use kovanica_node.Ledger.Issuance.{apply_block_inner-supply}
use kovanica_node.Tests.Samples.{coin, plain, asset, toy}

abbrev funds : UtxoSet
funds = (coin 1, record { output = plain 500; creation_height = 0; is_coinbase = false }) ∷ []

abbrev spend : ℕ → TxInput
spend n = record { outpoint = coin n; witness = replicate 64 1 ∷ [] }

-- Pays 480 of 500 back to the owner, as a bond.
abbrev bond : Transaction
bond = record {
  inputs = spend 1 ∷ [];
  outputs = plain 480 ∷ [];
  tag = bond_tag asset (replicate 32 7);
  n_lock_time = 0;
  sequence = 0;
}

abbrev missing : Transaction
missing = record {
  inputs = spend 9 ∷ [];
  outputs = plain 480 ∷ [];
  tag = [];
  n_lock_time = 0;
  sequence = 0;
}

abbrev coinbase : Transaction
coinbase = record {
  inputs = [];
  outputs = plain 1000 ∷ [];
  tag = 1 ∷ [];
  n_lock_time = 0;
  sequence = 0;
}

abbrev no_stake : StakeState
no_stake = record { frozen = []; locked = [] }

abbrev bonded_output : OutPoint
bonded_output = record { tx = id toy bond; index = 0 }

abbrev bonded : Applied
bonded = record {
  utxo =
      (bonded_output, record { output = plain 480; creation_height = 10; is_coinbase = false })
      ∷ [];
  registry = some (record {
    frozen =
        (
          bonded_output,
          record { asset_id = asset; vrf_pk = replicate 32 7; bond_height = 10; value = 480 },
        )
        ∷ [];
    locked = (record { asset_id = asset; vrf_pk = replicate 32 7 }, 480) ∷ [];
  });
  fee = 20;
}

fee_of_bond : conserve toy bond funds ≡ ok 20
unfolding conserve Assets.input_amounts Utxo.get Utxo.get_entry Map.get outpoint_eq
    Assets.add_amount Assets.output_amounts Assets.check_spent Map.insert asset_eq
    Assets.check_created Assets.native_fee
fee_of_bond = refl

bond_applies : apply_regular toy 10 1 default_activation bond funds (some no_stake) ≡ ok bonded
unfolding conserve Assets.input_amounts Utxo.get Utxo.get_entry Map.get outpoint_eq
    Assets.add_amount Assets.output_amounts Assets.check_spent Map.insert Map.remove asset_eq
    Assets.check_created Assets.native_fee apply_regular Inputs.gate_outputs Inputs.gate_spend
    Inputs.check_maturity Inputs.check_sequence Inputs.check_frozen Inputs.check_owner
    Inputs.check_input Inputs.check_inputs Validation.contains Authorise.authorise
    Authorise.authorise_p2pk is_p2pk verify verify_pk payload bytes_eq State.is_frozen
    Utxo.address_eq Apply.check_stake_shape Apply.pays_back Apply.add_outputs Apply.remove_inputs
    Apply.update_stake Apply.freeze_bond Tags.parse_bond_tag bond_tag Tags.is_unbond_tag
    Utxo.insert_with_height Utxo.insert_entry Utxo.remove State.freeze State.stake_of
bond_applies = refl

missing_fails :
    apply_regular toy 10 1 default_activation missing bonded.utxo bonded.registry
    ≡ err (missing_input (coin 9))
unfolding apply_regular Inputs.gate_outputs Inputs.check_inputs Inputs.check_input
    Validation.contains Utxo.get_entry Map.get outpoint_eq id Encode.encode Encode.encode_into
    to_le_bytes
missing_fails = refl

conserve-IsConserved_example : IsConserved toy bond funds 20
conserve-IsConserved_example = conserve-IsConserved toy bond funds 20 fee_of_bond

apply_regular-IsApplied_example : IsApplied toy bond 10 funds bonded
apply_regular-IsApplied_example =
    apply_regular-IsApplied toy 10 1 default_activation bond funds (some no_stake) bonded
      bond_applies

-- The bond before the failing transaction stays in the registry.
keeps_bond :
    apply_block_inner toy 10 1 default_activation funds (some no_stake) (bond ∷ missing ∷ []) 1000 0
    ≡ record { utxo = funds; registry = bonded.registry; answer = err (missing_input (coin 9)) }
unfolding is_coinbase apply_block_inner Block.apply_txs
keeps_bond = ground (arith, bond_applies, missing_fails)

apply_block_inner-Stopped_example :
    ((apply_block_inner toy 10 1 default_activation funds
        (some no_stake)
        (bond ∷ missing ∷ [])
        1000
        0).utxo
      ≡ funds)
    × Stopped toy 10 1 default_activation 0 0
        (bond ∷ missing ∷ [])
        funds
        (some no_stake)
        (apply_block_inner toy 10 1 default_activation funds
          (some no_stake)
          (bond ∷ missing ∷ [])
          1000
          0).registry
        (missing_input (coin 9))
apply_block_inner-Stopped_example =
    apply_block_inner-Stopped toy 10 1 default_activation funds (some no_stake)
      (bond ∷ missing ∷ []) 1000 0 (missing_input (coin 9))
      (ap (λ (t : Transition). t.answer) keeps_bond)

abbrev minted_output : OutPoint
minted_output = record { tx = id toy coinbase; index = 0 }

coinbase_applies :
    apply_coinbase toy 10 1 default_activation coinbase 1005 70 []
    ≡ ok (
      (minted_output, record { output = plain 1000; creation_height = 10; is_coinbase = true })
          ∷ [],
      1000,
    )
unfolding apply_coinbase Apply.claimed_native Apply.add_outputs Utxo.insert_coinbase
    Utxo.insert_entry Map.insert Map.remove Map.get
coinbase_applies = refl

apply_coinbase-bounds_example :
    (1000 ≡ sum_of none coinbase.outputs)
    × ((1000 ≤ 1005) × ((70 + 1000 ≤ max_supply) × All IsPositive coinbase.outputs))
apply_coinbase-bounds_example =
    apply_coinbase-bounds toy 10 1 default_activation coinbase 1005 70 [] _ 1000 coinbase_applies

block_answer :
    (apply_block_inner toy 10 1 default_activation [] none (coinbase ∷ []) 1000 70).answer
    ≡ ok (record { fees = 0; minted = 1000 })
unfolding apply_block_inner Block.apply_txs Block.finish_block is_coinbase apply_coinbase
    Apply.claimed_native Apply.add_outputs Utxo.insert_coinbase Utxo.insert_entry Map.insert
    Map.remove Map.get
block_answer = refl

apply_block_inner-bounds_example : (1000 ≤ 1000 + 0 / 4) × (70 + 1000 ≤ max_supply)
apply_block_inner-bounds_example =
    apply_block_inner-bounds toy 10 1 default_activation [] none (coinbase ∷ []) 1000 70
      (record { fees = 0; minted = 1000 }) block_answer (omega arith)

abbrev bonded_registry : StakeState
bonded_registry = record {
  frozen =
      (coin 1, record { asset_id = asset; vrf_pk = replicate 32 7; bond_height = 10; value = 500 })
      ∷ [];
  locked = (record { asset_id = asset; vrf_pk = replicate 32 7 }, 500) ∷ [];
}

abbrev unbond : Transaction
unbond = record {
  inputs = spend 1 ∷ [];
  outputs = plain 480 ∷ [];
  tag = unbond_prefix;
  n_lock_time = 0;
  sequence = 0;
}

unbond_checked :
    check_unbonds toy 110 1 default_activation unbond bonded_registry unbond.inputs ≡ ok tt
unfolding check_unbonds State.check_unbond Map.get outpoint_eq bytes_eq
unbond_checked = refl

unfreeze_all-total_example :
    (next : StakeState) × (unfreeze_all 110 unbond.inputs bonded_registry ≡ ok next)
unfolding Validation.contains
unfreeze_all-total_example =
    unfreeze_all-total toy 110 1 default_activation unbond unbond.inputs bonded_registry (refl, tt)
      unbond_checked

abbrev paid : BlockSummary
paid = record { fees = 20; minted = 1000 }

block_pays :
    (apply_block_inner toy 10 1 default_activation funds
      (some no_stake)
      (coinbase ∷ bond ∷ [])
      1000
      0).answer
    ≡ ok paid
unfolding apply_block_inner Block.apply_txs Block.finish_block is_coinbase apply_coinbase
    Apply.claimed_native Utxo.insert_coinbase conserve Assets.input_amounts Utxo.get Utxo.get_entry
    Map.get outpoint_eq Assets.add_amount Assets.output_amounts Assets.check_spent Map.insert
    Map.remove asset_eq Assets.check_created Assets.native_fee apply_regular Inputs.gate_outputs
    Inputs.gate_spend Inputs.check_maturity Inputs.check_sequence Inputs.check_frozen
    Inputs.check_owner Inputs.check_input Inputs.check_inputs Validation.contains
    Authorise.authorise Authorise.authorise_p2pk is_p2pk verify verify_pk payload bytes_eq
    State.is_frozen Utxo.address_eq Apply.check_stake_shape Apply.pays_back Apply.add_outputs
    Apply.remove_inputs Apply.update_stake Apply.freeze_bond Tags.parse_bond_tag bond_tag
    Tags.is_unbond_tag Utxo.insert_with_height Utxo.insert_entry Utxo.remove State.freeze
    State.stake_of id Encode.encode Encode.encode_into to_le_bytes
block_pays = refl

apply_block_inner-supply_example :
    supply none
        (apply_block_inner toy 10 1 default_activation funds
          (some no_stake)
          (coinbase ∷ bond ∷ [])
          1000
          0).utxo
      + 20
    ≡ supply none funds + 1000
unfolding Map.get
apply_block_inner-supply_example =
    apply_block_inner-supply toy 10 1 default_activation funds (some no_stake)
      (coinbase ∷ bond ∷ []) 1000 0 paid (refl, tt) block_pays
