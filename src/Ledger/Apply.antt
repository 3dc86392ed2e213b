-- ===== src/Ledger/Apply.antt =====
-- `apply_regular`, `apply_coinbase` and `add_outputs`. The registry of stake is
-- changed in place: what an error leaves in it is part of the result. The set of unspent outputs is
-- staged, so an error leaves it as it was.
use kovanica_node.Common.{
  ℕ, suc, Bool, true, false, not, ◌&&◌, ◌||◌, Option, none, some, List, [], ◌∷◌, ok, err, ltb, ◌==◌,
  if◌then◌else◌, ◌%◌, ◌^◌,
}
use kovanica_node.Common.Words.{u64_max, checked_add}
use kovanica_node.Crypto.{Crypto}
use kovanica_node.Tx.{TxId, OutPoint, Address, TxInput, TxOutput, Transaction, is_p2sh}
use kovanica_node.Utxo
use kovanica_node.Utxo.{UtxoEntry, UtxoSet, insert_coinbase, insert_with_height, address_eq}
use kovanica_node.Stake.{StakeState, bond_shape}
use kovanica_node.Stake.Tags.{parse_bond_tag, is_unbond_tag}
use kovanica_node.Stake.State.{freeze, check_unbond, unfreeze_spend}
use kovanica_node.Ledger.{
  max_supply, output_already_exists, value_overflow, panicked, empty_transaction, zero_value_output,
  coinbase_overspend, supply_cap_exceeded, stake, pre_activation_multisig, non_final_transaction,
  Ledger, ◌>>=◌, fail_if, Activation, id,
}
use kovanica_node.Ledger.Authorise.{Done}
use kovanica_node.Ledger.Inputs.{any, gate_outputs, check_inputs}
use kovanica_node.Ledger.Assets.{conserve}

abbrev pub is_some : {A : Type 0} → Option A → Bool
is_some none = false
is_some (some _) = true

abbrev pub is_empty : {A : Type 0} → List A → Bool
is_empty [] = true
is_empty (_ ∷ _) = false

-- No sum, or one above the cap.
abbrev pub exceeds : Option ℕ → Bool
exceeds none = true
exceeds (some total) = ltb max_supply total

-- The index is cast to 32 bits.
unfoldable pub add_outputs : TxId → ℕ → List TxOutput → ℕ → Bool → UtxoSet → Ledger UtxoSet
add_outputs txid i [] height coinbase staging = ok staging
add_outputs txid i (output ∷ outputs) height coinbase staging =
    let outpoint : OutPoint = record { tx = txid; index = i % 2 ^ 32 } in
    let (next, prev) =
      if coinbase
      then insert_coinbase outpoint output height staging
      else insert_with_height outpoint output height staging in
    let rest = add_outputs txid (suc i) outputs height coinbase next in
    if is_some prev then err (output_already_exists outpoint) else rest

unfoldable pub remove_inputs : List TxInput → UtxoSet → UtxoSet
remove_inputs [] staging = staging
remove_inputs (input ∷ inputs) staging = remove_inputs inputs (Utxo.remove input.outpoint staging)

-- `unfreeze_spend` of every input. Its `expect` panics on an error.
unfoldable pub unfreeze_all : ℕ → List TxInput → StakeState → Ledger StakeState
unfreeze_all height [] st = ok st
unfreeze_all height (input ∷ inputs) st = elim (unfreeze_spend input.outpoint height st) [
  | ok (next, value) ↦ unfreeze_all height inputs next
  | err _ ↦ err panicked
]

pub record Applied : Type 0 where
  pub utxo : UtxoSet
  pub registry : Option StakeState
  pub fee : ℕ

pub record BlockSummary : Type 0 where
  pub fees : ℕ
  pub minted : ℕ

module _ (c : Crypto) (height blue_score : ℕ) (act : Activation) where
  unfoldable pub check_unbonds : Transaction → StakeState → List TxInput → Done
  check_unbonds tx st [] = ok tt
  check_unbonds tx st (input ∷ inputs) = elim (check_unbond input.outpoint height st) [
    | ok _ ↦ check_unbonds tx st inputs
    | err reason ↦ err (stake (id c tx) reason)
  ]

  -- `tx.outputs().len() != 1 || Some(&tx.outputs()[0].owner) != first_owner`
  unfoldable pub pays_back : List TxOutput → Option Address → Bool
  pays_back (output ∷ []) (some owner) = address_eq output.owner owner
  pays_back outputs owner = false

  unfoldable pub check_stake_shape : Transaction → Option StakeState → Option Address → Done
  check_stake_shape tx none first = ok tt
  check_stake_shape tx (some st) first =
      if is_unbond_tag tx.tag
      then check_unbonds tx st tx.inputs
      else fail_if (is_some (parse_bond_tag tx.tag) && not (pays_back tx.outputs first))
          (stake (id c tx) bond_shape)

  -- A bond locks the asset that its tag names.
  unfoldable pub freeze_bond : Transaction → StakeState → Ledger StakeState
  freeze_bond tx st = elim (parse_bond_tag tx.tag) [
    | none ↦ ok st
    | some (asset_id, vrf_pk) ↦ elim tx.outputs [
      | [] ↦ err panicked
      | output ∷ _ ↦
          ok (freeze (record { tx = id c tx; index = 0 }) asset_id vrf_pk output.value height st)
    ]
  ]

  unfoldable pub update_stake : Transaction → Option StakeState → Ledger (Option StakeState)
  update_stake tx none = ok none
  update_stake tx (some st) =
      (if is_unbond_tag tx.tag then unfreeze_all height tx.inputs st else freeze_bond tx st)
      >>= λ next. ok (some next)

  unfoldable pub apply_regular : Transaction → UtxoSet → Option StakeState → Ledger Applied
  apply_regular tx staging registry = do
    _ ← fail_if (is_empty tx.inputs || is_empty tx.outputs) (empty_transaction (id c tx))
    _ ← fail_if (ltb height tx.n_lock_time) (non_final_transaction (id c tx) tx.n_lock_time height)
    _ ← gate_outputs c tx height blue_score act
    sums ←
        check_inputs c tx height blue_score act registry (is_some (parse_bond_tag tx.tag))
          (is_unbond_tag tx.tag) staging [] 0 (record { sum_in = 0; first_owner = none }) tx.inputs
    fee ← conserve c tx staging
    _ ← check_stake_shape tx registry sums.first_owner
    utxo ← add_outputs (id c tx) 0 tx.outputs height false (remove_inputs tx.inputs staging)
    next ← update_stake tx registry
    ok (record { utxo = utxo; registry = next; fee = fee })

  unfoldable pub claimed_native : Transaction → List TxOutput → ℕ → Ledger ℕ
  claimed_native cb [] sum = ok sum
  claimed_native cb (output ∷ outputs) sum =
      let next : Ledger ℕ = elim (checked_add u64_max sum output.value) [
        | none ↦ err value_overflow
        | some total ↦ claimed_native cb outputs total
      ] in
      let skipped = claimed_native cb outputs sum in
      if output.value == 0
      then err (zero_value_output (id c cb))
      else if is_some output.asset_id
      then skipped
      else next

  unfoldable pub apply_coinbase : Transaction → ℕ → ℕ → UtxoSet → Ledger (UtxoSet × ℕ)
  apply_coinbase cb allowed cumulative_minted staging = do
    _ ←
        fail_if (not (ltb act.multisig_score blue_score) && any (λ o. is_p2sh o.owner) cb.outputs)
          (pre_activation_multisig (id c cb) blue_score act.multisig_score)
    claimed ← claimed_native cb cb.outputs 0
    _ ← fail_if (ltb allowed claimed) (coinbase_overspend claimed allowed)
    _ ←
        fail_if (exceeds (checked_add u64_max cumulative_minted claimed))
          (supply_cap_exceeded claimed cumulative_minted max_supply)
    utxo ← add_outputs (id c cb) 0 cb.outputs height true staging
    ok (utxo, claimed)
