-- ===== src/Ledger/Inputs.antt =====
-- The checks of `apply_regular` on the transaction's outputs and inputs.
use kovanica_node.Common.{
  ℕ, suc, ◌^◌, Bool, true, false, not, ◌&&◌, ◌||◌, Option, none, some, List, [], ◌∷◌, ok, err, ltb,
  ◌==◌, if◌then◌else◌, length,
}
use kovanica_node.Common.Words.{u64_max, saturating_add, checked_add}
use kovanica_node.Crypto.{Crypto}
use kovanica_node.Tx.{
  OutPoint, Address, TxInput, TxOutput, Transaction, is_p2sh, is_script_v2, is_stealth, is_htlc,
  is_vault,
}
use kovanica_node.Utxo.{UtxoEntry, UtxoSet, coinbase_maturity, get_entry, address_eq}
use kovanica_node.Validation.{contains}
use kovanica_node.Stake.{StakeState, frozen_input, bond_shape}
use kovanica_node.Stake.State.{is_frozen}
use kovanica_node.Ledger.{
  missing_input, duplicate_input, value_overflow, coinbase_immature, stake, pre_activation_multisig,
  pre_activation_native_token, pre_activation_stealth, pre_activation_script_v2,
  pre_activation_htlc, pre_activation_vault, non_final_relative_sequence, Ledger, ◌>>=◌, fail_if,
  Activation, id,
}
use kovanica_node.Ledger.Authorise.{Done, authorise}

abbrev pub any : {A : Type 0} → (A → Bool) → List A → Bool
any p [] = false
any p (x ∷ xs) = if p x then true else any p xs

unfoldable pub has_asset : TxOutput → Bool
has_asset o = elim o.asset_id [ none ↦ false | some _ ↦ true ]

-- What the loop over the inputs carries besides the outpoints that it saw.
pub record Sums : Type 0 where
  pub sum_in : ℕ
  pub first_owner : Option Address

module _ (c : Crypto) (tx : Transaction) (height blue_score : ℕ) (act : Activation) where
  unfoldable pub gate_outputs : Done
  gate_outputs =
      let txid = id c tx in
      let outs = tx.outputs in
      fail_if (not (ltb act.multisig_score blue_score) && any (λ o. is_p2sh o.owner) outs)
        (pre_activation_multisig txid blue_score act.multisig_score)
      >>= λ _.
          fail_if (not (ltb act.native_token_score blue_score) && any has_asset outs)
            (pre_activation_native_token txid blue_score act.native_token_score)
          >>= λ _.
              fail_if (not (ltb act.stealth_score blue_score) && any (λ o. is_stealth o.owner) outs)
                (pre_activation_stealth txid blue_score act.stealth_score)
              >>= λ _.
                  fail_if
                    (not (ltb act.script_v2_score blue_score)
                      && any (λ o. is_script_v2 o.owner) outs)
                    (pre_activation_script_v2 txid blue_score act.script_v2_score)
                  >>= λ _.
                      fail_if
                        (not (ltb act.htlc_score blue_score) && any (λ o. is_htlc o.owner) outs)
                        (pre_activation_htlc txid blue_score act.htlc_score)
                      >>= λ _.
                          fail_if
                            (not (ltb act.vault_score blue_score)
                              && any (λ o. is_vault o.owner) outs)
                            (pre_activation_vault txid blue_score act.vault_score)

  unfoldable pub gate_spend : TxOutput → TxInput → Done
  gate_spend prev input =
      let txid = id c tx in
      let owner = prev.owner in
      if not (ltb act.multisig_score blue_score) && (is_p2sh owner || ltb 1 (length input.witness))
      then err (pre_activation_multisig txid blue_score act.multisig_score)
      else if not (ltb act.native_token_score blue_score) && has_asset prev
      then err (pre_activation_native_token txid blue_score act.native_token_score)
      else if not (ltb act.stealth_score blue_score) && is_stealth owner
      then err (pre_activation_stealth txid blue_score act.stealth_score)
      else if not (ltb act.script_v2_score blue_score) && is_script_v2 owner
      then err (pre_activation_script_v2 txid blue_score act.script_v2_score)
      else if not (ltb act.htlc_score blue_score) && is_htlc owner
      then err (pre_activation_htlc txid blue_score act.htlc_score)
      else fail_if (not (ltb act.vault_score blue_score) && is_vault owner)
          (pre_activation_vault txid blue_score act.vault_score)

  unfoldable pub check_maturity : OutPoint → UtxoEntry → Done
  check_maturity outpoint entry =
      fail_if
        (entry.is_coinbase
          && (ltb 0 entry.creation_height
              && ltb height (saturating_add u64_max entry.creation_height coinbase_maturity)))
        (coinbase_immature outpoint entry.creation_height coinbase_maturity height)

  -- The top bit of the 32-bit sequence is clear exactly below 2 ^ 31, and `u32::MAX` has it set.
  unfoldable pub check_sequence : OutPoint → UtxoEntry → Done
  check_sequence outpoint entry =
      fail_if
        (not (tx.sequence == 0)
          && (ltb tx.sequence (2 ^ 31)
              && ltb height (saturating_add u64_max entry.creation_height tx.sequence)))
        (non_final_relative_sequence (id c tx) outpoint entry.creation_height tx.sequence height)

  module _ (view : Option StakeState) (bond unbond : Bool) where
    unfoldable pub check_frozen : OutPoint → Done
    check_frozen outpoint = elim view [
      | none ↦ ok tt
      | some st ↦
          fail_if (not unbond && is_frozen outpoint st) (stake (id c tx) (frozen_input outpoint))
    ]

    unfoldable pub check_owner : Address → Option Address → Ledger (Option Address)
    check_owner owner none = ok (some owner)
    check_owner owner (some first) =
        if bond && not (address_eq owner first)
        then err (stake (id c tx) bond_shape)
        else ok (some first)

    unfoldable pub check_input : UtxoSet → List OutPoint → ℕ → Sums → TxInput → Ledger Sums
    check_input staging seen i sums input =
        if contains seen input.outpoint
        then err (duplicate_input input.outpoint)
        else elim (get_entry input.outpoint staging) [
          | none ↦ err (missing_input input.outpoint)
          | some entry ↦ check_maturity input.outpoint entry >>= λ _.
              gate_spend entry.output input >>= λ _. check_sequence input.outpoint entry >>= λ _.
              authorise c tx i height entry input.witness >>= λ _.
              check_frozen input.outpoint >>= λ _.
              check_owner entry.output.owner sums.first_owner >>= λ first.
              elim (checked_add u64_max sums.sum_in entry.output.value) [
                | none ↦ err value_overflow
                | some sum ↦ ok (record { sum_in = sum; first_owner = first })
              ]
        ]

    unfoldable pub check_inputs : UtxoSet → List OutPoint → ℕ → Sums → List TxInput → Ledger Sums
    check_inputs staging seen i sums [] = ok sums
    check_inputs staging seen i sums (input ∷ inputs) =
        check_input staging seen i sums input >>= λ next.
        check_inputs staging (input.outpoint ∷ seen) (suc i) next inputs
