-- ===== src/Ledger.antt =====
-- crates/kovanica-state/src/ledger.rs: the transition of one block. `apply_regular` is in Authorise
-- (the witness of one input), Inputs (the checks of the inputs), Assets (conservation) and Apply
-- (the effects, the coinbase and the block).
pub mod Authorise
pub mod Inputs
pub mod Assets
pub mod Apply
pub mod Coinbase
pub mod Emission
pub mod Block
pub mod Conservation
pub mod Passed
pub mod Effect
pub mod Regular
pub mod Atomicity
pub mod Runs
pub mod Refused
pub mod Supply
pub mod Issuance
pub mod Unbond
use kovanica_node.Common.{ℕ, Bool, true, false, Option, List, [], ◌∷◌, Result, ok, err, and_then}
use kovanica_node.Crypto.{Crypto}
use kovanica_node.Tx.{TxId, OutPoint, AssetId, Transaction}
use kovanica_node.Tx.Encode
use kovanica_node.Stake.{StakeError}
use kovanica_node.Templates.Multisig.{MultisigError}
use kovanica_node.Templates.Htlc.{HtlcScriptError}
use kovanica_node.Templates.Vault.{VaultScriptError}

abbrev pub max_supply : ℕ
max_supply = 9020000000000000

abbrev pub fee_producer_num : ℕ
fee_producer_num = 1

abbrev pub fee_producer_den : ℕ
fee_producer_den = 4

-- The reason of an invalid redeem script, which the source renders as text.
pub data Reason : Type 0 where
  multisig : MultisigError → Reason
  htlc : HtlcScriptError → Reason
  vault : VaultScriptError → Reason
  script_v2_parse_failed : Reason

-- The errors that the transition of a block returns. `panicked` is no error value of the source: it
-- stands for a panic, which stops the call.
pub data LedgerError : Type 0 where
  missing_input duplicate_input output_already_exists : OutPoint → LedgerError
  bad_signature script_hash_mismatch duplicate_signature htlc_preimage_mismatch :
      TxId → ℕ → LedgerError
  value_overflow panicked : LedgerError
  empty_transaction zero_value_output misplaced_coinbase : TxId → LedgerError
  coinbase_overspend : ℕ → ℕ → LedgerError
  supply_cap_exceeded : ℕ → ℕ → ℕ → LedgerError
  coinbase_immature : OutPoint → ℕ → ℕ → ℕ → LedgerError
  stake : TxId → StakeError → LedgerError
  invalid_witness_count : TxId → ℕ → ℕ → ℕ → LedgerError
  invalid_redeem_script : TxId → ℕ → Reason → LedgerError
  bad_signature_size : TxId → ℕ → ℕ → LedgerError
  pre_activation_multisig pre_activation_native_token : TxId → ℕ → ℕ → LedgerError
  pre_activation_stealth pre_activation_script_v2 : TxId → ℕ → ℕ → LedgerError
  pre_activation_htlc pre_activation_vault : TxId → ℕ → ℕ → LedgerError
  asset_not_conserved : TxId → Option AssetId → ℕ → ℕ → LedgerError
  htlc_timeout_not_reached : TxId → ℕ → ℕ → ℕ → LedgerError
  non_final_transaction : TxId → ℕ → ℕ → LedgerError
  non_final_relative_sequence : TxId → OutPoint → ℕ → ℕ → ℕ → LedgerError
  vault_absolute_not_reached : TxId → ℕ → ℕ → ℕ → LedgerError
  vault_relative_not_reached : TxId → ℕ → ℕ → ℕ → ℕ → LedgerError

abbrev pub Ledger : Type 0 → Type 0
Ledger A = Result LedgerError A

infixl 5 ◌>>=◌
abbrev pub ◌>>=◌ : {A B : Type 0} → Ledger A → (A → Ledger B) → Ledger B
ok a >>= f = f a
err e >>= f = err e

-- `return Err(e)` under a condition.
abbrev pub fail_if : Bool → LedgerError → Ledger (Unit {0})
fail_if true e = err e
fail_if false e = ok tt

-- The activation scores, which the source passes one by one.
pub record Activation : Type 0 where
  pub multisig_score : ℕ
  pub native_token_score : ℕ
  pub stealth_score : ℕ
  pub script_v2_score : ℕ
  pub htlc_score : ℕ
  pub vault_score : ℕ

unfoldable pub id : Crypto → Transaction → TxId
id c tx = record { bytes = c.blake3 (Encode.encode tx) }

unfoldable pub sighash : Crypto → Transaction → List ℕ
sighash c tx = c.blake3 (Encode.encode_into false tx)
