-- ===== src/Ledger/Authorise.antt =====
-- The witness of one input, by the version of the spent output's address.
use kovanica_node.Common.{
  ℕ, suc, ◌+◌, not, none, some, List, [], ◌∷◌, ok, err, map_err, ltb, ◌==◌, if◌then◌else◌, length,
  replicate, bytes_eq,
}
use kovanica_node.Common.Words.{u64_max, saturating_add}
use kovanica_node.Crypto.{Crypto, payload, is_p2pk, verify, verify_pk}
use kovanica_node.Tx.{
  TxId, TxOutput, StealthExt, Transaction, is_p2sh, is_script_v2, is_stealth, is_htlc, is_vault,
}
use kovanica_node.Utxo.{UtxoEntry}
use kovanica_node.Templates.Vault
use kovanica_node.Templates.Vault.{VaultScript}
use kovanica_node.Templates.Htlc
use kovanica_node.Templates.Htlc.{HtlcScript}
use kovanica_node.Templates.Multisig
use kovanica_node.Templates.Multisig.{MultisigError, verify_threshold_signatures}
use kovanica_node.Script.{Outcome, done, fails, index_out_of_bounds, out_of_fuel}
use kovanica_node.Script.Parse
use kovanica_node.Script.Execute
use kovanica_node.Ledger.{
  LedgerError, Reason, bad_signature, bad_signature_size, duplicate_signature,
  invalid_witness_count, script_hash_mismatch, invalid_redeem_script, htlc_preimage_mismatch,
  htlc_timeout_not_reached, vault_absolute_not_reached, vault_relative_not_reached, panicked,
  script_v2_parse_failed, Ledger, ◌>>=◌, fail_if, id, sighash,
}

abbrev pub Done : Type 0
Done = Ledger (Unit {0})

unfoldable pub stealth_or_default : TxOutput → StealthExt
stealth_or_default o = elim o.stealth [
  | none ↦ record { r = replicate 32 0; view_tag = 0; p = replicate 32 0 }
  | some s ↦ s
]

-- A panic of the script's parser or of its execution is a panic of the caller.
unfoldable pub from_script : {A : Type 0} → LedgerError → Outcome A → Ledger A
from_script e (done a) = ok a
from_script e (fails _) = err e
from_script e index_out_of_bounds = err panicked
from_script e out_of_fuel = err panicked

unfoldable pub threshold_error : TxId → ℕ → MultisigError → LedgerError
threshold_error tx i Multisig.duplicate_signature = duplicate_signature tx i
threshold_error tx i Multisig.signature_size = bad_signature_size tx i 0
threshold_error tx i e = bad_signature tx i

module _ (c : Crypto) (tx : Transaction) (i height : ℕ) where
  unfoldable pub check_key : List ℕ → List ℕ → Done
  check_key pk sig =
      if not (length sig == 64)
      then err (bad_signature_size (id c tx) i (length sig))
      else fail_if (not (verify_pk c pk (sighash c tx) sig)) (bad_signature (id c tx) i)

  unfoldable pub check_hash : TxOutput → List ℕ → Done
  check_hash prev script =
      fail_if (not (bytes_eq (c.blake3 script) (payload prev.owner)))
        (script_hash_mismatch (id c tx) i)

  unfoldable pub authorise_p2pk : TxOutput → List (List ℕ) → Done
  authorise_p2pk prev (sig ∷ []) =
      if not (length sig == 64)
      then err (bad_signature_size (id c tx) i (length sig))
      else fail_if (not (verify c prev.owner (sighash c tx) sig)) (bad_signature (id c tx) i)
  authorise_p2pk prev witness = err (invalid_witness_count (id c tx) i 1 (length witness))

  unfoldable pub check_sizes : List (List ℕ) → Done
  check_sizes [] = ok tt
  check_sizes (sig ∷ signatures) =
      let rest = check_sizes signatures in
      if not (length sig == 64) then err (bad_signature_size (id c tx) i (length sig)) else rest

  unfoldable pub authorise_p2sh : TxOutput → List (List ℕ) → Done
  authorise_p2sh prev [] = err (invalid_witness_count (id c tx) i 1 0)
  authorise_p2sh prev (bytes ∷ signatures) = do
    _ ← check_hash prev bytes
    script ←
        map_err (λ e. invalid_redeem_script (id c tx) i (Reason.multisig e))
          (Multisig.parse c bytes)
    _ ←
        fail_if (not (suc (length signatures) == 1 + script.m))
          (invalid_witness_count (id c tx) i (1 + script.m) (suc (length signatures)))
    _ ← check_sizes signatures
    map_err (threshold_error (id c tx) i)
        (verify_threshold_signatures c script signatures (sighash c tx))

  unfoldable pub authorise_script_v2 : TxOutput → List (List ℕ) → Done
  authorise_script_v2 prev [] = err (invalid_witness_count (id c tx) i 1 0)
  authorise_script_v2 prev (bytes ∷ witness) = do
    _ ← check_hash prev bytes
    script ←
        from_script (invalid_redeem_script (id c tx) i script_v2_parse_failed) (Parse.new c bytes)
    accepted ←
        from_script (bad_signature (id c tx) i)
          (Execute.execute c (sighash c tx) tx.n_lock_time tx.sequence script witness)
    fail_if (not accepted) (bad_signature (id c tx) i)

  unfoldable pub redeem : HtlcScript → List ℕ → List ℕ → Done
  redeem script preimage sig =
      if not (length sig == 64)
      then err (bad_signature_size (id c tx) i (length sig))
      else if not (bytes_eq (c.blake3 preimage) script.preimage_hash)
      then err (htlc_preimage_mismatch (id c tx) i)
      else check_key script.recipient_pk sig

  unfoldable pub refund : HtlcScript → List ℕ → Done
  refund script sig =
      if not (length sig == 64)
      then err (bad_signature_size (id c tx) i (length sig))
      else if ltb height script.timeout
      then err (htlc_timeout_not_reached (id c tx) i height script.timeout)
      else check_key script.sender_pk sig

  -- What follows the template in the witness selects the path.
  unfoldable pub htlc_path : HtlcScript → List (List ℕ) → Done
  htlc_path script (preimage ∷ sig ∷ []) = redeem script preimage sig
  htlc_path script (sig ∷ []) = refund script sig
  htlc_path script rest = err (invalid_witness_count (id c tx) i 2 (suc (length rest)))

  unfoldable pub authorise_htlc : TxOutput → List (List ℕ) → Done
  authorise_htlc prev [] = err (invalid_witness_count (id c tx) i 2 0)
  authorise_htlc prev (bytes ∷ rest) = do
    _ ← check_hash prev bytes
    script ← map_err (λ e. invalid_redeem_script (id c tx) i (Reason.htlc e)) (Htlc.parse c bytes)
    htlc_path script rest

  unfoldable pub authorise_vault : UtxoEntry → List (List ℕ) → Done
  authorise_vault entry (bytes ∷ sig ∷ []) = do
    _ ← check_hash entry.output bytes
    script ← map_err (λ e. invalid_redeem_script (id c tx) i (Reason.vault e)) (Vault.parse c bytes)
    _ ←
        fail_if (ltb height script.unlock_height)
          (vault_absolute_not_reached (id c tx) i script.unlock_height height)
    _ ←
        fail_if (ltb height (saturating_add u64_max entry.creation_height script.csv))
          (vault_relative_not_reached (id c tx) i script.csv entry.creation_height height)
    check_key script.owner_pk sig
  authorise_vault entry witness = err (invalid_witness_count (id c tx) i 2 (length witness))

  unfoldable pub authorise_stealth : TxOutput → List (List ℕ) → Done
  authorise_stealth prev (sig ∷ []) = check_key (stealth_or_default prev).p sig
  authorise_stealth prev witness = err (invalid_witness_count (id c tx) i 1 (length witness))

  unfoldable pub authorise : UtxoEntry → List (List ℕ) → Done
  authorise entry witness =
      let prev = entry.output in
      if is_p2pk prev.owner
      then authorise_p2pk prev witness
      else if is_p2sh prev.owner
      then authorise_p2sh prev witness
      else if is_script_v2 prev.owner
      then authorise_script_v2 prev witness
      else if is_htlc prev.owner
      then authorise_htlc prev witness
      else if is_vault prev.owner
      then authorise_vault entry witness
      else if is_stealth prev.owner
      then authorise_stealth prev witness
      else err (bad_signature (id c tx) i)
