-- ===== src/Validation.antt =====
-- crates/kovanica-state/src/validation.rs: the structural checks of a block's payload.
pub mod Accepts
use kovanica_node.Common.{
  ℕ, zero, suc, ◌+◌, ◌^◌, ◌<◌, Bool, true, false, Option, none, some, List, [], ◌∷◌, not, Result,
  ok, err, ltb, ◌==◌, if◌then◌else◌, length, and_then, map_err,
}
use kovanica_node.Tx.{
  OutPoint, TxInput, TxOutput, Transaction, outpoint_eq, is_stealth, is_coinbase, has_stealth,
}
use kovanica_node.Tx.Encode.{encode}
use kovanica_node.Tx.Decode.{DecodeError, decode_block_payload}

abbrev pub max_tx_size : ℕ
max_tx_size = 100_000

abbrev pub max_block_payload_size : ℕ
max_block_payload_size = 1_000_000

abbrev pub max_txs_per_block : ℕ
max_txs_per_block = 1000

pub data BlockValidationError : Type 0 where
  payload : DecodeError → BlockValidationError
  misplaced_coinbase : ℕ → BlockValidationError
  no_outputs : ℕ → BlockValidationError
  duplicate_input : ℕ → OutPoint → BlockValidationError
  zero_value_output : ℕ → ℕ → BlockValidationError
  value_overflow : ℕ → BlockValidationError
  bad_stealth_output : ℕ → ℕ → BlockValidationError
  bad_stealth_mismatch : ℕ → ℕ → BlockValidationError
  tx_too_large : ℕ → ℕ → BlockValidationError
  block_payload_too_large : ℕ → BlockValidationError
  too_many_transactions : ℕ → BlockValidationError

abbrev pub Check : Type 0
Check = Result BlockValidationError (Unit {0})

abbrev pub pass : Check
pass = ok tt

-- Run a check, and the rest if it passes.
infixl 5 ◌&&&◌
abbrev pub ◌&&&◌ : Check → Check → Check
a &&& b = and_then a (λ _. b)

unfoldable pub contains : List OutPoint → OutPoint → Bool
contains [] o = false
contains (x ∷ xs) o = if outpoint_eq x o then true else contains xs o

-- `HashSet::insert` fails on an outpoint that it holds.
unfoldable pub check_inputs : ℕ → List OutPoint → List TxInput → Check
check_inputs index seen [] = pass
check_inputs index seen (i ∷ inputs) =
    let rest = check_inputs index (i.outpoint ∷ seen) inputs in
    if contains seen i.outpoint then err (duplicate_input index i.outpoint) else rest

unfoldable pub check_stealth : ℕ → ℕ → TxOutput → Check
check_stealth index j o =
    if is_stealth o.owner
    then (if has_stealth o then pass else err (bad_stealth_output index j))
    else if has_stealth o
    then err (bad_stealth_mismatch index j)
    else pass

unfoldable pub check_outputs : ℕ → ℕ → ℕ → List TxOutput → Check
check_outputs index j sum [] = pass
check_outputs index j sum (o ∷ outputs) =
    let rest = check_stealth index j o &&& check_outputs index (j + 1) (sum + o.value) outputs in
    if o.value == 0
    then err (zero_value_output index j)
    else if ltb (sum + o.value) (2 ^ 64)
    then rest
    else err (value_overflow index)

unfoldable pub check_role : ℕ → Transaction → Check
check_role index tx =
    if is_coinbase tx
    then (if index == 0 then pass else err (misplaced_coinbase index))
    else if length tx.outputs == 0
    then err (no_outputs index)
    else pass

unfoldable pub validate_tx_structure : ℕ → Transaction → Check
validate_tx_structure index tx =
    if ltb max_tx_size (length (encode tx))
    then err (tx_too_large index (length (encode tx)))
    else check_role index tx
      &&& check_inputs index [] tx.inputs
      &&& check_outputs index 0 0 tx.outputs

unfoldable pub validate_txs : ℕ → List Transaction → Check
validate_txs index [] = pass
validate_txs index (tx ∷ txs) = validate_tx_structure index tx &&& validate_txs (suc index) txs

unfoldable pub validate_block_payload : List ℕ → Check
validate_block_payload bytes =
    if ltb max_block_payload_size (length bytes)
    then err (block_payload_too_large (length bytes))
    else and_then (map_err payload (decode_block_payload bytes)) (λ txs.
      if ltb max_txs_per_block (length txs)
      then err (too_many_transactions (length txs))
      else validate_txs 0 txs)
