-- ===== src/Tests/TxTests.antt =====
-- Transactions: encoding and the structural checks.
use kovanica_node.Common.{
  ◌≤◌, ◌≡◌, refl, List, [], ◌∷◌, arith, ok, err, length, to_le_bytes, from_le_bytes,
}
use kovanica_node.Codec.{
  pure, ◌>>=◌, read_array, read_u8, read_u32, read_u64, bounded_count, read_count, read_many,
}
use kovanica_node.Tx.{Transaction, is_stealth, is_coinbase, has_stealth}
use kovanica_node.Tx.WellFormed.{IsTransaction}
use kovanica_node.Tx.Encode.{
  encode, encode_block_payload, encode_into, encode_input, encode_witness, encode_witness_item,
  encode_output, encode_asset_id, encode_stealth,
}
use kovanica_node.Tx.Decode.{
  decode, decode_block_payload, read_transaction, read_input, read_output, read_witness_item,
  read_asset_id, read_stealth, finish,
}
use kovanica_node.Tx.RoundTrip.{decode-encode, decode_block_payload-encode}
use kovanica_node.Validation.{
  pass, misplaced_coinbase, validate_tx_structure, check_role, check_inputs, check_outputs,
  check_stealth, contains, validate_block_payload,
}
use kovanica_node.Validation.Accepts.{
  IsSoundTx, validate_tx_structure-pass, validate_block_payload-pass,
}
use kovanica_node.Tests.Samples.{transfer, coinbase}

transfer-IsTransaction : IsTransaction transfer
transfer-IsTransaction = omega arith

coinbase-IsTransaction : IsTransaction coinbase
coinbase-IsTransaction = omega arith

abbrev block : List Transaction
block = coinbase ∷ transfer ∷ []

decode-encode_example : decode (encode transfer) ≡ ok transfer
decode-encode_example = decode-encode transfer transfer-IsTransaction

decode_block_payload-encode_example : decode_block_payload (encode_block_payload block) ≡ ok block
decode_block_payload-encode_example =
    decode_block_payload-encode block (coinbase-IsTransaction, (transfer-IsTransaction, tt))
      (omega arith)

-- The decoder runs.
decode_runs : decode (encode coinbase) ≡ ok coinbase
unfolding encode encode_into encode_input encode_output encode_asset_id encode_stealth to_le_bytes
    decode read_transaction read_input read_output read_witness_item read_asset_id read_stealth
    finish pure ◌>>=◌ read_array read_u8 read_u32 read_u64 bounded_count read_count read_many
    from_le_bytes
decode_runs = refl

transfer_passes : validate_tx_structure 1 transfer ≡ pass
unfolding validate_tx_structure check_role check_inputs check_outputs check_stealth contains
    is_coinbase is_stealth has_stealth encode encode_into encode_input encode_witness
    encode_witness_item encode_output encode_asset_id encode_stealth to_le_bytes
transfer_passes = refl

second_coinbase : validate_tx_structure 1 coinbase ≡ err (misplaced_coinbase 1)
unfolding validate_tx_structure check_role is_coinbase encode encode_into encode_input encode_output
    encode_asset_id encode_stealth to_le_bytes
second_coinbase = refl

validate_tx_structure-pass_example : IsSoundTx 1 transfer
validate_tx_structure-pass_example = (validate_tx_structure-pass 1 transfer).0 transfer_passes

small_block : length (encode_block_payload block) ≤ 1000
unfolding encode_block_payload encode_into encode_input encode_witness encode_witness_item
    encode_output encode_asset_id encode_stealth to_le_bytes
small_block = omega arith

coinbase_passes : validate_tx_structure 0 coinbase ≡ pass
unfolding validate_tx_structure check_role check_inputs check_outputs check_stealth contains
    is_coinbase is_stealth has_stealth encode encode_into encode_input encode_output encode_asset_id
    encode_stealth to_le_bytes
coinbase_passes = refl

validate_block_payload-pass_example : validate_block_payload (encode_block_payload block) ≡ pass
validate_block_payload-pass_example = (validate_block_payload-pass (encode_block_payload block)).1 (
  omega (arith, small_block),
  (
    block,
    decode_block_payload-encode_example,
    omega arith,
    (
      (validate_tx_structure-pass 0 coinbase).0 coinbase_passes,
      ((validate_tx_structure-pass 1 transfer).0 transfer_passes, tt),
    ),
  ),
)
