-- ===== src/Tx/Encode.antt =====
-- `Transaction::encode_into` and `encode_block_payload`: what they append to the buffer.
use kovanica_node.Common.{
  ℕ, Bool, true, Option, none, some, List, [], ◌∷◌, ◌++◌, if◌then◌else◌, length, flat_map,
  to_le_bytes,
}
use kovanica_node.Tx.{TxInput, AssetId, StealthExt, TxOutput, Transaction}

unfoldable pub encode_witness_item : List ℕ → List ℕ
encode_witness_item item = to_le_bytes 8 (length item) ++ item

unfoldable pub encode_witness : List (List ℕ) → List ℕ
encode_witness witness = to_le_bytes 8 (length witness) ++ flat_map encode_witness_item witness

unfoldable pub encode_input : Bool → TxInput → List ℕ
encode_input with_signatures input =
    input.outpoint.tx.bytes
    ++ (to_le_bytes 4 input.outpoint.index
        ++ (if with_signatures then encode_witness input.witness else []))

unfoldable pub encode_asset_id : Option AssetId → List ℕ
encode_asset_id none = 0 ∷ []
encode_asset_id (some a) = 1 ∷ a.bytes

unfoldable pub encode_stealth : Option StealthExt → List ℕ
encode_stealth none = 0 ∷ []
encode_stealth (some s) = 1 ∷ (s.r ++ s.view_tag ∷ s.p)

unfoldable pub encode_output : TxOutput → List ℕ
encode_output output =
    to_le_bytes 8 output.value
    ++ (encode_asset_id output.asset_id ++ (encode_stealth output.stealth ++ output.owner.bytes))

unfoldable pub encode_into : Bool → Transaction → List ℕ
encode_into with_signatures tx =
    to_le_bytes 8 (length tx.inputs)
    ++ (flat_map (encode_input with_signatures) tx.inputs
        ++ (to_le_bytes 8 (length tx.outputs)
            ++ (flat_map encode_output tx.outputs
                ++ (to_le_bytes 4 tx.n_lock_time
                    ++ (to_le_bytes 4 tx.sequence ++ (to_le_bytes 8 (length tx.tag) ++ tx.tag))))))

unfoldable pub encode : Transaction → List ℕ
encode tx = encode_into true tx

unfoldable pub encode_block_payload : List Transaction → List ℕ
encode_block_payload txs = to_le_bytes 8 (length txs) ++ flat_map (encode_into true) txs
