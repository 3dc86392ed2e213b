-- ===== src/Tx/RoundTrip.antt =====
-- The decoders of transactions and block payloads against their encoders.
use kovanica_node.Tx.WellFormed.{
  IsWitnessItem, IsInput, IsAssetId, IsStealth, IsOutput, IsTransaction,
}
use kovanica_node.Tx.Lengths.{witness_room, input_room, output_room, transaction_room}
use kovanica_node.Common.{
  ℕ, ◌^◌, ◌<◌, ◌≡◌, refl, Option, none, some, true, List, [], ◌++◌, arith, ok, length, All,
  length-append, to_le_bytes,
}
use mathlib.Core.List.{append_assoc, append-nil}
use kovanica_node.Codec.{pure}
use kovanica_node.Codec.Laws.{
  step, read_array-append, read_u8-cons, read_u32-append, read_u64-append, read_count-append,
  read_many-append,
}
use kovanica_node.Tx.{TxInput, AssetId, StealthExt, TxOutput, Transaction}
use kovanica_node.Tx.Encode.{
  encode_witness_item, encode_witness, encode_input, encode_asset_id, encode_stealth, encode_output,
  encode_into, encode, encode_block_payload,
}
use kovanica_node.Tx.Decode.{
  unexpected_eof, read_witness_item, read_input, read_asset_id, read_stealth, read_output,
  read_transaction, finish, decode, read_block_payload, decode_block_payload,
}

read_witness_item-append :
    (item : List ℕ)
    → IsWitnessItem item
    → (rest : List ℕ) → read_witness_item (encode_witness_item item ++ rest) ≡ ok (item, rest)
unfolding read_witness_item encode_witness_item
read_witness_item-append item h rest = rw append_assoc (
    step _ _ (read_count-append unexpected_eof 1 _ _ h (omega (arith, length-append item rest)))
      (read_array-append unexpected_eof _ item rest refl))

read_input-append :
    (i : TxInput)
    → IsInput i
    → (rest : List ℕ) → read_input (encode_input true i ++ rest) ≡ ok (i, rest)
unfolding read_input encode_input encode_witness
read_input-append i h rest = simp append_assoc (
    step _ _ (read_array-append unexpected_eof 32 _ _ h.txid) (
      step _ _ (read_u32-append unexpected_eof _ _ h.index) (
        step _ _ (read_count-append unexpected_eof 8 _ _ h.count (witness_room i h rest)) (
          step _ _
            (read_many-append read_witness_item encode_witness_item IsWitnessItem
              read_witness_item-append i.witness h.items rest)
            (unfold pure in refl)))))

read_asset_id-append :
    (a : Option AssetId)
    → IsAssetId a
    → (rest : List ℕ) → read_asset_id (encode_asset_id a ++ rest) ≡ ok (a, rest)
unfolding read_asset_id encode_asset_id pure
read_asset_id-append none h rest = step _ _ (read_u8-cons unexpected_eof 0 rest) refl
read_asset_id-append (some a) h rest =
    step _ _ (read_u8-cons unexpected_eof 1 _)
      (step _ _ (read_array-append unexpected_eof 32 a.bytes rest h) refl)

pub read_stealth-append :
    (s : Option StealthExt)
    → IsStealth s
    → (rest : List ℕ) → read_stealth (encode_stealth s ++ rest) ≡ ok (s, rest)
unfolding read_stealth encode_stealth pure
read_stealth-append none h rest = step _ _ (read_u8-cons unexpected_eof 0 rest) refl
read_stealth-append (some s) h rest = step _ _ (read_u8-cons unexpected_eof 1 _) (
    rw append_assoc (
      step _ _ (read_array-append unexpected_eof 32 s.r _ h.0) (
        step _ _ (read_u8-cons unexpected_eof s.view_tag _)
          (step _ _ (read_array-append unexpected_eof 32 s.p rest h.1) refl))))

read_output-append :
    (o : TxOutput)
    → IsOutput o
    → (rest : List ℕ) → read_output (encode_output o ++ rest) ≡ ok (o, rest)
unfolding read_output encode_output pure
read_output-append o h rest = simp append_assoc (
    step _ _ (read_u64-append unexpected_eof _ _ h.value) (
      step _ _ (read_asset_id-append o.asset_id h.asset _) (
        step _ _ (read_stealth-append o.stealth h.stealth _)
          (step _ _ (read_array-append unexpected_eof 33 o.owner.bytes rest h.owner) refl))))

-- The tag is written as a witness item is.
read_tag :
    (tx : Transaction)
    → IsTransaction tx
    → (rest : List ℕ)
    → read_witness_item (to_le_bytes 8 (length tx.tag) ++ (tx.tag ++ rest)) ≡ ok (tx.tag, rest)
read_tag tx h rest =
    rw (← append_assoc) (unfold encode_witness_item in read_witness_item-append tx.tag h.tag rest)

pub read_transaction-append :
    (tx : Transaction)
    → IsTransaction tx
    → (rest : List ℕ) → read_transaction (encode_into true tx ++ rest) ≡ ok (tx, rest)
unfolding read_transaction encode_into
read_transaction-append tx h rest = simp append_assoc (
    step _ _
      (read_count-append unexpected_eof 44 _ _ h.input_count (input_room tx.inputs h.inputs _))
      (step _ _
        (read_many-append read_input (encode_input true) IsInput read_input-append _ h.inputs _)
        (step _ _
          (read_count-append unexpected_eof 43 _ _ h.output_count
            (output_room tx.outputs h.outputs _))
          (step _ _
            (read_many-append read_output encode_output IsOutput read_output-append _ h.outputs _)
            (step _ _ (read_u32-append unexpected_eof _ _ h.n_lock_time) (
              step _ _ (read_u32-append unexpected_eof _ _ h.sequence)
                (step _ _ (read_tag tx h rest) (unfold pure in refl))))))))

-- Decoding the encoding of a transaction gives the transaction back.
pub decode-encode : (tx : Transaction) → IsTransaction tx → decode (encode tx) ≡ ok tx
unfolding decode encode finish
decode-encode tx h = rw (← append-nil (encode_into true tx), read_transaction-append tx h []) refl

read_block_payload-append :
    (txs : List Transaction)
    → All IsTransaction txs
    → length txs < 2 ^ 64
    → (rest : List ℕ) → read_block_payload (encode_block_payload txs ++ rest) ≡ ok (txs, rest)
unfolding read_block_payload encode_block_payload
read_block_payload-append txs h n rest = rw append_assoc (
    step _ _ (read_count-append unexpected_eof 24 _ _ n (transaction_room txs h rest)) (
      read_many-append read_transaction (encode_into true) IsTransaction read_transaction-append txs
        h rest))

-- Decoding the encoded payload of a block gives its transactions back, in order.
pub decode_block_payload-encode :
    (txs : List Transaction)
    → All IsTransaction txs
    → length txs < 2 ^ 64
    → decode_block_payload (encode_block_payload txs) ≡ ok txs
unfolding decode_block_payload finish
decode_block_payload-encode txs h n =
    rw (← append-nil (encode_block_payload txs), read_block_payload-append txs h n []) refl
