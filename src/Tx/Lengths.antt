-- ===== src/Tx/Lengths.antt =====
-- How many bytes the encoder writes at least, which the decoder's counts rely on.
use kovanica_node.Tx.WellFormed.{IsWitnessItem, IsInput, IsOutput, IsTransaction}
use kovanica_node.Common.{
  ℕ, ◌*◌, ◌≤◌, Option, none, some, true, List, ◌++◌, arith, length, flat_map, All, length-append,
  length-flat_map_ge, to_le_bytes, length-to_le_bytes,
}
use kovanica_node.Tx.{TxInput, AssetId, StealthExt, TxOutput, Transaction}
use kovanica_node.Tx.Encode.{
  encode_witness_item, encode_witness, encode_input, encode_asset_id, encode_stealth, encode_output,
  encode_into,
}

pub encode_witness_item-length :
    (item : List ℕ) → IsWitnessItem item → 8 ≤ length (encode_witness_item item)
unfolding encode_witness_item
encode_witness_item-length item h =
    omega
      (arith, length-append (to_le_bytes 8 (length item)) item, length-to_le_bytes 8 (length item))

-- What remains holds every item of the witness: eight bytes of length prefix at least.
pub witness_room :
    (i : TxInput)
    → IsInput i
    → (rest : List ℕ)
    → length i.witness * 8 ≤ length (flat_map encode_witness_item i.witness ++ rest)
witness_room i h rest = omega (
  arith,
  length-append (flat_map encode_witness_item i.witness) rest,
  length-flat_map_ge IsWitnessItem encode_witness_item 8 encode_witness_item-length i.witness
      h.items,
)

pub encode_input-length : (i : TxInput) → IsInput i → 44 ≤ length (encode_input true i)
unfolding encode_input encode_witness
encode_input-length i h =
    let body = flat_map encode_witness_item i.witness in
    let count = to_le_bytes 8 (length i.witness) in
    let index = to_le_bytes 4 i.outpoint.index in
    omega (
      arith,
      h.txid,
      length-append i.outpoint.tx.bytes (index ++ (count ++ body)),
      length-append index (count ++ body),
      length-append count body,
      length-to_le_bytes 4 i.outpoint.index,
      length-to_le_bytes 8 (length i.witness),
    )

encode_asset_id-length : (a : Option AssetId) → 1 ≤ length (encode_asset_id a)
unfolding encode_asset_id
encode_asset_id-length none = omega arith
encode_asset_id-length (some a) = omega arith

encode_stealth-length : (s : Option StealthExt) → 1 ≤ length (encode_stealth s)
unfolding encode_stealth
encode_stealth-length none = omega arith
encode_stealth-length (some s) = omega arith

tail_length :
    (o : TxOutput)
    → IsOutput o
    → 35 ≤ length (encode_asset_id o.asset_id ++ (encode_stealth o.stealth ++ o.owner.bytes))
tail_length o h =
    let asset = encode_asset_id o.asset_id in
    let ext = encode_stealth o.stealth in
    omega (
      arith,
      h.owner,
      length-append asset (ext ++ o.owner.bytes),
      length-append ext o.owner.bytes,
      encode_asset_id-length o.asset_id,
      encode_stealth-length o.stealth,
    )

pub encode_output-length : (o : TxOutput) → IsOutput o → 43 ≤ length (encode_output o)
unfolding encode_output
encode_output-length o h =
    omega (
      arith,
      tail_length o h,
      length-to_le_bytes 8 o.value,
      length-append (to_le_bytes 8 o.value) _,
    )

-- The size of the remainder bounds the counts that a transaction declares.
pub input_room :
    (inputs : List TxInput)
    → All IsInput inputs
    → (rest : List ℕ) → length inputs * 44 ≤ length (flat_map (encode_input true) inputs ++ rest)
input_room inputs h rest = omega (
  arith,
  length-append (flat_map (encode_input true) inputs) rest,
  length-flat_map_ge IsInput (encode_input true) 44 encode_input-length inputs h,
)

pub output_room :
    (outputs : List TxOutput)
    → All IsOutput outputs
    → (rest : List ℕ) → length outputs * 43 ≤ length (flat_map encode_output outputs ++ rest)
output_room outputs h rest = omega (
  arith,
  length-append (flat_map encode_output outputs) rest,
  length-flat_map_ge IsOutput encode_output 43 encode_output-length outputs h,
)

-- An encoded transaction takes four counts of eight bytes at least.
pub encode_into-length : (tx : Transaction) → IsTransaction tx → 24 ≤ length (encode_into true tx)
unfolding encode_into
encode_into-length tx h =
    let count = to_le_bytes 8 (length tx.inputs) in
    let ins = flat_map (encode_input true) tx.inputs in
    let count_out = to_le_bytes 8 (length tx.outputs) in
    let outs = flat_map encode_output tx.outputs in
    let end =
      to_le_bytes 4 tx.n_lock_time
      ++ (to_le_bytes 4 tx.sequence ++ (to_le_bytes 8 (length tx.tag) ++ tx.tag)) in
    omega (
      arith,
      length-append count (ins ++ (count_out ++ (outs ++ end))),
      length-append ins (count_out ++ (outs ++ end)),
      length-append count_out (outs ++ end),
      length-append outs end,
      length-append (to_le_bytes 4 tx.n_lock_time)
          (to_le_bytes 4 tx.sequence ++ (to_le_bytes 8 (length tx.tag) ++ tx.tag)),
      length-append (to_le_bytes 4 tx.sequence) (to_le_bytes 8 (length tx.tag) ++ tx.tag),
      length-to_le_bytes 8 (length tx.inputs),
      length-to_le_bytes 8 (length tx.outputs),
      length-to_le_bytes 4 tx.n_lock_time,
      length-to_le_bytes 4 tx.sequence,
    )

pub transaction_room :
    (txs : List Transaction)
    → All IsTransaction txs
    → (rest : List ℕ) → length txs * 24 ≤ length (flat_map (encode_into true) txs ++ rest)
transaction_room txs h rest = omega (
  arith,
  length-append (flat_map (encode_into true) txs) rest,
  length-flat_map_ge IsTransaction (encode_into true) 24 encode_into-length txs h,
)
