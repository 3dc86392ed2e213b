-- ===== src/Utxo/Lengths.antt =====
-- `encoded_len` against the length of the encoding.
use kovanica_node.Common.{
  ℕ, ◌+◌, ◌≡◌, refl, Option, none, some, [], ◌∷◌, ◌++◌, arith, length, flat_map, All, length-append,
  to_le_bytes, length-to_le_bytes,
}
use kovanica_node.Tx.{OutPoint, AssetId, StealthExt}
use kovanica_node.Tx.Encode.{encode_asset_id, encode_stealth}
use kovanica_node.Tx.WellFormed.{IsAssetId, IsStealth}
use kovanica_node.Utxo.{UtxoEntry, UtxoSet}
use kovanica_node.Utxo.Encode.{
  encode, encode_entry, u8_from, insert_sorted, sort_by_key, entry_len, entries_len, encoded_len,
}
use kovanica_node.Utxo.Sort.{All-sort_by_key}
use kovanica_node.Utxo.RoundTrip.{IsEntry}

abbrev asset_len : Option AssetId → ℕ
asset_len a = elim a [ none ↦ 1 | some _ ↦ 1 + 32 ]

abbrev stealth_len : Option StealthExt → ℕ
stealth_len s = elim s [ none ↦ 1 | some _ ↦ 1 + 65 ]

encode_asset_id_len : (a : Option AssetId) → IsAssetId a → length (encode_asset_id a) ≡ asset_len a
unfolding encode_asset_id
encode_asset_id_len none h = refl
encode_asset_id_len (some a) h = omega arith

encode_stealth_len :
    (s : Option StealthExt) → IsStealth s → length (encode_stealth s) ≡ stealth_len s
unfolding encode_stealth
encode_stealth_len none h = refl
encode_stealth_len (some s) h = omega (arith, length-append s.r (s.view_tag ∷ s.p))

encode_entry_len : (x : OutPoint × UtxoEntry) → IsEntry x → length (encode_entry x) ≡ entry_len x.1
unfolding encode_entry entry_len
encode_entry_len (op, e) h =
    let last = to_le_bytes 8 e.creation_height ++ u8_from e.is_coinbase ∷ [] in
    let ext = encode_stealth e.output.stealth ++ last in
    let asset = encode_asset_id e.output.asset_id ++ ext in
    let owner = e.output.owner.bytes ++ asset in
    let value = to_le_bytes 8 e.output.value ++ owner in
    omega (
      arith,
      h.txid,
      h.output.owner,
      length-append op.tx.bytes (to_le_bytes 4 op.index ++ value),
      length-append (to_le_bytes 4 op.index) value,
      length-append (to_le_bytes 8 e.output.value) owner,
      length-append e.output.owner.bytes asset,
      length-append (encode_asset_id e.output.asset_id) ext,
      length-append (encode_stealth e.output.stealth) last,
      length-append (to_le_bytes 8 e.creation_height) (u8_from e.is_coinbase ∷ []),
      length-to_le_bytes 4 op.index,
      length-to_le_bytes 8 e.output.value,
      length-to_le_bytes 8 e.creation_height,
      encode_asset_id_len e.output.asset_id h.output.asset,
      encode_stealth_len e.output.stealth h.output.stealth,
    )

flat_map_len : (s : UtxoSet) → All IsEntry s → length (flat_map encode_entry s) ≡ entries_len s
unfolding entries_len
flat_map_len [] h = refl
flat_map_len (x ∷ s) (p, h) = omega (
  arith,
  length-append (encode_entry x) (flat_map encode_entry s),
  encode_entry_len x p,
  flat_map_len s h,
)

entries_len-insert_sorted :
    (x : OutPoint × UtxoEntry) (s : UtxoSet)
    → entries_len (insert_sorted x s) ≡ entry_len x.1 + entries_len s
unfolding insert_sorted entries_len
entries_len-insert_sorted x [] = refl
entries_len-insert_sorted x (y ∷ s) = ground (arith, entries_len-insert_sorted x s)

entries_len-sort_by_key : (s : UtxoSet) → entries_len (sort_by_key s) ≡ entries_len s
unfolding sort_by_key entries_len
entries_len-sort_by_key [] = refl
entries_len-sort_by_key (x ∷ s) =
    omega (arith, entries_len-insert_sorted x (sort_by_key s), entries_len-sort_by_key s)

-- The length that `encoded_len` predicts is the number of bytes that `encode` writes, for every set
-- whose fields have the lengths of their types.
pub length-encode : (s : UtxoSet) → All IsEntry s → length (encode s) ≡ encoded_len s
unfolding encode encoded_len
length-encode s h = omega (
  arith,
  length-append (to_le_bytes 8 (length s)) (flat_map encode_entry (sort_by_key s)),
  length-to_le_bytes 8 (length s),
  flat_map_len (sort_by_key s) (All-sort_by_key IsEntry s h),
  entries_len-sort_by_key s,
)
