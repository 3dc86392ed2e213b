-- ===== src/Utxo/Encode.antt =====
-- `UtxoSet::encode` and `UtxoSet::encoded_len`.
use kovanica_node.Common.{
  ℕ, ◌+◌, bytes_lt, ltb, Bool, true, false, none, some, List, [], ◌∷◌, ◌++◌, if◌then◌else◌, length,
  flat_map, to_le_bytes,
}
use kovanica_node.Tx.{OutPoint}
use kovanica_node.Tx.Encode.{encode_asset_id, encode_stealth}
use kovanica_node.Utxo.{UtxoEntry, UtxoSet}

-- The order of `[u8; 32]`, then of the index: the derived `Ord` of an outpoint.
unfoldable pub outpoint_lt : OutPoint → OutPoint → Bool
outpoint_lt a b =
    if bytes_lt a.tx.bytes b.tx.bytes
    then true
    else if bytes_lt b.tx.bytes a.tx.bytes
    then false
    else ltb a.index b.index

-- `entries.sort_by_key(|(op, _)| *op)`, by insertion.
unfoldable pub insert_sorted :
    OutPoint × UtxoEntry → List (OutPoint × UtxoEntry) → List (OutPoint × UtxoEntry)
insert_sorted x [] = x ∷ []
insert_sorted x (y ∷ ys) =
    let rest = insert_sorted x ys in if outpoint_lt y.0 x.0 then y ∷ rest else x ∷ y ∷ ys

unfoldable pub sort_by_key : List (OutPoint × UtxoEntry) → List (OutPoint × UtxoEntry)
sort_by_key [] = []
sort_by_key (x ∷ xs) = insert_sorted x (sort_by_key xs)

-- `u8::from(b)`
unfoldable pub u8_from : Bool → ℕ
u8_from true = 1
u8_from false = 0

unfoldable pub encode_entry : OutPoint × UtxoEntry → List ℕ
encode_entry (op, entry) =
    op.tx.bytes
    ++ (to_le_bytes 4 op.index
        ++ (to_le_bytes 8 entry.output.value
            ++ (entry.output.owner.bytes
                ++ (encode_asset_id entry.output.asset_id
                    ++ (encode_stealth entry.output.stealth
                        ++ (to_le_bytes 8 entry.creation_height
                            ++ u8_from entry.is_coinbase ∷ []))))))

unfoldable pub encode : UtxoSet → List ℕ
encode set = to_le_bytes 8 (length set) ++ flat_map encode_entry (sort_by_key set)

unfoldable pub entry_len : UtxoEntry → ℕ
entry_len entry =
    let asset : ℕ = elim entry.output.asset_id [ none ↦ 1 | some _ ↦ 1 + 32 ] in
    let stealth : ℕ = elim entry.output.stealth [ none ↦ 1 | some _ ↦ 1 + 65 ] in
    32 + 4 + 8 + 33 + asset + stealth + 8 + 1

unfoldable pub entries_len : UtxoSet → ℕ
entries_len [] = 0
entries_len ((op, entry) ∷ set) = entry_len entry + entries_len set

unfoldable pub encoded_len : UtxoSet → ℕ
encoded_len set = 8 + entries_len set
