-- ===== src/Utxo/RoundTrip.antt =====
-- The decoder of a checkpoint against its encoder.
use kovanica_node.Common.{
  ℕ, ◌^◌, ◌<◌, ◌≡◌, refl, Bool, true, false, Option, none, some, List, [], ◌∷◌, ◌++◌, arith, ok,
  length, All,
}
use mathlib.Core.List.{append_assoc}
use kovanica_node.Codec.{pure}
use kovanica_node.Codec.Laws.{
  step, read_array-append, read_u8-cons, read_u32-append, read_u64-append, read_many-append,
}
use kovanica_node.Common.Map
use kovanica_node.Common.Map.{IsMap, SameMap}
use kovanica_node.Tx.{OutPoint, AssetId, StealthExt}
use kovanica_node.Tx.Encode.{encode_asset_id, encode_stealth}
use kovanica_node.Tx.WellFormed.{IsAssetId, IsStealth, IsOutput}
use kovanica_node.Utxo.{UtxoEntry, UtxoSet, outpoint_key}
use kovanica_node.Utxo.Encode.{encode, encode_entry, u8_from, sort_by_key}
use kovanica_node.Utxo.Decode.{
  unexpected_eof, read_asset_id, read_stealth, read_height, read_coinbase_flag, read_entry,
  insert_all, decode, decode_impl,
}
use kovanica_node.Utxo.Sort.{
  length-sort_by_key, All-sort_by_key, get-sort_by_key, sort_by_key-IsMap, get-insert_all,
}

pub record IsEntry (x : OutPoint × UtxoEntry) : Type 0 where
  pub txid : length x.0.tx.bytes ≡ 32
  pub index : x.0.index < 2 ^ 32
  pub output : IsOutput x.1.output
  pub height : x.1.creation_height < 2 ^ 64

read_asset_id-append :
    (a : Option AssetId)
    → IsAssetId a
    → (rest : List ℕ) → read_asset_id (encode_asset_id a ++ rest) ≡ ok (a, rest)
unfolding read_asset_id encode_asset_id pure
read_asset_id-append none h rest = step _ _ (read_u8-cons unexpected_eof 0 rest) refl
read_asset_id-append (some a) h rest =
    step _ _ (read_u8-cons unexpected_eof 1 _)
      (step _ _ (read_array-append unexpected_eof 32 a.bytes rest h) refl)

read_stealth-append :
    (s : Option StealthExt)
    → IsStealth s
    → (rest : List ℕ) → read_stealth (encode_stealth s ++ rest) ≡ ok (s, rest)
unfolding read_stealth encode_stealth pure
read_stealth-append none h rest = step _ _ (read_u8-cons unexpected_eof 0 rest) refl
read_stealth-append (some s) h rest = step _ _ (read_u8-cons unexpected_eof 1 _) (
    rw append_assoc (
      step _ _ (read_array-append unexpected_eof 32 s.r _ h.0) (
        step _ _ (read_u8-cons unexpected_eof s.view_tag _)
          (step _ _ (read_array-append unexpected_eof 32 s.p rest h.1) refl))))

read_coinbase_flag-append :
    (b : Bool) (rest : List ℕ) → read_coinbase_flag true (u8_from b ∷ rest) ≡ ok (b, rest)
unfolding read_coinbase_flag u8_from pure
read_coinbase_flag-append true rest = step _ _ (read_u8-cons unexpected_eof 1 rest) refl
read_coinbase_flag-append false rest = step _ _ (read_u8-cons unexpected_eof 0 rest) refl

read_entry-append :
    (x : OutPoint × UtxoEntry)
    → IsEntry x
    → (rest : List ℕ) → read_entry true true (encode_entry x ++ rest) ≡ ok (x, rest)
unfolding read_entry encode_entry read_height pure
read_entry-append (op, e) h rest = simp append_assoc (
    step _ _ (read_array-append unexpected_eof 32 _ _ h.txid) (
      step _ _ (read_u32-append unexpected_eof _ _ h.index) (
        step _ _ (read_u64-append unexpected_eof _ _ h.output.value) (
          step _ _ (read_array-append unexpected_eof 33 _ _ h.output.owner) (
            step _ _ (read_asset_id-append _ h.output.asset _) (
              step _ _ (read_stealth-append _ h.output.stealth _) (
                step _ _ (read_u64-append unexpected_eof _ _ h.height)
                  (step _ _ (read_coinbase_flag-append e.is_coinbase rest) refl))))))))

-- Decoding an encoded set, whatever bytes follow it, consumes exactly the encoding and gives a set
-- with the same entry, or none, at every outpoint. The set has one entry for each outpoint, and its
-- fields have the lengths and ranges of their types.
pub checkpoint_roundtrip :
    (s : UtxoSet)
    → IsMap s
    → All IsEntry s
    → length s < 2 ^ 64
    → (rest : List ℕ) → (s' : UtxoSet) × (decode (encode s ++ rest) ≡ ok (s', rest)) × SameMap s' s
unfolding decode decode_impl encode pure
checkpoint_roundtrip s m h n rest = (
  insert_all (sort_by_key s) [],
  rw (append_assoc, ← length-sort_by_key s)
      (step _ _ (read_u64-append unexpected_eof _ _ (rw length-sort_by_key n)) (
        step _ _
          (read_many-append (read_entry true true) encode_entry IsEntry read_entry-append
            (sort_by_key s) (All-sort_by_key IsEntry s h) rest)
          refl)),
  λ k. same k,
)
  where
    same : SameMap (insert_all (sort_by_key s) []) s
    same k =
        unfold Map.get in
        ground (
          arith,
          get-insert_all (sort_by_key s) [] (sort_by_key-IsMap s m) k,
          get-sort_by_key s m k,
        )
