-- ===== src/Tx/Bounds.antt =====
-- What a successful decoding says of untrusted bytes.
use kovanica_node.Common.{
  ℕ, suc, ◌+◌, ◌*◌, ◌≤◌, ◌≡◌, ◌≢◌, sym, subst, to_le_bytes, ne→==, refl, ap, List, [], ◌∷◌, ◌++◌,
  arith, Result, ok, err, length, length-drop, Option, some,
}
use kovanica_node.Codec.{pure, ◌>>=◌, read_array, read_u64, read_count, bounded_count}
use kovanica_node.Codec.Laws.{
  step, bind-eq-ok, length-read_many, read_u8-cons, read_u64-append, read_array-append,
}
use kovanica_node.Tx.{Transaction, TxOutput, AssetId}
use kovanica_node.Tx.WellFormed.{IsOutput, IsAssetId}
use kovanica_node.Tx.RoundTrip.{read_stealth-append}
use mathlib.Core.List.{append_assoc, append_cancel_left}
use kovanica_node.Tx.Encode.{encode_stealth, encode_output, encode_asset_id}
use kovanica_node.Tx.Decode.{
  DecodeError, unexpected_eof, finish, read_asset_id, read_output, read_transaction,
  read_block_payload, decode_block_payload,
}

read_u64-length :
    (buf : List ℕ) {n : ℕ} {rest : List ℕ}
    → read_u64 unexpected_eof buf ≡ ok (n, rest)
    → length rest + 8 ≡ length buf
unfolding read_u64 read_array ◌>>=◌ pure
read_u64-length buf h = grind (arith, length-drop {0} 8 buf)

-- A count is accepted only if so many items of the least size fit in the bytes that follow it.
read_count_bounds :
    (m : ℕ) (buf : List ℕ) {n : ℕ} {rest : List ℕ}
    → read_count unexpected_eof (suc m) buf ≡ ok (n, rest)
    → n * suc m + 8 ≤ length buf
unfolding read_count bounded_count
read_count_bounds m buf h =
    let (k, b1, h1, h2) = bind-eq-ok (read_u64 unexpected_eof) _ buf h in
    grind (arith, read_u64-length buf h1)

finish-eq-ok :
    {A : Type 0} (x : Result DecodeError (A × List ℕ)) {a : A} → finish x ≡ ok a → x ≡ ok (a, [])
unfolding finish
finish-eq-ok (ok (a, [])) h = ground arith
finish-eq-ok (ok (a, b ∷ rest)) h = cc
finish-eq-ok (err e) h = cc

-- A payload that decodes holds 24 bytes for each of its transactions, and 8 for their count: the
-- vector that the decoder allocates is bounded by the payload's length, whatever count it declares.
pub decode_block_payload_bounds :
    (payload : List ℕ) (txs : List Transaction)
    → decode_block_payload payload ≡ ok txs
    → length txs * 24 + 8 ≤ length payload
unfolding decode_block_payload read_block_payload
decode_block_payload_bounds payload txs h =
    let (n, b1, h1, h2) = bind-eq-ok (read_count unexpected_eof 24) _ payload (finish-eq-ok _ h) in
    omega (arith, read_count_bounds 23 payload h1, length-read_many n read_transaction b1 h2)

-- An output with an asset, under another flag byte than the one that the encoder writes.
abbrev pub flagged_output : ℕ → AssetId → TxOutput → List ℕ
flagged_output flag a o =
    to_le_bytes 8 o.value ++ (flag ∷ (a.bytes ++ (encode_stealth o.stealth ++ o.owner.bytes)))

read_asset_id-flag :
    (flag : ℕ) (a : AssetId) (rest : List ℕ)
    → 1 ≤ flag
    → length a.bytes ≡ 32
    → read_asset_id (flag ∷ (a.bytes ++ rest)) ≡ ok (some a, rest)
unfolding read_asset_id pure
read_asset_id-flag flag a rest h n = step _ _ (read_u8-cons unexpected_eof flag (a.bytes ++ rest)) (
    rw (ne→== flag 0 (omega arith))
      (step _ _ (read_array-append unexpected_eof 32 a.bytes rest n) refl))

flag_ne_one :
    (flag : ℕ) (a : AssetId) (o : TxOutput)
    → o.asset_id ≡ some a
    → 2 ≤ flag
    → (flag ∷ (a.bytes ++ (encode_stealth o.stealth ++ o.owner.bytes)))
      ≢ encode_asset_id o.asset_id ++ (encode_stealth o.stealth ++ o.owner.bytes)
unfolding encode_asset_id
flag_ne_one flag a o e f p = ground arith

-- The encoding of an output is not canonical: for every output with an asset and every flag byte
-- from 2 on, there are bytes other than the encoder's that decode to that output, whatever follows.
pub flagged_output_decodes :
    (o : TxOutput) (a : AssetId) (flag : ℕ)
    → IsOutput o
    → o.asset_id ≡ some a
    → 2 ≤ flag
    → ((rest : List ℕ) → read_output (flagged_output flag a o ++ rest) ≡ ok (o, rest))
      × (flagged_output flag a o ≢ encode_output o)
flagged_output_decodes o a flag h e f = (decodes, differs)
  where
    decodes : (rest : List ℕ) → read_output (flagged_output flag a o ++ rest) ≡ ok (o, rest)
    decodes rest =
        unfold read_output pure in
        simp append_assoc (
          step _ _ (read_u64-append unexpected_eof _ _ h.value) (
            step _ _ (read_asset_id-flag flag a _ (omega arith) (subst IsAssetId e h.asset)) (
              step _ _ (read_stealth-append o.stealth h.stealth _) (
                step _ _ (read_array-append unexpected_eof 33 o.owner.bytes rest h.owner)
                  (ap (λ (x : Option AssetId). ok (record o { asset_id = x }, rest)) (sym e))))))

    differs : flagged_output flag a o ≢ encode_output o
    differs p = absurd (
        flag_ne_one flag a o e f
          (unfold encode_output in append_cancel_left (to_le_bytes 8 o.value) _ _ p))
