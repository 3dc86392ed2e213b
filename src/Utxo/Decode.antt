-- ===== src/Utxo/Decode.antt =====
-- `UtxoSet::decode_impl` and the decoders of the three checkpoint formats.
use kovanica_node.Common.{
  ℕ, Bool, true, false, Option, none, some, List, [], ◌∷◌, ◌==◌, if◌then◌else◌, not,
}
use kovanica_node.Codec.{Parser, pure, ◌>>=◌, read_array, read_u8, read_u32, read_u64, read_many}
use kovanica_node.Tx.{OutPoint, AssetId, StealthExt}
use kovanica_node.Common.Map
use kovanica_node.Utxo.{UtxoEntry, UtxoSet, outpoint_key}

pub data UtxoDecodeError : Type 0 where
  unexpected_eof trailing_bytes : UtxoDecodeError

abbrev pub CheckpointReader : Type 0 → Type 0
CheckpointReader = Parser UtxoDecodeError

-- Any flag but 1 is the native asset.
unfoldable pub read_asset_id : CheckpointReader (Option AssetId)
read_asset_id = do
  flag ← read_u8 unexpected_eof
  if flag == 1
      then (do bytes ← read_array unexpected_eof 32; pure (some (record { bytes = bytes })))
      else pure none

unfoldable pub read_stealth : CheckpointReader (Option StealthExt)
read_stealth = do
  flag ← read_u8 unexpected_eof
  if flag == 1
      then (do
        r ← read_array unexpected_eof 32
        view_tag ← read_u8 unexpected_eof
        p ← read_array unexpected_eof 32
        pure (some (record { r = r; view_tag = view_tag; p = p })))
      else pure none

unfoldable pub read_height : Bool → CheckpointReader ℕ
read_height with_creation_height = if with_creation_height then read_u64 unexpected_eof else pure 0

unfoldable pub read_coinbase_flag : Bool → CheckpointReader Bool
read_coinbase_flag with_coinbase_flag =
    if with_coinbase_flag
    then (do flag ← read_u8 unexpected_eof; pure (not (flag == 0)))
    else pure false

unfoldable pub read_entry : Bool → Bool → CheckpointReader (OutPoint × UtxoEntry)
read_entry with_creation_height with_coinbase_flag = do
  tx ← read_array unexpected_eof 32
  index ← read_u32 unexpected_eof
  value ← read_u64 unexpected_eof
  owner ← read_array unexpected_eof 33
  asset_id ← read_asset_id
  stealth ← read_stealth
  creation_height ← read_height with_creation_height
  is_coinbase ← read_coinbase_flag with_coinbase_flag
  pure (
    record { tx = record { bytes = tx }; index = index },
    record {
      output = record {
        value = value;
        asset_id = asset_id;
        owner = record { bytes = owner };
        stealth = stealth;
      };
      creation_height = creation_height;
      is_coinbase = is_coinbase;
    },
  )

-- `map.insert` for one entry after another.
unfoldable pub insert_all : List (OutPoint × UtxoEntry) → UtxoSet → UtxoSet
insert_all [] set = set
insert_all ((op, entry) ∷ entries) set = insert_all entries (Map.insert op entry set)

unfoldable pub decode_impl : Bool → Bool → CheckpointReader UtxoSet
decode_impl with_creation_height with_coinbase_flag = do
  count ← read_u64 unexpected_eof
  entries ← read_many count (read_entry with_creation_height with_coinbase_flag)
  pure (insert_all entries [])

unfoldable pub decode : CheckpointReader UtxoSet
decode = decode_impl true true

unfoldable pub decode_v6 : CheckpointReader UtxoSet
decode_v6 = decode_impl true false

unfoldable pub decode_v5 : CheckpointReader UtxoSet
decode_v5 = decode_impl false false
