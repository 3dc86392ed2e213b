-- ===== src/Tx/Decode.antt =====
-- `Reader::read_transaction`, `Transaction::decode` and `decode_block_payload`.
use kovanica_node.Common.{
  ℕ, Option, none, some, List, [], ◌∷◌, ◌==◌, if◌then◌else◌, Result, ok, err,
}
use kovanica_node.Codec.{
  Parser, pure, ◌>>=◌, read_array, read_u8, read_u32, read_u64, read_count, read_many,
}
use kovanica_node.Tx.{TxInput, AssetId, StealthExt, TxOutput, Transaction}

pub data DecodeError : Type 0 where
  unexpected_eof trailing_bytes : DecodeError

abbrev pub Reader : Type 0 → Type 0
Reader = Parser DecodeError

-- `self.read_array_dyn(item_len)` behind its length prefix.
unfoldable pub read_witness_item : Reader (List ℕ)
read_witness_item = read_count unexpected_eof 1 >>= λ n. read_array unexpected_eof n

unfoldable pub read_input : Reader TxInput
read_input = do
  tx ← read_array unexpected_eof 32
  index ← read_u32 unexpected_eof
  n_witness ← read_count unexpected_eof 8
  witness ← read_many n_witness read_witness_item
  pure (record {
    outpoint = record { tx = record { bytes = tx }; index = index };
    witness = witness;
  })

-- `asset_flag == 0` means the native asset; any other flag is followed by an id.
unfoldable pub read_asset_id : Reader (Option AssetId)
read_asset_id = do
  flag ← read_u8 unexpected_eof
  if flag == 0
      then pure none
      else do bytes ← read_array unexpected_eof 32; pure (some (record { bytes = bytes }))

-- `stealth_flag == 1` means an extension; any other flag is an ordinary output.
unfoldable pub read_stealth : Reader (Option StealthExt)
read_stealth = do
  flag ← read_u8 unexpected_eof
  if flag == 1
      then (do
        r ← read_array unexpected_eof 32
        view_tag ← read_u8 unexpected_eof
        p ← read_array unexpected_eof 32
        pure (some (record { r = r; view_tag = view_tag; p = p })))
      else pure none

unfoldable pub read_output : Reader TxOutput
read_output = do
  value ← read_u64 unexpected_eof
  asset_id ← read_asset_id
  stealth ← read_stealth
  owner ← read_array unexpected_eof 33
  pure (record {
    value = value;
    asset_id = asset_id;
    owner = record { bytes = owner };
    stealth = stealth;
  })

unfoldable pub read_transaction : Reader Transaction
read_transaction = do
  n_inputs ← read_count unexpected_eof 44
  inputs ← read_many n_inputs read_input
  n_outputs ← read_count unexpected_eof 43
  outputs ← read_many n_outputs read_output
  n_lock_time ← read_u32 unexpected_eof
  sequence ← read_u32 unexpected_eof
  tag ← read_witness_item
  pure (record {
    inputs = inputs;
    outputs = outputs;
    tag = tag;
    n_lock_time = n_lock_time;
    sequence = sequence;
  })

-- The error when bytes are left over.
unfoldable pub finish : {A : Type 0} → Result DecodeError (A × List ℕ) → Result DecodeError A
finish (ok (a, [])) = ok a
finish (ok (a, b ∷ rest)) = err trailing_bytes
finish (err e) = err e

unfoldable pub decode : List ℕ → Result DecodeError Transaction
decode bytes = finish (read_transaction bytes)

unfoldable pub read_block_payload : Reader (List Transaction)
read_block_payload = read_count unexpected_eof 24 >>= λ count. read_many count read_transaction

unfoldable pub decode_block_payload : List ℕ → Result DecodeError (List Transaction)
decode_block_payload bytes = finish (read_block_payload bytes)
