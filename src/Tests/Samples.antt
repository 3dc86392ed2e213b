-- ===== src/Tests/Samples.antt =====
-- Data that the tests share.
use kovanica_node.Common.{ℕ, none, some, true, false, [], ◌∷◌, replicate, take, bytes_eq}
use kovanica_node.Tx.{TxId, OutPoint, AssetId, Address, TxOutput, Transaction}
use kovanica_node.Crypto.{Crypto}
use kovanica_node.Utxo.{UtxoEntry, UtxoSet}

abbrev pub txid : ℕ → TxId
txid n = record { bytes = replicate 32 n }

abbrev pub coin : ℕ → OutPoint
coin n = record { tx = txid n; index = 0 }

-- A version 0 address.
abbrev pub address : ℕ → Address
address n = record { bytes = 0 ∷ replicate 32 n }

abbrev pub stealth_address : Address
stealth_address = record { bytes = 3 ∷ replicate 32 9 }

abbrev pub asset : AssetId
asset = record { bytes = replicate 32 5 }

abbrev pub plain : ℕ → TxOutput
plain v = record { value = v; asset_id = none; owner = address 1; stealth = none }

abbrev pub token : TxOutput
token = record { value = 8; asset_id = some asset; owner = address 2; stealth = none }

abbrev pub hidden : TxOutput
hidden = record {
  value = 9;
  asset_id = none;
  owner = stealth_address;
  stealth = some (record { r = replicate 32 1; view_tag = 200; p = replicate 32 2 });
}

abbrev pub transfer : Transaction
transfer = record {
  inputs = record { outpoint = coin 7; witness = replicate 64 3 ∷ [] } ∷ [];
  outputs = plain 20 ∷ token ∷ hidden ∷ [];
  tag = 1 ∷ 2 ∷ 3 ∷ [];
  n_lock_time = 5;
  sequence = 4294967295;
}

abbrev pub coinbase : Transaction
coinbase = record {
  inputs = [];
  outputs = plain 50 ∷ [];
  tag = 104 ∷ 49 ∷ [];
  n_lock_time = 0;
  sequence = 0;
}

abbrev pub entry : ℕ → UtxoEntry
entry h = record { output = plain 20; creation_height = h; is_coinbase = true }

abbrev pub utxos : UtxoSet
utxos =
    (coin 7, record { output = hidden; creation_height = 3; is_coinbase = false })
    ∷ (coin 2, entry 0)
    ∷ []

-- A signature scheme in which a signature of a key starts with the key, and a hash that keeps the
-- first 32 bytes.
abbrev pub toy : Crypto
toy = record {
  blake3 = λ bytes. take 32 bytes;
  valid_key = λ key. true;
  verify_strict = λ key message signature. bytes_eq (take 32 signature) key;
}
