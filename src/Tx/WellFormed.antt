-- ===== src/Tx/WellFormed.antt =====
-- What the types of the source fix: the lengths of byte arrays and the ranges of words.
use kovanica_node.Common.{ℕ, ◌^◌, ◌<◌, ◌≡◌, Option, none, some, List, length, All}
use kovanica_node.Tx.{TxInput, AssetId, StealthExt, TxOutput, Transaction}

abbrev pub IsWitnessItem : List ℕ → Type 0
IsWitnessItem item = length item < 2 ^ 64

pub record IsInput (i : TxInput) : Type 0 where
  pub txid : length i.outpoint.tx.bytes ≡ 32
  pub index : i.outpoint.index < 2 ^ 32
  pub count : length i.witness < 2 ^ 64
  pub items : All IsWitnessItem i.witness

abbrev pub IsAssetId : Option AssetId → Type 0
IsAssetId none = Unit
IsAssetId (some a) = length a.bytes ≡ 32

abbrev pub IsStealth : Option StealthExt → Type 0
IsStealth none = Unit
IsStealth (some s) = (length s.r ≡ 32) × (length s.p ≡ 32)

pub record IsOutput (o : TxOutput) : Type 0 where
  pub value : o.value < 2 ^ 64
  pub asset : IsAssetId o.asset_id
  pub stealth : IsStealth o.stealth
  pub owner : length o.owner.bytes ≡ 33

pub record IsTransaction (tx : Transaction) : Type 0 where
  pub input_count : length tx.inputs < 2 ^ 64
  pub inputs : All IsInput tx.inputs
  pub output_count : length tx.outputs < 2 ^ 64
  pub outputs : All IsOutput tx.outputs
  pub n_lock_time : tx.n_lock_time < 2 ^ 32
  pub sequence : tx.sequence < 2 ^ 32
  pub tag : length tx.tag < 2 ^ 64
