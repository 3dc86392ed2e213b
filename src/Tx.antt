-- ===== src/Tx.antt =====
-- crates/kovanica-state/src/tx.rs: transactions and their canonical encoding. A byte array `[u8; N]`
-- and a `Vec<u8>` are lists of numbers below 256; lengths that the type fixes in the source stand in
-- `IsWellFormed` (module Tx.RoundTrip).
pub mod Encode
pub mod Decode
pub mod WellFormed
mod Lengths
pub mod RoundTrip
pub mod Bounds
use kovanica_node.Common.{
  ℕ, Bool, Option, none, some, List, [], ◌∷◌, ◌&&◌, bytes_eq, true, false, ◌==◌, ◌↔◌, ◌≡◌, arith,
  bytes_eq_iff,
}

pub record TxId : Type 0 where
  pub bytes : List ℕ

pub record OutPoint : Type 0 where
  pub tx : TxId
  pub index : ℕ

pub record TxInput : Type 0 where
  pub outpoint : OutPoint
  pub witness : List (List ℕ)

pub record AssetId : Type 0 where
  pub bytes : List ℕ

-- crates/kovanica-state/src/keys.rs
pub record Address : Type 0 where
  pub bytes : List ℕ

pub record StealthExt : Type 0 where
  pub r : List ℕ
  pub view_tag : ℕ
  pub p : List ℕ

pub record TxOutput : Type 0 where
  pub value : ℕ
  pub asset_id : Option AssetId
  pub owner : Address
  pub stealth : Option StealthExt

pub record Transaction : Type 0 where
  pub inputs : List TxInput
  pub outputs : List TxOutput
  pub tag : List ℕ
  pub n_lock_time : ℕ
  pub sequence : ℕ

unfoldable pub outpoint_eq : OutPoint → OutPoint → Bool
unfolding bytes_eq
outpoint_eq a b = bytes_eq a.tx.bytes b.tx.bytes && a.index == b.index

-- `self.0[0]`; the byte array is never empty.
abbrev pub version : Address → ℕ
version a = elim a.bytes [ [] ↦ 0 | b ∷ _ ↦ b ]

unfoldable pub is_p2sh : Address → Bool
is_p2sh a = version a == 1

unfoldable pub is_script_v2 : Address → Bool
is_script_v2 a = version a == 2

unfoldable pub is_stealth : Address → Bool
is_stealth a = version a == 3

unfoldable pub is_htlc : Address → Bool
is_htlc a = version a == 4

unfoldable pub is_vault : Address → Bool
is_vault a = version a == 5

unfoldable pub is_coinbase : Transaction → Bool
is_coinbase tx = elim tx.inputs [ [] ↦ true | _ ∷ _ ↦ false ]

-- `self.stealth.is_some()`
unfoldable pub has_stealth : TxOutput → Bool
has_stealth o = elim o.stealth [ none ↦ false | some _ ↦ true ]

pub outpoint_eq_iff : (a b : OutPoint) → (outpoint_eq a b ≡ true) ↔ (a ≡ b)
unfolding outpoint_eq
outpoint_eq_iff a b = (
  λ h. ground (arith, bytes_eq_iff a.tx.bytes b.tx.bytes),
  λ h. ground (arith, bytes_eq_iff a.tx.bytes b.tx.bytes),
)
