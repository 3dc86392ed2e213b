-- ===== src/Stake.antt =====
-- crates/kovanica-state/src/stake.rs: the stake that bonds lock, and the eligibility that it gives.
pub mod Tags
pub mod State
pub mod Backing
pub mod Eligibility
use kovanica_node.Common.{
  ℕ, ◌+◌, ◌-◌, ◌*◌, ◌/◌, ◌%◌, ◌^◌, Bool, true, false, Option, none, some, List, [], ◌∷◌, ◌++◌, ◌&&◌,
  ◌||◌, not, ltb, ◌==◌, if◌then◌else◌, length, take, drop, bytes_eq, ◌≡◌, ◌↔◌, arith, bytes_eq_iff,
}
use kovanica_node.Common.Map
use kovanica_node.Common.Map.{Map, Eq}
use kovanica_node.Tx.{OutPoint, AssetId}

abbrev pub unbond_maturity : ℕ
unbond_maturity = 100

-- `b"KVB1"` and `b"KVU1"`
abbrev pub bond_prefix : List ℕ
bond_prefix = 75 ∷ 86 ∷ 66 ∷ 49 ∷ []

abbrev pub unbond_prefix : List ℕ
unbond_prefix = 75 ∷ 86 ∷ 85 ∷ 49 ∷ []

pub data StakeError : Type 0 where
  bond_shape : StakeError
  frozen_input unbond_not_frozen : OutPoint → StakeError
  unbond_immature : OutPoint → ℕ → ℕ → StakeError

pub record Freeze : Type 0 where
  pub asset_id : AssetId
  pub vrf_pk : List ℕ
  pub bond_height : ℕ
  pub value : ℕ

-- The pair `(AssetId, [u8; 32])` that `locked` is keyed by.
pub record StakeKey : Type 0 where
  pub asset_id : AssetId
  pub vrf_pk : List ℕ

pub record StakeState : Type 0 where
  pub frozen : Map OutPoint Freeze
  pub locked : Map StakeKey ℕ

unfoldable pub key_eq : StakeKey → StakeKey → Bool
key_eq a b = bytes_eq a.asset_id.bytes b.asset_id.bytes && bytes_eq a.vrf_pk b.vrf_pk

pub key_eq_iff : (a b : StakeKey) → (key_eq a b ≡ true) ↔ (a ≡ b)
unfolding key_eq
key_eq_iff a b = (
  λ h.
      ground
        (arith, bytes_eq_iff a.asset_id.bytes b.asset_id.bytes, bytes_eq_iff a.vrf_pk b.vrf_pk),
  λ h.
      ground
        (arith, bytes_eq_iff a.asset_id.bytes b.asset_id.bytes, bytes_eq_iff a.vrf_pk b.vrf_pk),
)

instance abbrev pub stake_key : Eq StakeKey
stake_key = record { beq = key_eq; beq_iff = key_eq_iff }
