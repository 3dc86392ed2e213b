-- ===== src/Utxo.antt =====
-- crates/kovanica-state/src/utxo.rs: the set of unspent outputs. The map's entries stand in the
-- order in which an iteration meets them, which the source leaves unspecified.
pub mod Encode
pub mod Decode
pub mod Totals
pub mod Lengths
pub mod Sort
pub mod RoundTrip
use kovanica_node.Common.{
  ℕ, ◌+◌, Bool, true, false, Option, none, some, List, [], ◌∷◌, ◌&&◌, ltb, ◌==◌, if◌then◌else◌,
  length, not, bytes_eq, ◌≡◌, ◌↔◌, refl, arith, bytes_eq_iff,
}
use mathlib.Core.Option
use kovanica_node.Common.Words.{u64_max, saturating_add}
use kovanica_node.Common.Map
use kovanica_node.Common.Map.{Map, Eq}
use kovanica_node.Tx.{
  OutPoint, TxOutput, AssetId, Address, StealthExt, outpoint_eq, outpoint_eq_iff,
}

instance abbrev pub outpoint_key : Eq OutPoint
outpoint_key = record { beq = outpoint_eq; beq_iff = outpoint_eq_iff }

pub record UtxoEntry : Type 0 where
  pub output : TxOutput
  pub creation_height : ℕ
  pub is_coinbase : Bool

abbrev pub coinbase_maturity : ℕ
coinbase_maturity = 100

unfoldable pub is_spendable_at : UtxoEntry → ℕ → Bool
is_spendable_at entry height =
    if not entry.is_coinbase
    then true
    else if entry.creation_height == 0
    then true
    else not (ltb height (saturating_add u64_max entry.creation_height coinbase_maturity))

abbrev pub UtxoSet : Type 0
UtxoSet = Map OutPoint UtxoEntry

unfoldable pub get_entry : OutPoint → UtxoSet → Option UtxoEntry
get_entry = Map.get

unfoldable pub get : OutPoint → UtxoSet → Option TxOutput
get op set = Option.map (λ (e : UtxoEntry). e.output) (get_entry op set)

-- The set afterwards, and the entry that was there.
unfoldable pub insert_entry : OutPoint → UtxoEntry → UtxoSet → UtxoSet × Option UtxoEntry
insert_entry op entry set = (Map.insert op entry set, Map.get op set)

unfoldable pub insert_with_height : OutPoint → TxOutput → ℕ → UtxoSet → UtxoSet × Option UtxoEntry
insert_with_height op output creation_height =
    insert_entry op
      (record { output = output; creation_height = creation_height; is_coinbase = false })

unfoldable pub insert_coinbase : OutPoint → TxOutput → ℕ → UtxoSet → UtxoSet × Option UtxoEntry
insert_coinbase op output creation_height =
    insert_entry op
      (record { output = output; creation_height = creation_height; is_coinbase = true })

unfoldable pub remove : OutPoint → UtxoSet → UtxoSet
remove = Map.remove

-- The sum over the entries of what `f` reads of an output, in u128.
unfoldable pub sum_outputs : (TxOutput → ℕ) → UtxoSet → ℕ
sum_outputs f [] = 0
sum_outputs f ((op, e) ∷ set) = f e.output + sum_outputs f set

unfoldable pub total_value : UtxoSet → ℕ
total_value = sum_outputs (λ o. o.value)

unfoldable pub asset_eq : Option AssetId → Option AssetId → Bool
asset_eq none none = true
asset_eq (some a) (some b) = bytes_eq a.bytes b.bytes
asset_eq _ _ = false

unfoldable pub address_eq : Address → Address → Bool
address_eq a b = bytes_eq a.bytes b.bytes

unfoldable pub balance_of_asset : Address → Option AssetId → UtxoSet → ℕ
balance_of_asset owner asset =
    sum_outputs λ o. if address_eq o.owner owner && asset_eq o.asset_id asset then o.value else 0

unfoldable pub balance : Address → UtxoSet → ℕ
balance owner =
    sum_outputs λ o. if address_eq o.owner owner && asset_eq o.asset_id none then o.value else 0

unfoldable pub stealth_eq : Option StealthExt → Option StealthExt → Bool
stealth_eq none none = true
stealth_eq (some a) (some b) = bytes_eq a.r b.r && (a.view_tag == b.view_tag && bytes_eq a.p b.p)
stealth_eq _ _ = false

unfoldable pub output_eq : TxOutput → TxOutput → Bool
output_eq a b =
    a.value == b.value
    && (asset_eq a.asset_id b.asset_id
        && (address_eq a.owner b.owner && stealth_eq a.stealth b.stealth))

unfoldable pub bool_eq : Bool → Bool → Bool
bool_eq true b = b
bool_eq false b = not b

-- The derived equality of entries.
unfoldable pub entry_eq : UtxoEntry → UtxoEntry → Bool
entry_eq a b =
    output_eq a.output b.output
    && (a.creation_height == b.creation_height && bool_eq a.is_coinbase b.is_coinbase)

pub asset_eq_iff : (a b : Option AssetId) → (asset_eq a b ≡ true) ↔ (a ≡ b)
unfolding asset_eq
asset_eq_iff none none = (λ h. refl, λ h. refl)
asset_eq_iff none (some b) = (λ h. cc, λ h. cc)
asset_eq_iff (some a) none = (λ h. cc, λ h. cc)
asset_eq_iff (some a) (some b) = (
  λ h. ground (arith, bytes_eq_iff a.bytes b.bytes),
  λ h. ground (arith, bytes_eq_iff a.bytes b.bytes),
)

stealth_eq_iff : (a b : Option StealthExt) → (stealth_eq a b ≡ true) ↔ (a ≡ b)
unfolding stealth_eq
stealth_eq_iff none none = (λ h. refl, λ h. refl)
stealth_eq_iff none (some b) = (λ h. cc, λ h. cc)
stealth_eq_iff (some a) none = (λ h. cc, λ h. cc)
stealth_eq_iff (some a) (some b) = (
  λ h. ground (arith, bytes_eq_iff a.r b.r, bytes_eq_iff a.p b.p),
  λ h. ground (arith, bytes_eq_iff a.r b.r, bytes_eq_iff a.p b.p),
)

pub address_eq_iff : (a b : Address) → (address_eq a b ≡ true) ↔ (a ≡ b)
unfolding address_eq
address_eq_iff a b = (
  λ h. ground (arith, bytes_eq_iff a.bytes b.bytes),
  λ h. ground (arith, bytes_eq_iff a.bytes b.bytes),
)

output_eq_iff : (a b : TxOutput) → (output_eq a b ≡ true) ↔ (a ≡ b)
unfolding output_eq
output_eq_iff a b = (
  λ h. ground (
    arith,
    asset_eq_iff a.asset_id b.asset_id,
    address_eq_iff a.owner b.owner,
    stealth_eq_iff a.stealth b.stealth,
  ),
  λ h. ground (
    arith,
    asset_eq_iff a.asset_id b.asset_id,
    address_eq_iff a.owner b.owner,
    stealth_eq_iff a.stealth b.stealth,
  ),
)

pub entry_eq_iff : (a b : UtxoEntry) → (entry_eq a b ≡ true) ↔ (a ≡ b)
unfolding entry_eq bool_eq
entry_eq_iff a b = (
  λ h. ground (arith, output_eq_iff a.output b.output),
  λ h. ground (arith, output_eq_iff a.output b.output),
)
