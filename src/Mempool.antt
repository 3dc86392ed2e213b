-- ===== src/Mempool.antt =====
-- crates/kovanica-node/src/mempool_v2.rs: the pool of pending transactions and orphans. Pool has the
-- operations, Evict the eviction loops, Invariant what every sequence of operations keeps, and
-- Limits the bounds after an admission. `total_bytes` is a word that wraps. An error leaves behind
-- what was changed before it, so an operation returns the pool beside its result.
pub mod Evict
pub mod Pool
pub mod Removals
pub mod Keeps
pub mod Room
pub mod Invariant
pub mod Reach
pub mod Limits
pub mod Answers
use kovanica_node.Common.{
  ℕ, zero, suc, ◌+◌, ◌-◌, ◌/◌, ◌%◌, ◌^◌, Bool, true, false, Option, none, some, List, [], ◌∷◌,
  Result, ok, err, ltb, ◌==◌, if◌then◌else◌, length, bytes_eq, bytes_eq_iff, ◌≡◌, ◌↔◌, arith,
}
use kovanica_node.Common.Map
use kovanica_node.Common.Map.{Map, Eq}
use kovanica_node.Common.Words.{u64_max, checked_add}
use kovanica_node.Tx.{TxId, OutPoint, TxInput, TxOutput, Transaction, is_coinbase}
use kovanica_node.Tx.Encode.{encode}
use kovanica_node.Utxo
use kovanica_node.Utxo.{UtxoSet}

unfoldable pub tx_id_eq : TxId → TxId → Bool
tx_id_eq a b = bytes_eq a.bytes b.bytes

pub tx_id_eq_iff : (a b : TxId) → (tx_id_eq a b ≡ true) ↔ (a ≡ b)
unfolding tx_id_eq
tx_id_eq_iff a b = (
  λ h. ground (arith, bytes_eq_iff a.bytes b.bytes),
  λ h. ground (arith, bytes_eq_iff a.bytes b.bytes),
)

instance abbrev pub tx_id_key : Eq TxId
tx_id_key = record { beq = tx_id_eq; beq_iff = tx_id_eq_iff }

pub record MempoolConfig : Type 0 where
  pub max_txs : Option ℕ
  pub max_bytes : Option ℕ
  pub max_orphans : Option ℕ
  pub min_fee_rate : ℕ
  pub orphan_max_age_blocks : ℕ

abbrev pub default_config : MempoolConfig
default_config = record {
  max_txs = some 100000;
  max_bytes = some 100000000;
  max_orphans = some 10000;
  min_fee_rate = 0;
  orphan_max_age_blocks = 100;
}

pub record MempoolEntry : Type 0 where
  pub tx : Transaction
  pub size : ℕ
  pub fee_rate : ℕ

pub record MempoolV2 : Type 0 where
  pub config : MempoolConfig
  pub pending : Map TxId MempoolEntry
  pub orphans : Map TxId MempoolEntry
  pub orphans_by_missing : Map OutPoint (List TxId)
  pub current_height : ℕ
  pub total_bytes : ℕ

pub data Added : Type 0 where
  pending orphan : Added

-- `out_of_fuel` is no error value of the source.
pub data MempoolError : Type 0 where
  duplicate : TxId → MempoolError
  coinbase_rejected capacity_exceeded missing_inputs no_replacement_target : MempoolError
  below_min_fee_rate : ℕ → ℕ → MempoolError
  insufficient_fee_bump : ℕ → ℕ → ℕ → MempoolError
  out_of_fuel : MempoolError

abbrev pub Outcome : Type 0 → Type 0
Outcome A = MempoolV2 × Result MempoolError A

-- The next step runs on the pool that the first one leaves.
infixl 5 ◌>>=◌
abbrev pub ◌>>=◌ : {A B : Type 0} → Outcome A → (A → MempoolV2 → Outcome B) → Outcome B
(pool, ok a) >>= f = f a pool
(pool, err e) >>= f = (pool, err e)

unfoldable pub new : MempoolConfig → MempoolV2
new config = record {
  config = config;
  pending = [];
  orphans = [];
  orphans_by_missing = [];
  current_height = 0;
  total_bytes = 0;
}

-- `usize` arithmetic as of a release build.
unfoldable pub add_bytes : ℕ → ℕ → ℕ
add_bytes total size = (total + size) % 2 ^ 64

unfoldable pub sub_bytes : ℕ → ℕ → ℕ
sub_bytes total size = (total + 2 ^ 64 - size % 2 ^ 64) % 2 ^ 64

-- The inputs that the set does not have.
unfoldable pub missing : UtxoSet → List TxInput → List OutPoint
missing utxo [] = []
missing utxo (input ∷ inputs) = elim (Utxo.get_entry input.outpoint utxo) [
  | none ↦ input.outpoint ∷ missing utxo inputs
  | some _ ↦ missing utxo inputs
]

-- The loop of `fee_with_utxo`. `none` is a missing output or an overflow.
unfoldable pub input_sum : UtxoSet → ℕ → List TxInput → Option ℕ
input_sum utxo sum [] = some sum
input_sum utxo sum (input ∷ inputs) = elim (Utxo.get input.outpoint utxo) [
  | none ↦ none
  | some out ↦ elim (checked_add u64_max sum out.value) [
    | none ↦ none
    | some next ↦ input_sum utxo next inputs
  ]
]

unfoldable pub output_sum : List TxOutput → ℕ
output_sum [] = 0
output_sum (o ∷ outputs) = (o.value + output_sum outputs) % 2 ^ 64

unfoldable pub fee_with_utxo : Transaction → UtxoSet → Option ℕ
fee_with_utxo tx utxo = if is_coinbase tx then some 0 else elim (input_sum utxo 0 tx.inputs) [
  | none ↦ none
  | some sum ↦ some (sum - output_sum tx.outputs)
]

unfoldable pub fee_rate_with_utxo : Transaction → UtxoSet → Option ℕ
fee_rate_with_utxo tx utxo = elim (fee_with_utxo tx utxo) [
  | none ↦ none
  | some fee ↦ let size = length (encode tx) in if size == 0 then some 0 else some (fee / size)
]

-- `HashSet::insert` and `HashSet::remove`.
unfoldable pub set_remove : TxId → List TxId → List TxId
set_remove id [] = []
set_remove id (x ∷ set) =
    let rest = set_remove id set in if tx_id_key.beq x id then rest else x ∷ rest

unfoldable pub set_insert : TxId → List TxId → List TxId
set_insert id set = id ∷ set_remove id set
