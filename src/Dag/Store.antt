-- ===== src/Dag/Store.antt =====
-- dag.rs: the store, its errors and its settings, and the walks along the selected-parent chain.
use kovanica_node.Common.{
  ℕ, zero, suc, ◌-◌, ◌^◌, Bool, false, Option, none, some, List, [], ◌∷◌, Result, ok, err, ltb,
  ◌==◌, if◌then◌else◌, ◌≡◌, refl, length, max,
}
use kovanica_node.Common.Map
use kovanica_node.Dag.{BlockId, Block, Nodes, block_key, block_eq, node_at, contains, genesis_data}
use kovanica_node.Dag.Identity.{insert_id}
use kovanica_node.Dag.Mergeset.{select_parent}
use kovanica_node.Dag.Difficulty.{TimedWork, Retarget}

-- Why a VRF is refused: the texts of the source.
pub data VrfReason : Type 0 where
  missing_key missing_proof missing_output verification_failed output_mismatch : VrfReason
  not_eligible : ℕ → ℕ → VrfReason

-- `panicked` and `out_of_fuel` are no error values of the source: a look-up of a missing block, and
-- a walk that is longer than the number of stored blocks.
pub data DagError : Type 0 where
  duplicate_block missing_parent no_parents : BlockId → DagError
  invalid_block : BlockId → List ℕ → DagError
  difficulty_mismatch : BlockId → ℕ → ℕ → DagError
  non_monotonic_timestamp : BlockId → ℕ → ℕ → DagError
  insufficient_proof_of_work : BlockId → ℕ → DagError
  invalid_vrf : BlockId → VrfReason → DagError
  builds_on_pruned_history : BlockId → DagError
  panicked out_of_fuel : DagError

abbrev pub Outcome : Type 0 → Type 0
Outcome A = Result DagError A

infixl 5 ◌>>=◌
abbrev pub ◌>>=◌ : {A B : Type 0} → Outcome A → (A → Outcome B) → Outcome B
ok a >>= f = f a
err e >>= f = err e

pub bind-ok :
    {A B : Type 0} (m : Outcome A) (f : A → Outcome B) {b : B}
    → (m >>= f) ≡ ok b
    → (a : A) × ((m ≡ ok a) × (f a ≡ ok b))
bind-ok (ok a) f h = (a, (refl, h))
bind-ok (err e) f h = cc

pub record VrfConfig : Type 0 where
  pub threshold : ℕ
  pub epoch_length : ℕ

abbrev pub u64_top : ℕ
u64_top = 2 ^ 64 - 1

-- The store over the states of an oracle. The validator stands apart, since it reads the store.
pub record Dag (S : Type 0) : Type 0 where
  pub k : ℕ
  pub genesis : BlockId
  pub nodes : Nodes
  pub tips : List BlockId
  pub reach : S
  pub difficulty : Option Retarget
  pub require_pow : Bool
  pub payload_pruning_depth : ℕ
  pub block_pruning_depth : ℕ
  pub vrf_config : Option VrfConfig

-- What the store asks of the reachability oracle.
pub record Oracle (S : Type 0) : Type 0 where
  pub build : BlockId → S
  pub is_ancestor : S → BlockId → BlockId → Bool
  pub add_block : BlockId → BlockId → List BlockId → S → S
  pub remove_blocks : BlockId → List BlockId → S → S

-- `BTreeSet::insert` and `BTreeSet::remove`.
unfoldable pub set_insert : BlockId → List BlockId → List BlockId
set_insert x xs = if contains xs x then xs else insert_id x xs

unfoldable pub set_remove : BlockId → List BlockId → List BlockId
set_remove x [] = []
set_remove x (y ∷ ys) = let rest = set_remove x ys in if block_eq y x then rest else y ∷ rest

unfoldable pub default_epoch_length : ℕ
default_epoch_length = 100

-- At most `left` samples, from `cur` down. `none` is a panic.
unfoldable pub newest_samples : Nodes → ℕ → Option BlockId → Option (List TimedWork)
newest_samples nodes zero cur = some []
newest_samples nodes (suc left) none = some []
newest_samples nodes (suc left) (some id) = elim (Map.get id nodes) [
  | none ↦ none
  | some node ↦ elim (newest_samples nodes left node.ghostdag.selected_parent) [
    | none ↦ none
    | some older ↦
        some (record { timestamp_ms = node.block.timestamp_ms; work = node.block.work } ∷ older)
  ]
]

unfoldable pub reverse_onto : List TimedWork → List TimedWork → List TimedWork
reverse_onto acc [] = acc
reverse_onto acc (s ∷ samples) = reverse_onto (s ∷ acc) samples

-- The lowest block of the chain with the score, as found so far. The walk stops at an evicted
-- block.
unfoldable pub lowest_at : Nodes → ℕ → ℕ → BlockId → Option BlockId → Option BlockId
lowest_at nodes threshold fuel point none = some point
lowest_at nodes threshold zero point (some id) = none
lowest_at nodes threshold (suc fuel) point (some id) = elim (Map.get id nodes) [
  | none ↦ some point
  | some node ↦
      lowest_at nodes threshold fuel (if ltb node.ghostdag.blue_score threshold then point else id)
        node.ghostdag.selected_parent
]

module _ {S : Type 0} where
  unfoldable pub new_dag : Oracle S → ℕ → Block → Dag S
  new_dag oracle k genesis = record {
    k = k;
    genesis = genesis.id;
    nodes =
        (
          genesis.id,
          record { block = genesis; past_size = 0; children = []; ghostdag = genesis_data },
        )
        ∷ [];
    tips = genesis.id ∷ [];
    reach = oracle.build genesis.id;
    difficulty = none;
    require_pow = false;
    payload_pruning_depth = u64_top;
    block_pruning_depth = u64_top;
    vrf_config = none;
  }

  unfoldable pub set_vrf_with_epoch : ℕ → ℕ → Dag S → Dag S
  set_vrf_with_epoch threshold epoch_length dag = record dag {
    vrf_config = some (record { threshold = threshold; epoch_length = max epoch_length 1 });
  }

  unfoldable pub set_vrf : ℕ → Dag S → Dag S
  set_vrf threshold = set_vrf_with_epoch threshold default_epoch_length

  unfoldable pub chain_samples : Dag S → BlockId → ℕ → Option (List TimedWork)
  chain_samples dag tip window = elim (newest_samples dag.nodes (suc window) (some tip)) [
    | none ↦ none
    | some samples ↦ some (reverse_onto [] samples)
  ]

  -- The heaviest tip, or genesis.
  unfoldable pub selected_tip : Dag S → BlockId
  selected_tip dag = elim (select_parent dag.nodes dag.tips) [ none ↦ dag.genesis | some tip ↦ tip ]

  -- `max.saturating_sub(depth)`, and 0 where pruning is off.
  unfoldable pub pruning_score : ℕ → Dag S → ℕ
  pruning_score depth dag =
      if depth == u64_top
      then 0
      else (node_at dag.nodes (selected_tip dag)).ghostdag.blue_score - depth

  unfoldable pub payload_pruning_score : Dag S → ℕ
  payload_pruning_score dag = pruning_score dag.payload_pruning_depth dag

  unfoldable pub block_pruning_score : Dag S → ℕ
  block_pruning_score dag = pruning_score dag.block_pruning_depth dag

  unfoldable pub pruning_point : Dag S → Option BlockId
  pruning_point dag =
      let threshold = block_pruning_score dag in
      if threshold == 0
      then some dag.genesis
      else lowest_at dag.nodes threshold (suc (length dag.nodes)) dag.genesis
          (some (selected_tip dag))
