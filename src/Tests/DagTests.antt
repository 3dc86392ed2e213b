-- ===== src/Tests/DagTests.antt =====
-- The block DAG at a diamond: two blocks on genesis, and a block on both.
use kovanica_node.Common.{
  ok, err, ℕ, zero, suc, ◌+◌, ◌-◌, ◌*◌, ◌%◌, ◌^◌, ◌≤◌, ◌<◌, ◌≡◌, refl, sym, ◌∙◌, Bool, true, false,
  Option, none, some, List, [], ◌∷◌, ◌++◌, if◌then◌else◌, length, replicate, ltb, IsBytes, max, ◌↔◌,
  ap, subst, Bool-cases, inl, inr, ◌⊎◌, arith, All,
}
use kovanica_node.Common
use kovanica_node.Common.Map
use kovanica_node.Dag
use kovanica_node.Dag.{
  BlockId, Block, Node, Nodes, GhostdagData, block_eq, block_eq_iff, block_key, genesis_data,
  blank_block, node_at, has_block,
}
use kovanica_node.Dag.Identity
use kovanica_node.Dag.Identity.{preimage, payload_of, prune_payload}
use kovanica_node.Dag.Identity.Preimage.{IsBlock, Agree, preimage-injective}
use kovanica_node.Dag.Mergeset
use kovanica_node.Dag.Mergeset.{mergeset_ordered, select_parent}
use kovanica_node.Dag.Ghostdag.{compute_ghostdag}
use kovanica_node.Dag.Colouring.{anticone_size}
use kovanica_node.Dag.SelectedParent.{IsColoured}
use kovanica_node.Dag.Past.{
  IsMergeset, IsColouring, mergeset_ordered-IsMergeset, compute_ghostdag-IsColouring,
}
use kovanica_node.Dag.Pow.{meets_target}
use kovanica_node.Dag.Pow.Target.{hash_number, meets_target_iff}
use kovanica_node.Dag.Difficulty.{TimedWork, default_retarget, next_work}
use kovanica_node.Dag.Difficulty.Bounds.{InRange, next_work-range}
use kovanica_node.Dag.Difficulty.Steady.{evenly, next_work-steady}
use kovanica_node.Dag.Store
use kovanica_node.Dag.Store.{Dag, Oracle, Outcome, new_dag, chain_samples, pruning_point}
use kovanica_node.Dag.Insert
use kovanica_node.Dag.Order
use kovanica_node.Dag.Order.{linearize}
use kovanica_node.Dag.Wiring
use kovanica_node.Dag.Insert.{insert_with_id}
use kovanica_node.Dag.Insert.Invariant.{IsLinked}
use kovanica_node.Dag.Insert.Built.{Built, start, inserted, Built-IsLinked}
use kovanica_node.Dag.Insert.Walks.{Built_walks}
use kovanica_node.Dag.Admission.{epoch_beacon}
use kovanica_node.Dag.Ghostdag
use kovanica_node.Tests.Samples.{toy}

abbrev name : ℕ → BlockId
name n = record { bytes = n ∷ [] }

abbrev on : ℕ → List BlockId → Block
on n parents = record {
  id = name n;
  parents = parents;
  work = 10 + n;
  timestamp_ms = 1000 * n;
  nonce = 0;
  vrf_public_key = none;
  vrf_proof = none;
  vrf_output = none;
  payload = some (n ∷ []);
}

abbrev side : GhostdagData
side = record {
  selected_parent = some (name 0);
  mergeset_blues = [];
  mergeset_reds = [];
  blue_score = 1;
  blue_work = 10;
  blue_anticone_sizes = (name 0, 0) ∷ [];
}

abbrev fork : Nodes
fork =
    (
      name 0,
      record {
        block = on 0 [];
        past_size = 0;
        children = name 1 ∷ name 2 ∷ [];
        ghostdag = genesis_data;
      },
    )
    ∷ (name 1, record { block = on 1 (name 0 ∷ []); past_size = 1; children = []; ghostdag = side })
    ∷ (name 2, record { block = on 2 (name 0 ∷ []); past_size = 1; children = []; ghostdag = side })
    ∷ []

-- Genesis is below the two others.
abbrev below : BlockId → BlockId → Bool
below a b = if block_eq a (name 0) then (if block_eq b (name 0) then false else true) else false

abbrev tips : List BlockId
tips = name 1 ∷ name 2 ∷ []

fork_selects : select_parent fork tips ≡ some (name 2)
unfolding select_parent Mergeset.heavier Mergeset.chain_key_lt Map.get block_eq Common.bytes_eq
    Dag.block_lt Common.bytes_lt
fork_selects = refl

fork_merges : mergeset_ordered fork below (name 2) tips ≡ some (name 1 ∷ [])
unfolding mergeset_ordered Mergeset.walk Mergeset.all_parents Dag.contains Map.get block_eq
    Common.bytes_eq Mergeset.in_boundary Mergeset.sort_by_topo_key Mergeset.insert_by_topo_key
fork_merges = refl

only_entry : (b : BlockId) (n : ℕ) → Map.get b ((name 0, 0) ∷ []) ≡ some n → (name 0 ≡ b) × (n ≡ 0)
unfolding Map.get
only_entry b n e = elim (Bool-cases (block_eq (name 0) b)) [
  | inl same ↦ ((block_eq_iff (name 0) b).0 same, ground (arith, e, same))
  | inr other ↦ ground (arith, e, other)
]

genesis_anticone : anticone_size 1 fork below (name 0) ((name 0, 0) ∷ []) ≡ 0
unfolding anticone_size Map.total Mergeset.in_anticone block_eq Common.bytes_eq
genesis_anticone = refl

side-IsColoured : IsColoured 1 fork below (name 2) side
unfolding Map.get
side-IsColoured = record {
  cluster = record {
    map = (refl, tt);
    exact = λ b n e.
        (only_entry b n e).1
        ∙ sym genesis_anticone
        ∙ ap (λ x. anticone_size 1 fork below x ((name 0, 0) ∷ [])) (only_entry b n e).0;
    bounded = λ b n e. omega (arith, (only_entry b n e).1);
  };
  score = refl;
  past = λ b p. elim (Bool-cases (block_eq (name 0) b)) [
    | inl same ↦
        subst (λ x. below x (name 2) ≡ true) ((block_eq_iff (name 0) b).0 same)
          (unfold block_eq Common.bytes_eq in refl)
    | inr other ↦ ground (arith, p, other)
  ];
}

fork-side : (node_at fork (name 2)).ghostdag ≡ side
unfolding Map.get block_eq Common.bytes_eq
fork-side = refl

compute_ghostdag-IsColouring_example :
    (g : GhostdagData) × (compute_ghostdag 1 fork below tips ≡ some g)
    × IsColouring fork below 1 (name 2) tips g
compute_ghostdag-IsColouring_example =
    compute_ghostdag-IsColouring fork below 1 (name 2) tips (omega arith)
      (unfold block_eq Common.bytes_eq in refl) fork_selects
      (subst (IsColoured 1 fork below (name 2)) (sym fork-side) side-IsColoured)

mergeset_ordered-IsMergeset_example :
    (mergeset : List BlockId) × (mergeset_ordered fork below (name 2) tips ≡ some mergeset)
    × IsMergeset fork below (name 2) tips mergeset
mergeset_ordered-IsMergeset_example = mergeset_ordered-IsMergeset fork below (name 2) tips

abbrev all_below : List ℕ → Bool
all_below [] = true
all_below (x ∷ xs) = if ltb x 256 then all_below xs else false

all_below-IsBytes : (xs : List ℕ) → all_below xs ≡ true → IsBytes xs
all_below-IsBytes [] h = tt
all_below-IsBytes (x ∷ xs) h = (ground (arith, h), all_below-IsBytes xs (ground (arith, h)))

abbrev small_hash : BlockId
small_hash = record { bytes = replicate 4 0 ++ replicate 28 7 }

meets_target_iff_example :
    (meets_target small_hash 1000 ≡ true) ↔ (hash_number small_hash * max 1000 1 < 2 ^ 256)
meets_target_iff_example =
    meets_target_iff small_hash 1000 (all_below-IsBytes small_hash.bytes (refl)) refl (omega arith)

abbrev wide : Block
wide = record {
  id = name 9;
  parents = record { bytes = replicate 32 1 } ∷ [];
  work = 10;
  timestamp_ms = 5;
  nonce = 6;
  vrf_public_key = none;
  vrf_proof = none;
  vrf_output = none;
  payload = some [];
}

wide-IsBlock : IsBlock wide
unfolding payload_of
wide-IsBlock = record {
  count = omega arith;
  parent = (refl, tt);
  work = omega arith;
  timestamp = omega arith;
  nonce = omega arith;
  key = tt;
  proof = tt;
  output = tt;
  keyless = (refl, refl);
  payload = omega arith;
}

pruned-IsBlock : IsBlock (prune_payload wide)
unfolding payload_of prune_payload
pruned-IsBlock = record {
  count = omega arith;
  parent = (refl, tt);
  work = omega arith;
  timestamp = omega arith;
  nonce = omega arith;
  key = tt;
  proof = tt;
  output = tt;
  keyless = (refl, refl);
  payload = omega arith;
}

same_input : preimage wide ≡ preimage (prune_payload wide)
unfolding preimage payload_of prune_payload
same_input = refl

preimage-injective_example : Agree wide (prune_payload wide)
preimage-injective_example =
    preimage-injective wide (prune_payload wide) wide-IsBlock pruned-IsBlock same_input

abbrev sample : ℕ → TimedWork
sample time = record { timestamp_ms = time; work = 80 }

abbrev slow : List TimedWork
slow = sample 1000 ∷ sample 5000 ∷ []

next_work-range_example :
    InRange default_retarget
      (sample 1000 ∷ sample 5000 ∷ [])
      (5000 - 1000)
      (next_work default_retarget slow)
next_work-range_example =
    next_work-range default_retarget [] (sample 1000) (sample 5000) [] (omega arith) (omega arith)
      (λ some_older. omega arith)

next_work-steady_example : next_work default_retarget (slow ++ evenly 1000 80 21 9000) ≡ 80
next_work-steady_example =
    next_work-steady default_retarget 80 9000 slow (omega arith) (omega arith) (omega arith)
      (omega arith) (omega arith) (omega arith)

-- An oracle that knows only that genesis is below every other block.
abbrev genesis_first : Oracle (Unit {0})
genesis_first = record {
  build = λ id. tt;
  is_ancestor = λ s a b. below a b;
  add_block = λ id sp mergeset s. s;
  remove_blocks = λ id evicted s. s;
}

abbrev no_vrf : List ℕ → List ℕ → List ℕ → Option (List ℕ)
no_vrf key input proof = none

abbrev seed : Dag (Unit {0})
seed = new_dag genesis_first 1 (on 0 [])

abbrev dag_of : Outcome (Dag (Unit {0}) × BlockId) → Dag (Unit {0})
dag_of (ok r) = r.0
dag_of (err e) = seed

abbrev first_insert : Outcome (Dag (Unit {0}) × BlockId)
first_insert = insert_with_id genesis_first toy no_vrf none seed (on 1 (name 0 ∷ [])) none

inserts : first_insert ≡ ok (dag_of first_insert, name 1)
unfolding insert_with_id new_dag Insert.check_links Map.get block_eq Common.bytes_eq Insert.id_or
    Wiring.check_parents Insert.check_validator Insert.colour_block compute_ghostdag select_parent
    mergeset_ordered Mergeset.walk Mergeset.all_parents Dag.contains Mergeset.in_boundary
    Mergeset.heavier Ghostdag.colour Ghostdag.colour_all Ghostdag.work_of Map.insert Map.remove
    Mergeset.sort_by_topo_key Insert.check_consensus Insert.check_enforced_difficulty
    Insert.check_proof_of_work Insert.check_enforced_vrf Insert.check_pruned_history Insert.prune
    Insert.attach Wiring.wire Wiring.add_child Wiring.add_child_to Wiring.remove_tips
    Store.set_insert Store.set_remove Identity.insert_id
inserts = refl

first_stored : has_block (dag_of first_insert).nodes (name 1) ≡ true
unfolding insert_with_id new_dag Insert.check_links Map.get block_eq Common.bytes_eq Insert.id_or
    Wiring.check_parents Insert.check_validator Insert.colour_block compute_ghostdag select_parent
    mergeset_ordered Mergeset.walk Mergeset.all_parents Dag.contains Mergeset.in_boundary
    Mergeset.heavier Ghostdag.colour Ghostdag.colour_all Ghostdag.work_of Map.insert Map.remove
    Mergeset.sort_by_topo_key Insert.check_consensus Insert.check_enforced_difficulty
    Insert.check_proof_of_work Insert.check_enforced_vrf Insert.check_pruned_history Insert.prune
    Insert.attach Wiring.wire Wiring.add_child Wiring.add_child_to Wiring.remove_tips
    Store.set_insert Store.set_remove Identity.insert_id
first_stored = refl

first_Built : Built genesis_first toy no_vrf none (dag_of first_insert)
unfolding new_dag
first_Built = inserted (on 1 (name 0 ∷ [])) none (name 1) (start 1 (on 0 []) refl) refl inserts

Built-IsLinked_example : IsLinked (dag_of first_insert).nodes (dag_of first_insert).tips
unfolding new_dag
Built-IsLinked_example =
    Built-IsLinked genesis_first toy no_vrf none (dag_of first_insert) first_Built

Built_walks_example :
    ((window : ℕ)
      → (samples : List TimedWork) × (chain_samples (dag_of first_insert) (name 1) window
          ≡ some samples))
    × ((beacon : List ℕ) × (epoch_beacon toy no_vrf (dag_of first_insert) (name 1) ≡ ok beacon))
    × ((point : BlockId) × (pruning_point (dag_of first_insert) ≡ some point))
Built_walks_example =
    Built_walks genesis_first toy no_vrf none (dag_of first_insert) (name 1) first_Built
      first_stored

-- The side block that is not under the selected tip comes last.
abbrev forked : Dag (Unit {0})
forked = record seed { nodes = fork; tips = tips }

order_of_fork : linearize genesis_first forked ≡ some (name 0 ∷ name 2 ∷ name 1 ∷ [])
unfolding linearize Order.selected_chain Order.chain_down Map.get block_eq Common.bytes_eq
    Store.selected_tip select_parent Mergeset.heavier Mergeset.chain_key_lt Dag.block_lt
    Common.bytes_lt Order.spine Order.mergeset_order mergeset_ordered Mergeset.walk
    Mergeset.all_parents Dag.contains Mergeset.in_boundary Mergeset.insert_by_topo_key
    Mergeset.sort_by_topo_key Mergeset.topo_key_lt Order.hoist_genesis Order.not_emitted
    Store.set_remove new_dag
order_of_fork = refl
