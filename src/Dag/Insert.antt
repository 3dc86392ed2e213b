-- ===== src/Dag/Insert.antt =====
-- dag.rs: `insert_with_id` with its checks, and the pruning that follows it.
pub mod Links
pub mod Invariant
pub mod Founded
pub mod Downward
pub mod Built
pub mod Walks
use kovanica_node.Common.{
  ℕ, zero, suc, ◌+◌, ◌-◌, ◌*◌, ◌/◌, ◌%◌, ◌^◌, Bool, true, false, not, ◌&&◌, Option, none, some,
  List, [], ◌∷◌, ◌++◌, map, Result, ok, err, ltb, ◌==◌, if◌then◌else◌, length, min, max, take,
  bytes_eq,
}
use kovanica_node.Common.Map
use kovanica_node.Crypto.{Crypto}
use kovanica_node.Dag.{
  BlockId, Block, Node, Nodes, GhostdagData, block_key, block_eq, node_at, has_block, contains,
}
use kovanica_node.Dag.Identity.{prune_payload, is_pruned}
use kovanica_node.Dag.Mergeset.{mergeset_ordered}
use kovanica_node.Dag.Ghostdag.{compute_ghostdag}
use kovanica_node.Dag.Difficulty.{Retarget, next_work}
use kovanica_node.Dag.Pow.{meets_target, read_be}
use kovanica_node.Dag.Store.{
  VrfReason, missing_key, missing_proof, missing_output, verification_failed, output_mismatch,
  not_eligible, DagError, duplicate_block, missing_parent, no_parents, invalid_block,
  difficulty_mismatch, non_monotonic_timestamp, insufficient_proof_of_work, invalid_vrf,
  builds_on_pruned_history, panicked, out_of_fuel, Outcome, ◌>>=◌, VrfConfig, u64_top, Dag, Oracle,
  set_insert, set_remove, chain_samples, selected_tip, default_epoch_length, payload_pruning_score,
  block_pruning_score, pruning_point,
}
use kovanica_node.Dag.Wiring.{wire, remove_tips, prune_nodes, evict, check_parents}
use kovanica_node.Dag.Admission.{Check, check_difficulty, check_vrf}

module _ {S : Type 0} (oracle : Oracle S) (crypto : Crypto)
    (vrf_verify : List ℕ → List ℕ → List ℕ → Option (List ℕ))
    (validator : Option (Block → Dag S → Result (List ℕ) (Unit {0}))) where
  unfoldable pub prune_old_payloads : Dag S → Dag S
  prune_old_payloads dag =
      let threshold = payload_pruning_score dag in
      if threshold == 0 then dag else record dag { nodes = prune_nodes threshold dag.nodes }

  unfoldable pub remove_blocks : List BlockId → Dag S → Dag S
  remove_blocks evicted dag = record dag {
    reach = oracle.remove_blocks dag.genesis evicted dag.reach;
    nodes = evict evicted dag.nodes;
    tips = remove_tips evicted dag.tips;
  }

  -- Nothing to evict leaves the store as it is.
  unfoldable pub remove_any : List BlockId → Dag S → Dag S
  remove_any [] dag = dag
  remove_any (id ∷ evicted) dag = remove_blocks (id ∷ evicted) dag

  -- `past(P_new) \ past(P_old)`: the mergesets on the way down from the pruning point, and the chain.
  unfoldable pub collect_evicted : ℕ → Dag S → List BlockId → BlockId → Outcome (List BlockId)
  collect_evicted zero dag evicted c = err out_of_fuel
  collect_evicted (suc fuel) dag evicted c = elim (Map.get c dag.nodes) [
    | none ↦ err panicked
    | some node ↦ elim node.ghostdag.selected_parent [
      | none ↦ ok evicted
      | some sp ↦
          elim (mergeset_ordered dag.nodes (oracle.is_ancestor dag.reach) sp node.block.parents) [
            | none ↦ err out_of_fuel
            | some mergeset ↦ elim (has_block dag.nodes sp && not (block_eq sp dag.genesis)) [
              | false ↦ ok (evicted ++ mergeset)
              | true ↦ collect_evicted fuel dag (evicted ++ mergeset ++ sp ∷ []) sp
            ]
          ]
    ]
  ]

  unfoldable pub prune_old_blocks : Dag S → Outcome (Dag S)
  prune_old_blocks dag = elim (block_pruning_score dag == 0) [
    | true ↦ ok dag
    | false ↦ elim (pruning_point dag) [
      | none ↦ err out_of_fuel
      | some point ↦ elim (block_eq point dag.genesis) [
        | true ↦ ok dag
        | false ↦ collect_evicted (suc (length dag.nodes)) dag [] point >>= λ evicted.
            ok (remove_any evicted dag)
      ]
    ]
  ]

  unfoldable pub check_validator : Dag S → Block → BlockId → Check
  check_validator dag block id = elim validator [
    | none ↦ ok tt
    | some validate ↦ elim (validate block dag) [
      | ok _ ↦ ok tt
      | err reason ↦ err (invalid_block id reason)
    ]
  ]

  unfoldable pub check_enforced_difficulty : Dag S → Block → BlockId → BlockId → Check
  check_enforced_difficulty dag block id sp = elim dag.difficulty [
    | none ↦ ok tt
    | some retarget ↦ check_difficulty crypto vrf_verify dag block id sp retarget
  ]

  unfoldable pub check_enforced_vrf : Dag S → Block → BlockId → BlockId → Check
  check_enforced_vrf dag block id sp = elim dag.vrf_config [
    | none ↦ ok tt
    | some config ↦ check_vrf crypto vrf_verify dag block id sp config.threshold
  ]

  unfoldable pub check_pruned_history : Dag S → BlockId → BlockId → Check
  check_pruned_history dag id sp = elim (dag.block_pruning_depth == u64_top) [
    | true ↦ ok tt
    | false ↦ elim (pruning_point dag) [
      | none ↦ err out_of_fuel
      | some p ↦
          if not (block_eq sp p) && not (oracle.is_ancestor dag.reach p sp)
          then err (builds_on_pruned_history id)
          else ok tt
    ]
  ]

  -- The new node, the links to it, the tips and the oracle.
  unfoldable pub attach : Dag S → Block → BlockId → BlockId → GhostdagData → Dag S
  attach dag block id sp g = record dag {
    nodes =
        Map.insert id
          (record {
            block = block;
            past_size =
                ((node_at dag.nodes sp).past_size
                  + 1
                  + (length g.mergeset_blues + length g.mergeset_reds))
                % 2 ^ 64;
            children = [];
            ghostdag = g;
          })
          (wire id block.parents dag.nodes);
    tips = set_insert id (remove_tips block.parents dag.tips);
    reach = oracle.add_block id sp (g.mergeset_blues ++ g.mergeset_reds) dag.reach;
  }

  unfoldable pub prune : Dag S → Outcome (Dag S)
  prune dag =
      let paid = if dag.payload_pruning_depth == u64_top then dag else prune_old_payloads dag in
      if dag.block_pruning_depth == u64_top then ok paid else prune_old_blocks paid

  unfoldable pub check_proof_of_work : Dag S → Block → BlockId → Check
  check_proof_of_work dag block id =
      if dag.require_pow && not (meets_target id block.work)
      then err (insufficient_proof_of_work id block.work)
      else ok tt

  -- The checks that follow the colouring.
  unfoldable pub check_consensus : Dag S → Block → BlockId → BlockId → Check
  check_consensus dag block id sp = do
    _ ← check_enforced_difficulty dag block id sp
    _ ← check_proof_of_work dag block id
    _ ← check_enforced_vrf dag block id sp
    check_pruned_history dag id sp

  unfoldable pub check_links : Dag S → Block → BlockId → Check
  check_links dag block id =
      if has_block dag.nodes id
      then err (duplicate_block id)
      else if length block.parents == 0
      then err (no_parents id)
      else check_parents dag.nodes block.parents

  -- `none` of the colouring is the fuel of the walk, and a colouring has a selected parent.
  unfoldable pub colour_block : Dag S → Block → Outcome (BlockId × GhostdagData)
  colour_block dag block =
      elim (compute_ghostdag dag.k dag.nodes (oracle.is_ancestor dag.reach) block.parents) [
        | none ↦ err out_of_fuel
        | some g ↦ elim g.selected_parent [ none ↦ err panicked | some sp ↦ ok (sp, g) ]
      ]

  unfoldable pub id_or : Option BlockId → Block → BlockId
  id_or none block = block.id
  id_or (some id) block = id

  unfoldable pub insert_with_id : Dag S → Block → Option BlockId → Outcome (Dag S × BlockId)
  insert_with_id dag block given = do
    _ ← check_links dag block (id_or given block)
    _ ← check_validator dag block (id_or given block)
    r ← colour_block dag block
    _ ← check_consensus dag block (id_or given block) (r.0)
    next ← prune (attach dag block (id_or given block) (r.0) (r.1))
    ok (next, id_or given block)

  unfoldable pub insert : Dag S → Block → Outcome (Dag S × BlockId)
  insert dag block = insert_with_id dag block none
