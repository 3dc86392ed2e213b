-- ===== src/Dag/Order.antt =====
-- ordering.rs: the selected chain and the total order of the store. `none` is a walk that runs out
-- of fuel, or a look-up of a missing block.
use kovanica_node.Common.{
  ℕ, zero, suc, true, false, Option, none, some, List, [], ◌∷◌, ◌++◌, if◌then◌else◌, length,
}
use kovanica_node.Dag.{BlockId, Nodes, block_key, node_at, has_block, contains}
use kovanica_node.Dag.Mergeset.{mergeset_ordered, sort_by_topo_key}
use kovanica_node.Dag.Store.{Dag, Oracle, set_remove, selected_tip}

-- The chain from `block` down, put before `chain`. It ends at genesis or above an evicted block.
unfoldable pub chain_down : Nodes → ℕ → BlockId → List BlockId → Option (List BlockId)
chain_down nodes zero block chain = none
chain_down nodes (suc fuel) block chain = elim (node_at nodes block).ghostdag.selected_parent [
  | none ↦ some (block ∷ chain)
  | some parent ↦ elim (has_block nodes parent) [
    | false ↦ some (block ∷ chain)
    | true ↦ chain_down nodes fuel parent (block ∷ chain)
  ]
]

unfoldable pub not_emitted : List BlockId → Nodes → List BlockId
not_emitted order [] = []
not_emitted order ((id, node) ∷ nodes) =
    let rest = not_emitted order nodes in if contains order id then rest else id ∷ rest

-- Genesis, where it is in the tail, goes to the front.
unfoldable pub hoist_genesis : BlockId → List BlockId → List BlockId → List BlockId
hoist_genesis genesis order tail =
    if contains tail genesis then genesis ∷ (order ++ set_remove genesis tail) else order ++ tail

module _ {S : Type 0} (oracle : Oracle S) where
  unfoldable pub selected_chain : Dag S → Option (List BlockId)
  selected_chain dag = chain_down dag.nodes (suc (length dag.nodes)) (selected_tip dag) []

  unfoldable pub mergeset_order : Dag S → BlockId → Option (List BlockId)
  mergeset_order dag block = elim (node_at dag.nodes block).ghostdag.selected_parent [
    | none ↦ some []
    | some sp ↦ elim (has_block dag.nodes sp) [
      | false ↦ some []
      | true ↦
          mergeset_ordered dag.nodes (oracle.is_ancestor dag.reach) sp
            (node_at dag.nodes block).block.parents
    ]
  ]

  -- The mergeset of each chain block, and the block.
  unfoldable pub spine : Dag S → List BlockId → Option (List BlockId)
  spine dag [] = some []
  spine dag (block ∷ chain) = elim (mergeset_order dag block) [
    | none ↦ none
    | some mergeset ↦ elim (spine dag chain) [
      | none ↦ none
      | some rest ↦ some (mergeset ++ (block ∷ rest))
    ]
  ]

  unfoldable pub linearize : Dag S → Option (List BlockId)
  linearize dag = elim (selected_chain dag) [
    | none ↦ none
    | some chain ↦ elim (spine dag chain) [
      | none ↦ none
      | some order ↦ some (
          hoist_genesis dag.genesis order
            (sort_by_topo_key dag.nodes (not_emitted order dag.nodes)))
    ]
  ]
