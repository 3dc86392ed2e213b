-- ===== src/Dag/Wiring.antt =====
-- dag.rs: the loops over nodes and parents that an insertion is made of.
use kovanica_node.Common.{
  ℕ, zero, suc, true, false, not, ◌&&◌, Option, none, some, List, [], ◌∷◌, ok, err, ltb, ◌==◌,
  if◌then◌else◌,
}
use kovanica_node.Common.Map
use kovanica_node.Dag.{BlockId, Node, Nodes, block_key, node_at, has_block}
use kovanica_node.Dag.Identity.{prune_payload, is_pruned}
use kovanica_node.Dag.Store.{
  missing_parent, non_monotonic_timestamp, panicked, out_of_fuel, Outcome, set_insert, set_remove,
}

-- `nodes.get_mut(parent).unwrap().children.insert(id)`, where the parent is stored.
unfoldable pub add_child_to : BlockId → BlockId → Option Node → Nodes → Nodes
add_child_to id parent none nodes = nodes
add_child_to id parent (some node) nodes =
    Map.insert parent (record node { children = set_insert id node.children }) nodes

unfoldable pub add_child : BlockId → BlockId → Nodes → Nodes
add_child id parent nodes = add_child_to id parent (Map.get parent nodes) nodes

unfoldable pub wire : BlockId → List BlockId → Nodes → Nodes
wire id [] nodes = nodes
wire id (parent ∷ parents) nodes = wire id parents (add_child id parent nodes)

unfoldable pub remove_tips : List BlockId → List BlockId → List BlockId
remove_tips [] tips = tips
remove_tips (parent ∷ parents) tips = remove_tips parents (set_remove parent tips)

-- One round of the loop of `prune_old_payloads`.
unfoldable pub prune_node : ℕ → Node → Node
prune_node threshold node =
    let score = node.ghostdag.blue_score in
    if score == 0
    then node
    else if ltb score threshold && not (is_pruned node.block)
    then record node { block = prune_payload node.block }
    else node

unfoldable pub prune_nodes : ℕ → Nodes → Nodes
prune_nodes threshold [] = []
prune_nodes threshold ((id, node) ∷ nodes) =
    (id, prune_node threshold node) ∷ prune_nodes threshold nodes

unfoldable pub evict : List BlockId → Nodes → Nodes
evict [] nodes = nodes
evict (id ∷ evicted) nodes = evict evicted (Map.remove id nodes)

-- The first parent that is not stored.
unfoldable pub check_parents : Nodes → List BlockId → Outcome (Unit {0})
check_parents nodes [] = ok tt
check_parents nodes (parent ∷ parents) =
    let rest = check_parents nodes parents in
    if has_block nodes parent then rest else err (missing_parent parent)

unfoldable pub check_timestamps : Nodes → BlockId → ℕ → List BlockId → Outcome (Unit {0})
check_timestamps nodes id timestamp_ms [] = ok tt
check_timestamps nodes id timestamp_ms (parent ∷ parents) =
    let rest = check_timestamps nodes id timestamp_ms parents in
    let parent_ts = (node_at nodes parent).block.timestamp_ms in
    if ltb timestamp_ms parent_ts
    then err (non_monotonic_timestamp id timestamp_ms parent_ts)
    else rest

-- The first chain block below the threshold, or genesis. A missing block is a panic.
unfoldable pub boundary_below : Nodes → ℕ → ℕ → BlockId → Option BlockId → Outcome BlockId
boundary_below nodes threshold fuel genesis none = ok genesis
boundary_below nodes threshold zero genesis (some id) = err out_of_fuel
boundary_below nodes threshold (suc fuel) genesis (some id) = elim (Map.get id nodes) [
  | none ↦ err panicked
  | some node ↦ elim (ltb node.ghostdag.blue_score threshold) [
    | true ↦ ok id
    | false ↦ boundary_below nodes threshold fuel genesis node.ghostdag.selected_parent
  ]
]
