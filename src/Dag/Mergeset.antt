-- ===== src/Dag/Mergeset.antt =====
-- dag.rs: the keys that order blocks, the anticone test and `mergeset_ordered`. The oracle's answer
-- is the parameter `is_ancestor`.
use kovanica_node.Common.{
  ℕ, zero, suc, ◌+◌, Bool, true, false, ◌&&◌, not, Option, none, some, List, [], ◌∷◌, ◌++◌, ltb,
  if◌then◌else◌, length,
}
use kovanica_node.Dag.{BlockId, Nodes, block_eq, block_lt, block_key, node_at, has_block, contains}

-- The order of `(blue_work, blue_score, id)`.
unfoldable pub chain_key_lt : Nodes → BlockId → BlockId → Bool
chain_key_lt nodes a b =
    let ga = (node_at nodes a).ghostdag in
    let gb = (node_at nodes b).ghostdag in
    if ltb ga.blue_work gb.blue_work
    then true
    else if ltb gb.blue_work ga.blue_work
    then false
    else if ltb ga.blue_score gb.blue_score
    then true
    else if ltb gb.blue_score ga.blue_score
    then false
    else block_lt a b

-- `max_by_key(|p| self.chain_key(p))`: the last of the largest.
unfoldable pub heavier : Nodes → BlockId → List BlockId → BlockId
heavier nodes best [] = best
heavier nodes best (p ∷ ps) = heavier nodes (if chain_key_lt nodes p best then best else p) ps

unfoldable pub select_parent : Nodes → List BlockId → Option BlockId
select_parent nodes [] = none
select_parent nodes (p ∷ ps) = some (heavier nodes p ps)

-- The order of `(past_size, id)`.
unfoldable pub topo_key_lt : Nodes → BlockId → BlockId → Bool
topo_key_lt nodes a b =
    let pa = (node_at nodes a).past_size in
    let pb = (node_at nodes b).past_size in
    if ltb pa pb then true else if ltb pb pa then false else block_lt a b

unfoldable pub insert_by_topo_key : Nodes → BlockId → List BlockId → List BlockId
insert_by_topo_key nodes x [] = x ∷ []
insert_by_topo_key nodes x (y ∷ ys) =
    let rest = insert_by_topo_key nodes x ys in
    if topo_key_lt nodes y x then y ∷ rest else x ∷ y ∷ ys

-- `sort_by_key(|b| self.topo_key(b))`, by insertion.
unfoldable pub sort_by_topo_key : Nodes → List BlockId → List BlockId
sort_by_topo_key nodes [] = []
sort_by_topo_key nodes (x ∷ xs) = insert_by_topo_key nodes x (sort_by_topo_key nodes xs)

-- One round of the queue for each entry that is ever in it: the parents of the new block, and those
-- of every block.
unfoldable pub all_parents : Nodes → ℕ
all_parents [] = 0
all_parents ((id, n) ∷ nodes) = length n.block.parents + all_parents nodes

module _ (nodes : Nodes) (is_ancestor : BlockId → BlockId → Bool) where
  unfoldable pub in_anticone : BlockId → BlockId → Bool
  in_anticone a b = not (block_eq a b) && (not (is_ancestor a b) && not (is_ancestor b a))

  -- `x ∈ past(sp) ∪ {sp}`
  unfoldable pub in_boundary : BlockId → BlockId → Bool
  in_boundary sp x = if block_eq x sp then true else is_ancestor x sp

  -- The breadth-first walk. `none` is no outcome of the program: the fuel ran out.
  unfoldable pub walk :
      ℕ → BlockId → List BlockId → List BlockId → List BlockId → Option (List BlockId)
  walk fuel sp seen mergeset [] = some mergeset
  walk zero sp seen mergeset (x ∷ queue) = none
  walk (suc fuel) sp seen mergeset (x ∷ queue) = elim (contains seen x) [
    | true ↦ walk fuel sp seen mergeset queue
    | false ↦ elim (has_block nodes x) [
      | false ↦ walk fuel sp (x ∷ seen) mergeset queue
      | true ↦ elim (in_boundary sp x) [
        | true ↦ walk fuel sp (x ∷ seen) mergeset queue
        | false ↦ walk fuel sp (x ∷ seen) (x ∷ mergeset) (queue ++ (node_at nodes x).block.parents)
      ]
    ]
  ]

  -- The walk collects in the opposite order, which the sort does not see.
  unfoldable pub mergeset_ordered : BlockId → List BlockId → Option (List BlockId)
  mergeset_ordered sp parents = elim (walk (length parents + all_parents nodes) sp [] [] parents) [
    | none ↦ none
    | some mergeset ↦ some (sort_by_topo_key nodes mergeset)
  ]
