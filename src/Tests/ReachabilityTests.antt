-- ===== src/Tests/ReachabilityTests.antt =====
-- The oracle on a fork: a chain of two blocks on genesis, a block beside it, and a block that merges
-- the two.
use kovanica_node.Common.{ℕ, ◌≡◌, refl, true, false, List, [], ◌∷◌, Bool, bytes_eq, bytes_lt, arith}
use kovanica_node.Common.Map
use kovanica_node.Dag.{BlockId, block_eq, block_lt, contains}
use kovanica_node.Dag.Identity.{insert_id}
use kovanica_node.Dag.Reachability.{
  Reachability, root_capacity, build_genesis, relayout_subtree, relayout, add_block, cover_merged,
  insert_to_future_covering_set, put_cover, covers, drop_covered, allocate, child_end, register,
  bump_sizes, is_ancestor, tree_reaches, any_reaches, remove_blocks, to_reparent, kept_children,
  forget, adopt, children_at,
}
use kovanica_node.Dag.Reachability.Leaf.{IsLeaf, single-IsLaminar, add_block-IsLeaf}

abbrev block : ℕ → BlockId
block n = record { bytes = n ∷ [] }

abbrev seed : Reachability
seed = build_genesis (block 0)

add_block-IsLeaf_example : IsLeaf (block 1) (block 0) seed (add_block (block 1) (block 0) [] seed)
unfolding build_genesis relayout_subtree relayout Map.get Map.insert Map.remove block_eq bytes_eq
add_block-IsLeaf_example =
    add_block-IsLeaf (block 1) (block 0) [] 1 root_capacity 2 seed
      (single-IsLaminar (block 0) root_capacity (omega arith) (omega arith)) refl refl refl
      (omega arith)

merged : Reachability
merged = add_block (block 4) (block 2) (block 3 ∷ []) (
    add_block (block 3) (block 0) []
      (add_block (block 2) (block 1) [] (add_block (block 1) (block 0) [] seed)))

abbrev asks : (BlockId → BlockId → Bool) → List Bool
asks ancestor =
    ancestor (block 0) (block 4)
    ∷ ancestor (block 1) (block 2)
    ∷ ancestor (block 1) (block 4)
    ∷ ancestor (block 3) (block 4)
    ∷ ancestor (block 3) (block 2)
    ∷ ancestor (block 2) (block 3)
    ∷ []

fork_answers : asks (is_ancestor merged) ≡ true ∷ true ∷ true ∷ true ∷ false ∷ false ∷ []
unfolding merged build_genesis relayout_subtree relayout Map.get Map.insert Map.remove block_eq
    bytes_eq add_block cover_merged insert_to_future_covering_set put_cover covers drop_covered
    allocate child_end register bump_sizes is_ancestor tree_reaches any_reaches insert_id block_lt
    bytes_lt
fork_answers = refl

-- After a pruning, genesis lists the removed child still, beside the blocks it adopts.
pruned_child_listed :
    children_at (remove_blocks (block 0) (block 1 ∷ []) merged) (block 0)
    ≡ block 1 ∷ block 2 ∷ block 3 ∷ []
unfolding merged build_genesis relayout_subtree relayout Map.get Map.insert Map.remove block_eq
    bytes_eq add_block cover_merged insert_to_future_covering_set put_cover covers drop_covered
    allocate child_end register bump_sizes insert_id block_lt bytes_lt remove_blocks to_reparent
    kept_children forget adopt contains
pruned_child_listed = refl
