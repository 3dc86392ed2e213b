-- ===== src/Dag/Past.antt =====
-- `compute_ghostdag` as a whole, on a block's parents.
use kovanica_node.Common.{
  ℕ, ◌+◌, ◌%◌, ◌^◌, ◌≤◌, ◌<◌, ◌≡◌, refl, Bool, true, false, some, List, [], ◌∷◌, length, arith, ◌↔◌,
}
use kovanica_node.Dag.{BlockId, Nodes, GhostdagData, block_key, node_at, contains}
use kovanica_node.Dag.Mergeset.{
  in_boundary, mergeset_ordered, select_parent, all_parents, sort_by_topo_key,
}
use kovanica_node.Dag.Ghostdag.{colour, compute_ghostdag}
use kovanica_node.Dag.Cluster.{times}
use kovanica_node.Dag.Colouring.{IsCluster}
use kovanica_node.Dag.BlueSet.{key_count}
use kovanica_node.Dag.Merged.{Inside, Merged, direct, older, Walked-start, Walked-end, unseen-nil}
use kovanica_node.Dag.Walk.{walk-Finishes}
use kovanica_node.Dag.TopoSort.{IsTopoSorted, sort-IsTopoSorted, sort_by_topo_key-times}
use kovanica_node.Dag.SelectedParent.{IsColoured, colour-IsCluster}

contains→times : (x : BlockId) (xs : List BlockId) → contains xs x ≡ true → 1 ≤ times x xs
unfolding contains times
contains→times x [] h = ground (arith, h)
contains→times x (y ∷ xs) h = ground (arith, h, contains→times x xs)

times→contains : (x : BlockId) (xs : List BlockId) → 1 ≤ times x xs → contains xs x ≡ true
unfolding contains times
times→contains x [] h = ground (arith, h)
times→contains x (y ∷ xs) h = ground (arith, h, times→contains x xs)

module _ (nodes : Nodes) (is_ancestor : BlockId → BlockId → Bool) where
  Merged-Inside :
      (sp : BlockId) (parents : List BlockId) (x : BlockId)
      → Merged nodes is_ancestor sp parents x
      → Inside nodes is_ancestor sp x
  Merged-Inside sp parents x (direct p i) = i
  Merged-Inside sp parents x (older m p i) = i

  -- Exactly the blocks that parent links reach before the boundary, each once, sorted.
  pub record IsMergeset (sp : BlockId) (parents mergeset : List BlockId) : Type 0 where
    pub merged : (x : BlockId) → (1 ≤ times x mergeset) ↔ Merged nodes is_ancestor sp parents x
    pub once : (x : BlockId) → times x mergeset ≤ 1
    pub sorted : IsTopoSorted nodes mergeset

  -- The walk of a block's parents needs no more steps than it is given, and the mergeset lists,
  -- each once and in the order of `(past_size, id)`, exactly the stored blocks outside the selected
  -- parent's past that parent links reach from the new block.
  pub mergeset_ordered-IsMergeset :
      (sp : BlockId) (parents : List BlockId)
      → (mergeset : List BlockId) × (mergeset_ordered nodes is_ancestor sp parents ≡ some mergeset)
        × IsMergeset sp parents mergeset
  unfolding mergeset_ordered
  mergeset_ordered-IsMergeset sp parents =
      let fuel = length parents + all_parents nodes in
      let f =
        walk-Finishes nodes is_ancestor fuel sp parents [] [] parents
          (omega (arith, unseen-nil nodes)) (Walked-start nodes is_ancestor sp parents) in
      let found = f.result in
      let same : (x : BlockId) → times x (sort_by_topo_key nodes found) ≡ times x found =
        λ x. sort_by_topo_key-times nodes x found in
      (
        sort_by_topo_key nodes found,
        ground (arith, f.ends),
        record {
          merged = λ x. (
            λ h. f.walked.sound x (times→contains x found (omega (arith, h, same x))),
            λ m. omega (
              arith,
              contains→times x found
                  (Walked-end nodes is_ancestor sp parents f.marked found f.walked x m),
              same x,
            ),
          );
          once = λ x. ground (arith, f.walked.once x, same x);
          sorted = sort-IsTopoSorted nodes found;
        },
      )

  mergeset_outside :
      (sp : BlockId) (parents mergeset : List BlockId) (x : BlockId)
      → IsMergeset sp parents mergeset
      → 1 ≤ times x mergeset
      → in_boundary nodes is_ancestor sp x ≡ false
  mergeset_outside sp parents mergeset x s h = (Merged-Inside sp parents x ((s.merged x).0 h)).1

  -- The colouring of a block with this selected parent and these parents: the anticone sizes are
  -- exact and at most k, the blue score counts them, their keys are those of the selected parent,
  -- itself and the new blues, and blues and reds are the mergeset, each block once.
  pub record IsColouring (k : ℕ) (sp : BlockId) (parents : List BlockId) (g : GhostdagData)
      : Type 0 where
    pub parent : g.selected_parent ≡ some sp
    pub cluster : IsCluster k nodes is_ancestor g.blue_anticone_sizes
    pub score : g.blue_score ≡ length g.blue_anticone_sizes % 2 ^ 64
    pub keys :
        (b : BlockId)
        → key_count b g.blue_anticone_sizes
          ≡ key_count b (node_at nodes sp).ghostdag.blue_anticone_sizes
            + times b (sp ∷ [])
            + times b g.mergeset_blues
    pub once : (b : BlockId) → times b g.mergeset_blues + times b g.mergeset_reds ≤ 1
    pub merged :
        (b : BlockId)
        → (1 ≤ times b g.mergeset_blues + times b g.mergeset_reds)
          ↔ Merged nodes is_ancestor sp parents b

  -- Where the anticone sizes of the selected parent are exact and at most k, `compute_ghostdag`
  -- comes to an answer, which is a colouring of the block.
  pub compute_ghostdag-IsColouring :
      (k : ℕ) (sp : BlockId) (parents : List BlockId)
      → k < 65535
      → is_ancestor sp sp ≡ false
      → select_parent nodes parents ≡ some sp
      → IsColoured k nodes is_ancestor sp (node_at nodes sp).ghostdag
      → (g : GhostdagData) × (compute_ghostdag k nodes is_ancestor parents ≡ some g)
        × IsColouring k sp parents g
  unfolding compute_ghostdag
  compute_ghostdag-IsColouring k sp parents small apart picked parent =
      let (mergeset, e, s) = mergeset_ordered-IsMergeset sp parents in
      let (cluster, score, keys, split) =
        colour-IsCluster k nodes is_ancestor sp mergeset small apart parent s.once
          (λ b. mergeset_outside sp parents mergeset b s) in
      (
        colour k nodes is_ancestor sp mergeset,
        ground (arith, picked, e),
        record {
          parent = unfold colour in refl;
          cluster = cluster;
          score = score;
          keys = keys;
          once = λ b. omega (arith, split b, s.once b);
          merged = λ b. (
            λ h. (s.merged b).0 (omega (arith, h, split b)),
            λ m. omega (arith, (s.merged b).1 m, split b),
          );
        },
      )
