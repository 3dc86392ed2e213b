-- ===== src/Dag/Walk.antt =====
-- The walk of `mergeset_ordered`: that it ends, and what it returns.
use kovanica_node.Common.{
  ℕ, zero, suc, ◌+◌, ◌≤◌, ◌≡◌, refl, Bool, true, false, some, List, [], ◌∷◌, ◌++◌, length,
  length-append, arith, Bool-cases, ◌⊎◌, inl, inr,
}
use kovanica_node.Dag.{BlockId, Nodes, block_key, node_at, has_block, contains}
use kovanica_node.Dag.Mergeset.{in_boundary, walk}
use kovanica_node.Dag.Merged.{
  unseen, unseen-le, unseen-drops, Inside, Walked, Walked-seen, Walked-skip, Walked-take,
}

module _ (nodes : Nodes) (is_ancestor : BlockId → BlockId → Bool) where
  pub record Finishes (fuel : ℕ) (sp : BlockId) (parents seen mergeset queue : List BlockId)
      : Type 0 where
    pub result : List BlockId
    pub marked : List BlockId
    pub ends : walk nodes is_ancestor fuel sp seen mergeset queue ≡ some result
    pub walked : Walked nodes is_ancestor sp parents marked result []

  module _ (fuel : ℕ) (sp : BlockId) (parents seen mergeset queue : List BlockId)
      (x : BlockId) where
    Finishes-seen :
        contains seen x ≡ true
        → Finishes fuel sp parents seen mergeset queue
        → Finishes (suc fuel) sp parents seen mergeset (x ∷ queue)
    unfolding walk
    Finishes-seen old f = record {
      result = f.result;
      marked = f.marked;
      ends = ground (arith, old, f.ends);
      walked = f.walked;
    }

    Finishes-skip :
        contains seen x ≡ false
        → (Inside nodes is_ancestor sp x → ⊥)
        → Finishes fuel sp parents (x ∷ seen) mergeset queue
        → Finishes (suc fuel) sp parents seen mergeset (x ∷ queue)
    unfolding walk
    Finishes-skip new out f = record {
      result = f.result;
      marked = f.marked;
      ends = elim (Bool-cases (has_block nodes x)) [
        | inl here ↦ elim (Bool-cases (in_boundary nodes is_ancestor sp x)) [
          | inl edge ↦ ground (arith, new, here, edge, f.ends)
          | inr beyond ↦ absurd (out (here, beyond))
        ]
        | inr gone ↦ ground (arith, new, gone, f.ends)
      ];
      walked = f.walked;
    }

    Finishes-take :
        contains seen x ≡ false
        → Inside nodes is_ancestor sp x
        → Finishes fuel sp parents
            (x ∷ seen)
            (x ∷ mergeset)
            (queue ++ (node_at nodes x).block.parents)
        → Finishes (suc fuel) sp parents seen mergeset (x ∷ queue)
    unfolding walk
    Finishes-take new (here, beyond) f = record {
      result = f.result;
      marked = f.marked;
      ends = ground (arith, new, here, beyond, f.ends);
      walked = f.walked;
    }

  inside? : (sp x : BlockId) → Inside nodes is_ancestor sp x ⊎ (Inside nodes is_ancestor sp x → ⊥)
  inside? sp x = elim (Bool-cases (has_block nodes x)) [
    | inl here ↦ elim (Bool-cases (in_boundary nodes is_ancestor sp x)) [
      | inl edge ↦ inr (λ i. ground (arith, edge, i.1))
      | inr beyond ↦ inl (here, beyond)
    ]
    | inr gone ↦ inr (λ i. ground (arith, gone, i.0))
  ]

  -- The walk ends before its fuel does, and keeps its invariant.
  pub walk-Finishes :
      (fuel : ℕ) (sp : BlockId) (parents seen mergeset queue : List BlockId)
      → length queue + unseen seen nodes ≤ fuel
      → Walked nodes is_ancestor sp parents seen mergeset queue
      → Finishes fuel sp parents seen mergeset queue
  walk-Finishes fuel sp parents seen mergeset [] l w = record {
    result = mergeset;
    marked = seen;
    ends = unfold walk in refl;
    walked = w;
  }
  walk-Finishes zero sp parents seen mergeset (x ∷ queue) l w = absurd (omega (arith, l))
  walk-Finishes (suc fuel) sp parents seen mergeset (x ∷ queue) l w =
      let links = (node_at nodes x).block.parents in
      elim (Bool-cases (contains seen x)) [
        | inl old ↦ Finishes-seen fuel sp parents seen mergeset queue x old (
            walk-Finishes fuel sp parents seen mergeset queue (omega (arith, l))
              (Walked-seen nodes is_ancestor sp parents seen mergeset queue x old w))
        | inr new ↦ elim (inside? sp x) [
          | inl i ↦ Finishes-take fuel sp parents seen mergeset queue x new i (
              walk-Finishes fuel sp parents (x ∷ seen) (x ∷ mergeset) (queue ++ links)
                (omega (arith, l, length-append queue links, unseen-drops x seen nodes new i.0))
                (Walked-take nodes is_ancestor sp parents seen mergeset queue x new i w))
          | inr out ↦ Finishes-skip fuel sp parents seen mergeset queue x new out (
              walk-Finishes fuel sp parents (x ∷ seen) mergeset queue
                (omega (arith, l, unseen-le x seen nodes))
                (Walked-skip nodes is_ancestor sp parents seen mergeset queue x out w))
        ]
      ]
