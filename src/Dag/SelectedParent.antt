-- ===== src/Dag/SelectedParent.antt =====
-- ghostdag.rs: what `compute_ghostdag` makes of the blue set of the selected parent.
use kovanica_node.Common.{
  ℕ, suc, ◌+◌, ◌%◌, ◌^◌, ◌≤◌, ◌<◌, ◌≡◌, refl, Bool, true, false, none, List, [], ◌∷◌, length, arith,
  Option-cases, inl, inr,
}
use kovanica_node.Common.Map
use kovanica_node.Common.Map.{Map, IsMap, get-insert, insert-IsMap}
use kovanica_node.Dag.{BlockId, Nodes, GhostdagData, block_eq_iff, block_key, present, node_at}
use kovanica_node.Dag.Mergeset.{in_anticone, in_boundary}
use kovanica_node.Dag.Ghostdag.{Sizes, Colouring, bump, colour_all, colour}
use kovanica_node.Dag.Cluster.{times}
use kovanica_node.Dag.Colouring.{anticone_size, IsCluster, Found, extended-IsCluster}
use kovanica_node.Dag.BlueSet.{
  key_count, key_count-entered, entered-length, Coloured, colour_all-Coloured,
}

module _ (k : ℕ) (nodes : Nodes) (is_ancestor : BlockId → BlockId → Bool) where
  -- The anticone sizes are exact and at most k, one for each blue block in the past.
  pub record IsColoured (id : BlockId) (g : GhostdagData) : Type 0 where
    pub cluster : IsCluster k nodes is_ancestor g.blue_anticone_sizes
    pub score : g.blue_score ≡ length g.blue_anticone_sizes % 2 ^ 64
    pub past :
        (b : BlockId) → present (Map.get b g.blue_anticone_sizes) ≡ true → is_ancestor b id ≡ true

  anticone_size-past :
      (sp : BlockId) (m : Sizes)
      → IsMap m
      → ((b : BlockId) → present (Map.get b m) ≡ true → is_ancestor b sp ≡ true)
      → anticone_size k nodes is_ancestor sp m ≡ 0
  unfolding anticone_size Map.total Map.get in_anticone
  anticone_size-past sp [] h past = refl
  anticone_size-past sp ((b, n) ∷ m) (new, h) past =
      let head : is_ancestor b sp ≡ true = past b (ground (arith, block_eq_iff b b)) in
      let rest =
        anticone_size-past sp m h (λ x p. past x (ground (arith, p, new, block_eq_iff b x))) in
      ground (arith, head, rest)

  parent-Found :
      (sp : BlockId) (m : Sizes)
      → IsMap m
      → ((b : BlockId) → present (Map.get b m) ≡ true → is_ancestor b sp ≡ true)
      → Found k nodes is_ancestor sp m [] []
  unfolding times in_anticone
  parent-Found sp m h past = record {
    size = omega (arith, anticone_size-past sp m h past);
    short = omega arith;
    each = λ b. ground (arith, past b);
    room = λ b n p q. ground (arith, past b, p, q);
  }

  parent-IsCluster :
      (sp : BlockId) (m : Sizes)
      → k < 65535
      → IsCluster k nodes is_ancestor m
      → Map.get sp m ≡ none
      → ((b : BlockId) → present (Map.get b m) ≡ true → is_ancestor b sp ≡ true)
      → IsCluster k nodes is_ancestor (Map.insert sp 0 m)
  unfolding bump
  parent-IsCluster sp m small c new past =
      extended-IsCluster k nodes is_ancestor sp [] m small c new (parent-Found sp m c.map past)

  -- Every block of the mergeset is a new key.
  fresh :
      (sp b : BlockId) (m : Sizes) (mergeset : List BlockId)
      → Map.get sp m ≡ none
      → ((b : BlockId) → present (Map.get b m) ≡ true → is_ancestor b sp ≡ true)
      → times b mergeset ≤ 1
      → (1 ≤ times b mergeset → in_boundary nodes is_ancestor sp b ≡ false)
      → key_count b (Map.insert sp 0 m) + times b mergeset ≤ 1
  unfolding key_count in_boundary
  fresh sp b m mergeset new past once outside =
      grind
        (arith, past b, once, outside, get-insert b sp 0 m, block_eq_iff sp b, block_eq_iff b sp)

  module _ (sp : BlockId) (mergeset : List BlockId) (small : k < 65535)
      (apart : is_ancestor sp sp ≡ false) (parent : IsColoured sp (node_at nodes sp).ghostdag)
      (once : (b : BlockId) → times b mergeset ≤ 1)
      (outside : (b : BlockId)
        → 1 ≤ times b mergeset
        → in_boundary nodes is_ancestor sp b ≡ false) where
    abbrev sizes_of_parent : Sizes
    sizes_of_parent = (node_at nodes sp).ghostdag.blue_anticone_sizes

    parent_new : Map.get sp sizes_of_parent ≡ none
    parent_new = elim (Option-cases (Map.get sp sizes_of_parent)) [
      | inl p ↦ p
      | inr (n, p) ↦ ground (arith, p, parent.past sp, apart)
    ]

    abbrev start : Colouring
    start = record { sizes = Map.insert sp 0 sizes_of_parent; blues = []; reds = [] }

    all-Coloured :
        Coloured k nodes is_ancestor mergeset start (colour_all k nodes is_ancestor mergeset start)
    all-Coloured =
        colour_all-Coloured k nodes is_ancestor mergeset start small
          (parent-IsCluster sp sizes_of_parent small parent.cluster parent_new parent.past)
          (λ b. fresh sp b sizes_of_parent mergeset parent_new parent.past (once b) (outside b))

    pub colour-IsCluster :
        IsCluster k nodes is_ancestor (colour k nodes is_ancestor sp mergeset).blue_anticone_sizes
        × ((colour k nodes is_ancestor sp mergeset).blue_score
            ≡ length (colour k nodes is_ancestor sp mergeset).blue_anticone_sizes % 2 ^ 64)
        × ((b : BlockId)
            → key_count b (colour k nodes is_ancestor sp mergeset).blue_anticone_sizes
              ≡ key_count b sizes_of_parent
                + times b (sp ∷ [])
                + times b (colour k nodes is_ancestor sp mergeset).mergeset_blues)
        × ((b : BlockId)
            → times b (colour k nodes is_ancestor sp mergeset).mergeset_blues
                + times b (colour k nodes is_ancestor sp mergeset).mergeset_reds
              ≡ times b mergeset)
    unfolding colour
    colour-IsCluster =
        let one : length (Map.insert sp 0 sizes_of_parent) ≡ suc (length sizes_of_parent) =
          unfold bump in
          entered-length k nodes is_ancestor sp 0 [] sizes_of_parent parent.cluster.map
            parent_new in
        (
          all-Coloured.cluster,
          omega (arith, all-Coloured.count, one, parent.score),
          λ b.
              unfold bump times in
              omega (
                arith,
                all-Coloured.keys b,
                key_count-entered b sp 0 [] sizes_of_parent parent_new,
              ),
          λ b. unfold times in omega (arith, all-Coloured.split b),
        )
