-- ===== src/Dag/Insert/Invariant.antt =====
-- The links of the store: parents, children and tips agree, through an insertion.
use kovanica_node.Common.{
  ℕ, ◌≡◌, refl, true, false, not, ◌&&◌, none, some, List, [], ◌∷◌, ok, ◌==◌, ltb, if◌then◌else◌,
  arith, Bool-cases, Option-cases, inl, inr,
}
use kovanica_node.Common.Map
use kovanica_node.Common.Map.{IsMap, get-insert, insert-IsMap}
use kovanica_node.Dag.{BlockId, Node, Nodes, block_key, block_eq, block_eq_iff, has_block, contains}
use kovanica_node.Dag.Identity.{is_pruned, prune_payload}
use kovanica_node.Dag.Store.{set_insert}
use kovanica_node.Dag.Wiring.{wire, remove_tips, prune_node, prune_nodes, check_parents}
use kovanica_node.Dag.Insert.Links.{
  parents_of, children_of, Wired, wire-Wired, set_insert-contains, remove_tips-contains,
}

-- Parents are stored, the children of a block are the blocks that have it as a parent, and the tips
-- are the stored blocks that no block has as a parent.
pub record IsLinked (nodes : Nodes) (tips : List BlockId) : Type 0 where
  pub map : IsMap nodes
  pub parents : (x p : BlockId) → contains (parents_of nodes x) p ≡ true → has_block nodes p ≡ true
  pub children :
      (p c : BlockId) → contains (children_of nodes p) c ≡ contains (parents_of nodes c) p
  pub stored_tips : (t : BlockId) → contains tips t ≡ true → has_block nodes t ≡ true
  pub childless : (t c : BlockId) → contains tips t ≡ true → contains (parents_of nodes c) t ≡ false
  pub all_tips :
      (t : BlockId)
      → has_block nodes t ≡ true
      → ((c : BlockId) → contains (parents_of nodes c) t ≡ false)
      → contains tips t ≡ true

pub check_parents-stored :
    (nodes : Nodes) (ps : List BlockId) (p : BlockId)
    → check_parents nodes ps ≡ ok tt
    → contains ps p ≡ true
    → has_block nodes p ≡ true
unfolding check_parents contains
check_parents-stored nodes [] p e h = ground (arith, h)
check_parents-stored nodes (q ∷ ps) p e h =
    grind (arith, e, h, check_parents-stored nodes ps p, block_eq_iff q p)

module _ (nodes : Nodes) (tips : List BlockId) (l : IsLinked nodes tips) (id : BlockId)
    (node : Node) (new : has_block nodes id ≡ false)
    (known : (p : BlockId) → contains node.block.parents p ≡ true → has_block nodes p ≡ true)
    (leaf : node.children ≡ []) where
  abbrev ps : List BlockId
  ps = node.block.parents

  abbrev wired : Nodes
  wired = wire id ps nodes

  abbrev next : Nodes
  next = Map.insert id node wired

  abbrev w : Wired id ps nodes wired
  w = wire-Wired id ps nodes l.map

  pub next-stored :
      (x : BlockId) → has_block next x ≡ (if block_eq id x then true else has_block nodes x)
  next-stored x = ground (arith, get-insert x id node wired, w.stored x)

  next-parents :
      (x : BlockId) → parents_of next x ≡ (if block_eq id x then ps else parents_of nodes x)
  next-parents x = ground (arith, get-insert x id node wired, w.parents x)

  next-children :
      (x c : BlockId)
      → contains (children_of next x) c ≡ (
          if block_eq id x
          then false
          else if has_block nodes x && contains ps x && block_eq id c
          then true
          else contains (children_of nodes x) c)
  unfolding contains
  next-children x c = grind (arith, get-insert x id node wired, w.children x c, leaf)

  no_parents_yet : (p : BlockId) → contains (parents_of nodes id) p ≡ false
  unfolding contains
  no_parents_yet p = ground (arith, new)

  no_children_yet : (c : BlockId) → contains (parents_of nodes c) id ≡ false
  no_children_yet c = ground (arith, l.parents c id, new)

  not_own_parent : contains ps id ≡ false
  not_own_parent = ground (arith, known id, new)

  -- Whether `p` is a parent of `c` afterwards.
  link :
      (p c : BlockId)
      → contains (parents_of next c) p
        ≡ (if block_eq id c then contains ps p else contains (parents_of nodes c) p)
  link p c = ground (arith, next-parents c)

  unlinked_before :
      (t : BlockId)
      → ((c : BlockId) → contains (parents_of next c) t ≡ false)
      → (c : BlockId) → contains (parents_of nodes c) t ≡ false
  unlinked_before t h c = grind (arith, h c, link t c, block_eq_iff id c, no_parents_yet t)

  new_tips :
      (t : BlockId)
      → has_block next t ≡ true
      → ((c : BlockId) → contains (parents_of next c) t ≡ false)
      → contains (set_insert id (remove_tips ps tips)) t ≡ true
  new_tips t s h =
      let all = set_insert-contains id t (remove_tips ps tips) in
      elim (Bool-cases (block_eq id t)) [
        | inl same ↦ ground (arith, all, same)
        | inr other ↦
            let apart : contains ps t ≡ false =
              grind (arith, h id, link t id, block_eq_iff id id) in
            let before : has_block nodes t ≡ true = ground (arith, s, next-stored t, other) in
            let tip = l.all_tips t before (unlinked_before t h) in
            ground (arith, all, other, tip, remove_tips-contains ps tips t, apart)
      ]

  pub next-IsLinked : IsLinked next (set_insert id (remove_tips ps tips))
  next-IsLinked = record {
    map = insert-IsMap id node wired w.map;
    parents = λ x p h. grind (arith, h, link p x, next-stored p, known p, l.parents x p);
    children = λ p c. grind (
      arith,
      link p c,
      next-children p c,
      known p,
      l.children p c,
      block_eq_iff id c,
      block_eq_iff id p,
      no_parents_yet p,
      no_children_yet c,
      not_own_parent,
    );
    stored_tips = λ t h. grind (
      arith,
      h,
      next-stored t,
      l.stored_tips t,
      set_insert-contains id t (remove_tips ps tips),
      remove_tips-contains ps tips t,
    );
    childless = λ t c h. grind (
      arith,
      h,
      link t c,
      l.childless t c,
      set_insert-contains id t (remove_tips ps tips),
      remove_tips-contains ps tips t,
      block_eq_iff id t,
      no_children_yet c,
      not_own_parent,
    );
    all_tips = new_tips;
  }

-- Pruning a payload keeps every link.
prune_nodes-get :
    (threshold : ℕ) (nodes : Nodes) (x : BlockId)
    → Map.get x (prune_nodes threshold nodes)
      ≡ (elim (Map.get x nodes) [ none ↦ none | some node ↦ some (prune_node threshold node) ])
unfolding prune_nodes Map.get
prune_nodes-get threshold [] x = refl
prune_nodes-get threshold ((id, node) ∷ nodes) x = ground (arith, prune_nodes-get threshold nodes x)

prune_node-links :
    (threshold : ℕ) (node : Node)
    → ((prune_node threshold node).block.parents ≡ node.block.parents)
      × ((prune_node threshold node).children ≡ node.children)
unfolding prune_node prune_payload
prune_node-links threshold node = elim (Bool-cases (node.ghostdag.blue_score == 0)) [
  | inl zero_score ↦ ground (arith, zero_score)
  | inr some_score ↦
      elim (Bool-cases (ltb node.ghostdag.blue_score threshold && not (is_pruned node.block))) [
        | inl old ↦ ground (arith, some_score, old)
        | inr kept ↦ ground (arith, some_score, kept)
      ]
]

prune_nodes-IsMap :
    (threshold : ℕ) (nodes : Nodes) → IsMap nodes → IsMap (prune_nodes threshold nodes)
unfolding prune_nodes
prune_nodes-IsMap threshold [] m = tt
prune_nodes-IsMap threshold ((id, node) ∷ nodes) (new, m) =
    (ground (arith, prune_nodes-get threshold nodes id, new), prune_nodes-IsMap threshold nodes m)

module _ (threshold : ℕ) (nodes : Nodes) where
  pub prune_nodes-stored :
      (x : BlockId) → has_block (prune_nodes threshold nodes) x ≡ has_block nodes x
  prune_nodes-stored x = elim (Option-cases (Map.get x nodes)) [
    | inl gone ↦ ground (arith, gone, prune_nodes-get threshold nodes x)
    | inr (node, here) ↦ ground (arith, here, prune_nodes-get threshold nodes x)
  ]

  prune_nodes-links :
      (x : BlockId)
      → (parents_of (prune_nodes threshold nodes) x ≡ parents_of nodes x)
        × (children_of (prune_nodes threshold nodes) x ≡ children_of nodes x)
  prune_nodes-links x = elim (Option-cases (Map.get x nodes)) [
    | inl gone ↦ ground (arith, gone, prune_nodes-get threshold nodes x)
    | inr (node, here) ↦
        ground (arith, here, prune_nodes-get threshold nodes x, prune_node-links threshold node)
  ]

  pub prune_nodes-IsLinked :
      (tips : List BlockId) → IsLinked nodes tips → IsLinked (prune_nodes threshold nodes) tips
  prune_nodes-IsLinked tips l = record {
    map = prune_nodes-IsMap threshold nodes l.map;
    parents = λ x p h. ground (arith, h, prune_nodes-links x, prune_nodes-stored p, l.parents x p);
    children = λ p c. ground (arith, prune_nodes-links p, prune_nodes-links c, l.children p c);
    stored_tips = λ t h. ground (arith, h, prune_nodes-stored t, l.stored_tips t);
    childless = λ t c h. ground (arith, h, prune_nodes-links c, l.childless t c);
    all_tips = λ t s h.
        l.all_tips t (ground (arith, s, prune_nodes-stored t))
          (λ c. ground (arith, h c, prune_nodes-links c));
  }
