-- ===== src/Dag/Merged.antt =====
-- `mergeset_ordered` of dag.rs against the blocks that parent links reach.
use kovanica_node.Common.{
  ℕ, ◌+◌, ◌≤◌, ◌≡◌, refl, sym, subst, Bool, true, false, List, [], ◌∷◌, ◌++◌, if◌then◌else◌, length,
  arith, Bool-cases, inl, inr,
}
use kovanica_node.Common.Map
use kovanica_node.Common.Map.{Map}
use kovanica_node.Dag.{
  BlockId, Nodes, block_eq, block_eq_iff, block_key, node_at, has_block, contains,
}
use kovanica_node.Dag.Mergeset.{in_boundary, all_parents}
use kovanica_node.Dag.Cluster.{times}

pub contains-++ :
    (xs ys : List BlockId) (x : BlockId)
    → contains (xs ++ ys) x ≡ (if contains xs x then true else contains ys x)
unfolding contains
contains-++ [] ys x = refl
contains-++ (y ∷ xs) ys x = ground (arith, contains-++ xs ys x)

-- The parent links of the blocks that the walk has not seen.
unfoldable pub unseen : List BlockId → Nodes → ℕ
unseen seen [] = 0
unseen seen ((id, n) ∷ nodes) =
    (if contains seen id then 0 else length n.block.parents) + unseen seen nodes

pub unseen-nil : (nodes : Nodes) → unseen [] nodes ≡ all_parents nodes
unfolding unseen all_parents contains
unseen-nil [] = refl
unseen-nil ((id, n) ∷ nodes) = ground (arith, unseen-nil nodes)

pub unseen-le :
    (x : BlockId) (seen : List BlockId) (nodes : Nodes)
    → unseen (x ∷ seen) nodes ≤ unseen seen nodes
unfolding unseen contains
unseen-le x seen [] = omega arith
unseen-le x seen ((id, n) ∷ nodes) = ground (arith, unseen-le x seen nodes)

pub unseen-drops :
    (x : BlockId) (seen : List BlockId) (nodes : Nodes)
    → contains seen x ≡ false
    → has_block nodes x ≡ true
    → unseen (x ∷ seen) nodes + length (node_at nodes x).block.parents ≤ unseen seen nodes
unfolding unseen contains Map.get
unseen-drops x seen [] new here = ground (arith, here)
unseen-drops x seen ((id, n) ∷ nodes) new here = elim (Bool-cases (block_eq id x)) [
  | inl same ↦
      let id_new : contains seen id ≡ false =
        subst (λ y. contains seen y ≡ false) (sym ((block_eq_iff id x).0 same)) new in
      let id_same : block_eq x id ≡ true =
        grind (arith, block_eq_iff id x, block_eq_iff x id, same) in
      ground (arith, same, id_new, id_same, unseen-le x seen nodes)
  | inr other ↦ ground (arith, other, unseen-drops x seen nodes new (ground (arith, here, other)))
]

module _ (nodes : Nodes) (is_ancestor : BlockId → BlockId → Bool) where
  -- What the walk collects on its way: a block that is stored and outside the boundary.
  abbrev pub Inside : BlockId → BlockId → Type 0
  Inside sp x = (has_block nodes x ≡ true) × (in_boundary nodes is_ancestor sp x ≡ false)

  -- The blocks that parent links reach from the parents of a new block before the boundary.
  pub data Merged (sp : BlockId) (parents : List BlockId) : BlockId → Type 0 where
    direct : {x : BlockId} → contains parents x ≡ true → Inside sp x → Merged sp parents x
    older :
        {x y : BlockId}
        → Merged sp parents x
        → contains (node_at nodes x).block.parents y ≡ true
        → Inside sp y
        → Merged sp parents y

  -- The state of the loop.
  pub record Walked (sp : BlockId) (parents seen mergeset queue : List BlockId) : Type 0 where
    pub sound : (x : BlockId) → contains mergeset x ≡ true → Merged sp parents x
    pub queued : (x : BlockId) → contains queue x ≡ true → Inside sp x → Merged sp parents x
    pub once : (x : BlockId) → times x mergeset ≤ (if contains seen x then 1 else 0)
    pub first :
        (x : BlockId)
        → contains parents x ≡ true
        → (if contains seen x then true else contains queue x) ≡ true
    pub closed :
        (x y : BlockId)
        → contains mergeset x ≡ true
        → contains (node_at nodes x).block.parents y ≡ true
        → (if contains seen y then true else contains queue y) ≡ true
    pub kept : (x : BlockId) → contains seen x ≡ true → Inside sp x → contains mergeset x ≡ true

  module _ (sp : BlockId) (parents seen mergeset queue : List BlockId) (x : BlockId) where
    pub Walked-seen :
        contains seen x ≡ true
        → Walked sp parents seen mergeset (x ∷ queue)
        → Walked sp parents seen mergeset queue
    unfolding contains
    Walked-seen old w = record {
      sound = w.sound;
      queued = λ y p i. w.queued y (ground (arith, p)) i;
      once = w.once;
      first = λ y p. grind (arith, w.first y p, old, block_eq_iff x y);
      closed = λ y z p q. grind (arith, w.closed y z p q, old, block_eq_iff x z);
      kept = w.kept;
    }

    here_or_later :
        (P : BlockId → Type 0) (xs : List BlockId) (y : BlockId)
        → P x
        → (contains xs y ≡ true → P y)
        → contains (x ∷ xs) y ≡ true
        → P y
    unfolding contains
    here_or_later P xs y here later p = elim (Bool-cases (block_eq x y)) [
      | inl same ↦ subst P ((block_eq_iff x y).0 same) here
      | inr other ↦ later (ground (arith, p, other))
    ]

    pub Walked-skip :
        (Inside sp x → ⊥)
        → Walked sp parents seen mergeset (x ∷ queue)
        → Walked sp parents (x ∷ seen) mergeset queue
    unfolding contains
    Walked-skip out w = record {
      sound = w.sound;
      queued = λ y p i. w.queued y (ground (arith, p)) i;
      once = λ y. ground (arith, w.once y);
      first = λ y p. ground (arith, w.first y p);
      closed = λ y z p q. ground (arith, w.closed y z p q);
      kept = λ y.
          here_or_later (λ z. Inside sp z → contains mergeset z ≡ true) seen y (λ i. absurd (out i))
            (w.kept y);
    }

    pub Walked-take :
        contains seen x ≡ false
        → Inside sp x
        → Walked sp parents seen mergeset (x ∷ queue)
        → Walked sp parents (x ∷ seen) (x ∷ mergeset) (queue ++ (node_at nodes x).block.parents)
    unfolding contains times
    Walked-take new i w =
        let links = (node_at nodes x).block.parents in
        let taken : Merged sp parents x = w.queued x (ground (arith, block_eq_iff x x)) i in
        record {
          sound = λ y p. here_or_later (Merged sp parents) mergeset y taken (w.sound y) p;
          queued = λ y p j. elim (Bool-cases (contains queue y)) [
            | inl old ↦ w.queued y (ground (arith, old)) j
            | inr fresh ↦ older taken (ground (arith, p, fresh, contains-++ queue links y)) j
          ];
          once = λ y. grind (arith, new, w.once y, block_eq_iff x y);
          first = λ y p. ground (arith, w.first y p, contains-++ queue links y);
          closed = λ y z.
              here_or_later
                (λ v.
                  contains (node_at nodes v).block.parents z ≡ true
                  → (if contains (x ∷ seen) z then true else contains (queue ++ links) z) ≡ true)
                mergeset y (λ q. ground (arith, q, contains-++ queue links z))
                (λ p q. ground (arith, w.closed y z p q, contains-++ queue links z));
          kept = λ y p j. ground (arith, p, w.kept y, j);
        }

  pub Walked-start : (sp : BlockId) (parents : List BlockId) → Walked sp parents [] [] parents
  unfolding contains times
  Walked-start sp parents = record {
    sound = λ x p. ground (arith, p);
    queued = λ x p i. direct p i;
    once = λ x. ground (arith);
    first = λ x p. ground (arith, p);
    closed = λ x y p q. ground (arith, p);
    kept = λ x p i. ground (arith, p);
  }

  pub Walked-end :
      (sp : BlockId) (parents seen mergeset : List BlockId)
      → Walked sp parents seen mergeset []
      → (x : BlockId) → Merged sp parents x
      → contains mergeset x ≡ true
  unfolding contains
  Walked-end sp parents seen mergeset w x (direct p i) = w.kept x (ground (arith, w.first x p)) i
  Walked-end sp parents seen mergeset w y (older {x = x} m p i) =
      let before = Walked-end sp parents seen mergeset w x m in
      w.kept y (ground (arith, w.closed x y before p)) i
