-- ===== src/Dag/Insert/Founded.antt =====
-- The selected-parent chains of the store: each ends, within the number of stored blocks.
use kovanica_node.Common.{
  ℕ, suc, ◌≡◌, refl, ◌∙◌, sym, subst, true, false, Option, none, some, List, [], ◌∷◌, arith, length,
  Bool-cases, inl, inr,
}
use kovanica_node.Common.Map
use kovanica_node.Common.Map.{IsMap, get-insert, insert-IsMap, total-insert}
use kovanica_node.Dag.{
  BlockId, Node, Nodes, block_key, block_eq, block_eq_iff, node_at, has_block, contains,
}
use kovanica_node.Dag.Mergeset.{heavier, select_parent}
use kovanica_node.Dag.Store.{set_insert}
use kovanica_node.Dag.Wiring.{add_child_to, add_child, wire, prune_node, prune_nodes}

abbrev pub chain_parent : Nodes → BlockId → Option BlockId
chain_parent nodes x = (node_at nodes x).ghostdag.selected_parent

abbrev pub count : Nodes → ℕ
count nodes = Map.total (λ x n. 1) nodes

pub count-length : (nodes : Nodes) → length nodes ≡ count nodes
unfolding Map.total
count-length [] = refl
count-length ((x, n) ∷ nodes) = omega (arith, count-length nodes)

-- The chain from a block ends after at most so many steps, and its blocks are stored.
pub data Descends (nodes : Nodes) : ℕ → BlockId → Type 0 where
  ends :
      {n : ℕ} {x : BlockId}
      → has_block nodes x ≡ true
      → chain_parent nodes x ≡ none
      → Descends nodes (suc n) x
  down :
      {n : ℕ} {x p : BlockId}
      → has_block nodes x ≡ true
      → chain_parent nodes x ≡ some p
      → Descends nodes n p
      → Descends nodes (suc n) x

pub Descends-moved :
    (nodes next : Nodes)
    → ((x : BlockId) → has_block nodes x ≡ true → has_block next x ≡ true)
    → ((x : BlockId) → has_block nodes x ≡ true → chain_parent next x ≡ chain_parent nodes x)
    → (n : ℕ) (x : BlockId) → Descends nodes n x
    → Descends next n x
Descends-moved nodes next s c _ x (ends h e) = ends (s x h) (c x h ∙ e)
Descends-moved nodes next s c _ x (down {p = p} h e d) =
    down (s x h) (c x h ∙ e) (Descends-moved nodes next s c _ p d)

pub Descends-later :
    (nodes : Nodes) (n : ℕ) (x : BlockId) → Descends nodes n x → Descends nodes (suc n) x
Descends-later nodes _ x (ends h e) = ends h e
Descends-later nodes _ x (down {p = p} h e d) = down h e (Descends-later nodes _ p d)

pub record IsFounded (nodes : Nodes) : Type 0 where
  pub map : IsMap nodes
  pub chains : (x : BlockId) → has_block nodes x ≡ true → Descends nodes (count nodes) x

-- The same blocks with the same selected parents.
pub record Kept (nodes next : Nodes) : Type 0 where
  pub map : IsMap next
  pub stored : (x : BlockId) → has_block next x ≡ has_block nodes x
  pub parent : (x : BlockId) → chain_parent next x ≡ chain_parent nodes x
  pub size : count next ≡ count nodes

pub Kept-IsFounded : (nodes next : Nodes) → Kept nodes next → IsFounded nodes → IsFounded next
Kept-IsFounded nodes next k f = record {
  map = k.map;
  chains = λ x h.
      subst (λ n. Descends next n x) (sym k.size)
        (Descends-moved nodes next (λ y s. k.stored y ∙ s) (λ y s. k.parent y) (count nodes) x
          (f.chains x (sym (k.stored x) ∙ h)));
}

add_child_to-Kept :
    (id p : BlockId) (o : Option Node) (nodes : Nodes)
    → IsMap nodes
    → Map.get p nodes ≡ o
    → Kept nodes (add_child_to id p o nodes)
unfolding add_child_to
add_child_to-Kept id p none nodes m here = record {
  map = m;
  stored = λ x. refl;
  parent = λ x. refl;
  size = refl;
}
add_child_to-Kept id p (some node) nodes m here =
    let next = record node { children = set_insert id node.children } in
    record {
      map = insert-IsMap p next nodes m;
      stored = λ x. grind (arith, here, block_eq_iff p x, get-insert x p next nodes);
      parent = λ x. grind (arith, here, block_eq_iff p x, get-insert x p next nodes);
      size = ground (arith, here, total-insert (λ x n. 1) p next nodes m);
    }

wire-Kept :
    (id : BlockId) (ps : List BlockId) (nodes : Nodes) → IsMap nodes → Kept nodes (wire id ps nodes)
unfolding wire add_child
wire-Kept id [] nodes m = record { map = m; stored = λ x. refl; parent = λ x. refl; size = refl }
wire-Kept id (p ∷ ps) nodes m =
    let first = add_child_to-Kept id p (Map.get p nodes) nodes m refl in
    let rest = wire-Kept id ps (add_child id p nodes) first.map in
    record {
      map = rest.map;
      stored = λ x. rest.stored x ∙ first.stored x;
      parent = λ x. rest.parent x ∙ first.parent x;
      size = rest.size ∙ first.size;
    }

pub added-stored :
    (nodes : Nodes) (ps : List BlockId) (id x : BlockId) (node : Node)
    → IsFounded nodes
    → has_block nodes x ≡ true
    → has_block (Map.insert id node (wire id ps nodes)) x ≡ true
added-stored nodes ps id x node f h =
    let k = wire-Kept id ps nodes f.map in
    ground (arith, get-insert x id node (wire id ps nodes), k.stored x, h)

pub added-IsFounded :
    (nodes : Nodes) (ps : List BlockId) (id sp : BlockId) (node : Node)
    → IsFounded nodes
    → has_block nodes id ≡ false
    → has_block nodes sp ≡ true
    → node.ghostdag.selected_parent ≡ some sp
    → IsFounded (Map.insert id node (wire id ps nodes))
added-IsFounded nodes ps id sp node f new known parent =
    let wired = wire id ps nodes in
    let k = wire-Kept id ps nodes f.map in
    let next = Map.insert id node wired in
    let size : count next ≡ suc (count nodes) =
      ground (arith, k.size, k.stored id, new, total-insert (λ x n. 1) id node wired k.map) in
    let moved : (x : BlockId) → has_block nodes x ≡ true → Descends next (count nodes) x = λ x h.
      Descends-moved nodes next (λ y s. ground (arith, get-insert y id node wired, k.stored y, s))
        (λ y s. grind (arith, get-insert y id node wired, k.parent y, s, new, block_eq_iff id y))
        (count nodes) x (f.chains x h) in
    record {
      map = insert-IsMap id node wired k.map;
      chains = λ x h.
          subst (λ n. Descends next n x) (sym size)
            (elim (Bool-cases (block_eq id x)) [
              | inl same ↦
                  down h (ground (arith, get-insert x id node wired, same, parent)) (moved sp known)
              | inr other ↦
                  Descends-later next (count nodes) x
                    (moved x (ground (arith, get-insert x id node wired, k.stored x, other, h)))
            ]);
    }

prune_node-parent :
    (t : ℕ) (n : Node) → (prune_node t n).ghostdag.selected_parent ≡ n.ghostdag.selected_parent
unfolding prune_node
prune_node-parent t n = ground arith

pub prune_nodes-Kept : (t : ℕ) (nodes : Nodes) → IsMap nodes → Kept nodes (prune_nodes t nodes)
unfolding prune_nodes Map.get Map.total
prune_nodes-Kept t [] m = record { map = m; stored = λ x. refl; parent = λ x. refl; size = refl }
prune_nodes-Kept t ((y, n) ∷ nodes) (new, m) =
    let rest = prune_nodes-Kept t nodes m in
    record {
      map = (ground (arith, new, rest.stored y), rest.map);
      stored = λ x. ground (arith, rest.stored x);
      parent = λ x. ground (arith, rest.parent x, prune_node-parent t n);
      size = ground (arith, rest.size);
    }

heavier-contains :
    (nodes : Nodes) (best : BlockId) (ps : List BlockId)
    → contains (best ∷ ps) (heavier nodes best ps) ≡ true
unfolding heavier contains
heavier-contains nodes best [] = ground (arith, block_eq_iff best best)
heavier-contains nodes best (p ∷ ps) =
    ground (arith, heavier-contains nodes best ps, heavier-contains nodes p ps)

pub select_parent-contains :
    (nodes : Nodes) (ps : List BlockId) (sp : BlockId)
    → select_parent nodes ps ≡ some sp
    → contains ps sp ≡ true
unfolding select_parent
select_parent-contains nodes [] sp e = ground (arith, e)
select_parent-contains nodes (p ∷ ps) sp e = grind (arith, e, heavier-contains nodes p ps)
