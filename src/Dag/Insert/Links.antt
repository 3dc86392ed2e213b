-- ===== src/Dag/Insert/Links.antt =====
-- The links that an insertion maintains: what each step does to the parents and the children.
use kovanica_node.Common.{
  ◌≡◌, refl, ◌∙◌, true, false, ◌&&◌, Option, none, some, List, [], ◌∷◌, if◌then◌else◌, arith,
}
use kovanica_node.Common.Map
use kovanica_node.Common.Map.{IsMap, get-insert, insert-IsMap}
use kovanica_node.Dag.{
  BlockId, Node, Nodes, block_key, block_eq, block_eq_iff, node_at, has_block, contains,
}
use kovanica_node.Dag.Identity.{insert_id}
use kovanica_node.Dag.Store.{set_insert, set_remove}
use kovanica_node.Dag.Wiring.{add_child_to, add_child, wire, remove_tips}

abbrev pub parents_of : Nodes → BlockId → List BlockId
parents_of nodes x = (node_at nodes x).block.parents

abbrev pub children_of : Nodes → BlockId → List BlockId
children_of nodes x = (node_at nodes x).children

insert_id-contains :
    (x y : BlockId) (xs : List BlockId)
    → contains (insert_id x xs) y ≡ (if block_eq x y then true else contains xs y)
unfolding insert_id contains
insert_id-contains x y [] = refl
insert_id-contains x y (z ∷ xs) = ground (arith, insert_id-contains x y xs)

pub set_insert-contains :
    (x y : BlockId) (xs : List BlockId)
    → contains (set_insert x xs) y ≡ (if block_eq x y then true else contains xs y)
unfolding set_insert
set_insert-contains x y xs = grind (arith, insert_id-contains x y xs, block_eq_iff x y)

pub set_remove-contains :
    (x y : BlockId) (xs : List BlockId)
    → contains (set_remove x xs) y ≡ (if block_eq x y then false else contains xs y)
unfolding set_remove contains
set_remove-contains x y [] = ground arith
set_remove-contains x y (z ∷ xs) =
    grind (arith, set_remove-contains x y xs, block_eq_iff x y, block_eq_iff z x, block_eq_iff z y)

pub remove_tips-contains :
    (ps tips : List BlockId) (t : BlockId)
    → contains (remove_tips ps tips) t ≡ (if contains ps t then false else contains tips t)
unfolding remove_tips contains
remove_tips-contains [] tips t = refl
remove_tips-contains (p ∷ ps) tips t =
    ground (arith, remove_tips-contains ps (set_remove p tips) t, set_remove-contains p t tips)

-- What stays and what is added at one block.
pub record Wired (id : BlockId) (ps : List BlockId) (nodes next : Nodes) : Type 0 where
  pub map : IsMap next
  pub stored : (x : BlockId) → has_block next x ≡ has_block nodes x
  pub parents : (x : BlockId) → parents_of next x ≡ parents_of nodes x
  pub children :
      (x c : BlockId)
      → contains (children_of next x) c ≡ (
          if has_block nodes x && contains ps x && block_eq id c
          then true
          else contains (children_of nodes x) c)

module _ (id p : BlockId) (nodes : Nodes) (m : IsMap nodes) where
  missing-Wired : Map.get p nodes ≡ none → Wired id (p ∷ []) nodes nodes
  unfolding contains
  missing-Wired gone = record {
    map = m;
    stored = λ x. refl;
    parents = λ x. refl;
    children = λ x c. grind (arith, gone, block_eq_iff p x);
  }

  stored-Wired :
      (node : Node)
      → Map.get p nodes ≡ some node
      → Wired id
          (p ∷ [])
          nodes
          (Map.insert p (record node { children = set_insert id node.children }) nodes)
  unfolding contains
  stored-Wired node here =
      let next = record node { children = set_insert id node.children } in
      record {
        map = insert-IsMap p next nodes m;
        stored = λ x. grind (arith, here, block_eq_iff p x, get-insert x p next nodes);
        parents = λ x. grind (arith, here, block_eq_iff p x, get-insert x p next nodes);
        children = λ x c. grind (
          arith,
          here,
          block_eq_iff p x,
          get-insert x p next nodes,
          set_insert-contains id c node.children,
        );
      }

  add_child_to-Wired :
      (o : Option Node) → Map.get p nodes ≡ o → Wired id (p ∷ []) nodes (add_child_to id p o nodes)
  unfolding add_child_to
  add_child_to-Wired none gone = missing-Wired gone
  add_child_to-Wired (some node) here = stored-Wired node here

  add_child-Wired : Wired id (p ∷ []) nodes (add_child id p nodes)
  unfolding add_child
  add_child-Wired = add_child_to-Wired (Map.get p nodes) refl

pub wire-Wired :
    (id : BlockId) (ps : List BlockId) (nodes : Nodes)
    → IsMap nodes
    → Wired id ps nodes (wire id ps nodes)
unfolding wire contains
wire-Wired id [] nodes m = record {
  map = m;
  stored = λ x. refl;
  parents = λ x. refl;
  children = λ x c. ground arith;
}
wire-Wired id (p ∷ ps) nodes m =
    let first = add_child-Wired id p nodes m in
    let rest = wire-Wired id ps (add_child id p nodes) first.map in
    record {
      map = rest.map;
      stored = λ x. rest.stored x ∙ first.stored x;
      parents = λ x. rest.parents x ∙ first.parents x;
      children = λ x c. ground (arith, rest.children x c, first.children x c, first.stored x);
    }
