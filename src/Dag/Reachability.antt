-- ===== src/Dag/Reachability.antt =====
-- reachability.rs: the interval labels of the selected-parent tree and the future-covering sets. A
-- look-up of a missing block, which panics in the source, gives a zero here. The walks up the tree
-- and the layout run on the number of blocks.
pub mod Leaf
use kovanica_node.Common.{
  ℕ, zero, suc, ◌+◌, ◌-◌, ◌*◌, ◌/◌, ◌%◌, ◌^◌, Bool, true, false, not, ◌&&◌, ◌||◌, Option, none,
  some, List, [], ◌∷◌, ◌++◌, ltb, leb, ◌==◌, if◌then◌else◌, length, min, max,
}
use kovanica_node.Common.Map
use kovanica_node.Common.Map.{Map}
use kovanica_node.Common.Words.{u64_max, saturating_add, saturating_mul}
use kovanica_node.Dag.{BlockId, block_key, block_eq, contains, present}
use kovanica_node.Dag.Identity.{insert_id}
use kovanica_node.Dag.Store.{Oracle}

abbrev pub root_capacity : ℕ
root_capacity = 9223372036854775807

abbrev pub child_reserve : ℕ
child_reserve = 1099511627776

pub record Reachability : Type 0 where
  pub intervals : Map BlockId (ℕ × ℕ)
  pub fcs : Map BlockId (List BlockId)
  pub tree_children : Map BlockId (List BlockId)
  pub tree_parent : Map BlockId BlockId
  pub subtree_size : Map BlockId ℕ
  pub next_free : Map BlockId ℕ
  pub reindexes : ℕ
  pub relayout_touches : ℕ

abbrev number_or : Option ℕ → ℕ
number_or none = 0
number_or (some n) = n

abbrev pub interval_or : Option (ℕ × ℕ) → ℕ × ℕ
interval_or none = (0, 0)
interval_or (some interval) = interval

abbrev pub list_or : Option (List BlockId) → List BlockId
list_or none = []
list_or (some ids) = ids

abbrev pub interval_at : Reachability → BlockId → ℕ × ℕ
interval_at r x = interval_or (Map.get x r.intervals)

abbrev pub size_at : Reachability → BlockId → ℕ
size_at r x = number_or (Map.get x r.subtree_size)

abbrev pub free_at : Reachability → BlockId → ℕ
free_at r x = number_or (Map.get x r.next_free)

abbrev pub children_at : Reachability → BlockId → List BlockId
children_at r x = list_or (Map.get x r.tree_children)

-- The loop over the children in `relayout_subtree`: the stack, and the cursor afterwards.
unfoldable pub place_children :
    Reachability
    → ℕ
    → ℕ
    → List BlockId
    → ℕ
    → List (BlockId × (ℕ × ℕ))
    → List (BlockId × (ℕ × ℕ)) × ℕ
place_children r slack total [] cursor stack = (stack, cursor)
place_children r slack total (child ∷ children) cursor stack =
    let sz = size_at r child in
    let span = min (sz + slack * sz / total % 2 ^ 64) (max child_reserve sz) in
    place_children r slack total children (cursor + (span - 1) + 1)
      ((child, (cursor, cursor + (span - 1))) ∷ stack)

unfoldable pub relayout : ℕ → List (BlockId × (ℕ × ℕ)) → Reachability → Reachability
relayout zero stack r = r
relayout (suc fuel) [] r = r
relayout (suc fuel) ((node, (lo, hi)) ∷ stack) r =
    let total = size_at r node - 1 in
    let (next, cursor) =
      if total == 0
      then (stack, lo + 1)
      else place_children r (hi - lo - total) total (children_at r node) (lo + 1) stack in
    relayout fuel next (record r {
      intervals = Map.insert node (lo, hi) r.intervals;
      next_free = Map.insert node cursor r.next_free;
    })

unfoldable pub relayout_subtree : BlockId → ℕ → ℕ → Reachability → Reachability
relayout_subtree root lo hi r = relayout (suc (length r.subtree_size)) ((root, (lo, hi)) ∷ []) r

unfoldable pub relayout_anchor : BlockId → Reachability → Reachability
relayout_anchor anchor r =
    let (lo, hi) = interval_at r anchor in
    relayout_subtree anchor lo hi (record r {
      reindexes = r.reindexes + 1;
      relayout_touches = r.relayout_touches + size_at r anchor;
    })

unfoldable pub reindex : ℕ → BlockId → Reachability → Reachability
reindex zero anchor r = r
reindex (suc fuel) anchor r = elim (Map.get anchor r.tree_parent) [
  | none ↦ relayout_anchor anchor r
  | some parent ↦
      let (lo, hi) = interval_at r anchor in
      elim (leb (saturating_mul u64_max (size_at r anchor) 2) (hi - lo + 1)) [
        | true ↦ relayout_anchor anchor r
        | false ↦ reindex fuel parent r
      ]
]

-- The new leaf is counted in every tree-ancestor.
unfoldable pub bump_sizes : ℕ → BlockId → Reachability → Reachability
bump_sizes zero x r = r
bump_sizes (suc fuel) x r =
    let bumped = record r { subtree_size = Map.insert x (size_at r x + 1) r.subtree_size } in
    elim (Map.get x r.tree_parent) [ none ↦ bumped | some parent ↦ bump_sizes fuel parent bumped ]

unfoldable pub register : BlockId → BlockId → Reachability → Reachability
register id parent r =
    let children = Map.insert parent (insert_id id (children_at r parent)) r.tree_children in
    bump_sizes (suc (length r.subtree_size)) parent (record r {
      tree_children = Map.insert id (list_or (Map.get id children)) children;
      tree_parent = Map.insert id parent r.tree_parent;
      subtree_size = Map.insert id 1 r.subtree_size;
    })

-- The last label of a new child, in what its parent has left.
unfoldable pub child_end : ℕ → ℕ → ℕ
child_end rem_lo p_end =
    min (rem_lo + (p_end - rem_lo) / 2) (saturating_add u64_max rem_lo (child_reserve - 1))

unfoldable pub allocate : BlockId → BlockId → Reachability → Reachability
allocate id parent r =
    let p_end = (interval_at r parent).1 in
    let rem_lo = free_at r parent in
    if leb rem_lo p_end
    then record r {
      intervals = Map.insert id (rem_lo, child_end rem_lo p_end) r.intervals;
      next_free =
          Map.insert parent (child_end rem_lo p_end + 1) (Map.insert id (rem_lo + 1) r.next_free);
    }
    else reindex (suc (length r.subtree_size)) parent (record r {
      intervals = Map.insert id (rem_lo, rem_lo) r.intervals;
      next_free = Map.insert id rem_lo r.next_free;
    })

-- Whether the first interval has the second in it.
unfoldable pub covers : Reachability → BlockId → BlockId → Bool
covers r x y =
    leb (interval_at r x).0 (interval_at r y).0 && leb (interval_at r y).1 (interval_at r x).1

-- The entries from the first one on that the block does not cover.
unfoldable pub drop_covered : Reachability → BlockId → List BlockId → List BlockId
drop_covered r b [] = []
drop_covered r b (c ∷ set) =
    let rest = drop_covered r b set in if covers r b c then rest else c ∷ set

abbrev pub covered_by : Reachability → Option BlockId → BlockId → Bool
covered_by r none b = false
covered_by r (some c) b = covers r c b

-- The set in the order of its starts, after the entry that was passed last.
unfoldable pub put_cover : Reachability → BlockId → Option BlockId → List BlockId → List BlockId
put_cover r b last [] = if covered_by r last b then [] else b ∷ []
put_cover r b last (c ∷ set) =
    let later = c ∷ put_cover r b (some c) set in
    if leb (interval_at r c).0 (interval_at r b).0
    then later
    else if covered_by r last b
    then c ∷ set
    else b ∷ drop_covered r b (c ∷ set)

unfoldable pub insert_to_future_covering_set : BlockId → BlockId → Reachability → Reachability
insert_to_future_covering_set a b r = record r {
  fcs = Map.insert a (put_cover r b none (list_or (Map.get a r.fcs))) r.fcs;
}

unfoldable pub cover_merged : BlockId → List BlockId → Reachability → Reachability
cover_merged id [] r = r
cover_merged id (merged ∷ mergeset) r =
    cover_merged id mergeset (insert_to_future_covering_set merged id r)

unfoldable pub add_block : BlockId → BlockId → List BlockId → Reachability → Reachability
add_block id parent mergeset r =
    cover_merged id mergeset (allocate id parent (register id parent r))

abbrev pub holds : ℕ → Option (ℕ × ℕ) → Bool
holds start none = false
holds start (some (lo, hi)) = leb lo start && leb start hi

unfoldable pub tree_reaches : Reachability → BlockId → BlockId → Bool
tree_reaches r x y = elim (Map.get y r.intervals) [
  | none ↦ false
  | some (lo, hi) ↦ holds lo (Map.get x r.intervals)
]

unfoldable pub is_chain_ancestor : Reachability → BlockId → BlockId → Bool
is_chain_ancestor r x y = not (block_eq x y) && tree_reaches r x y

unfoldable pub any_reaches : Reachability → List BlockId → BlockId → Bool
any_reaches r [] y = false
any_reaches r (c ∷ set) y = if tree_reaches r c y then true else any_reaches r set y

unfoldable pub is_ancestor : Reachability → BlockId → BlockId → Bool
is_ancestor r x y =
    if block_eq x y
    then false
    else if tree_reaches r x y
    then true
    else any_reaches r (list_or (Map.get x r.fcs)) y

-- What `build` gives for a store of one block.
unfoldable pub build_genesis : BlockId → Reachability
build_genesis genesis = relayout_subtree genesis 1 root_capacity (record {
  intervals = [];
  fcs = [];
  tree_children = (genesis, []) ∷ [];
  tree_parent = [];
  subtree_size = (genesis, 1) ∷ [];
  next_free = [];
  reindexes = 0;
  relayout_touches = 0;
})

unfoldable pub kept_children : List BlockId → List BlockId → List BlockId
kept_children evicted [] = []
kept_children evicted (c ∷ children) =
    let rest = kept_children evicted children in if contains evicted c then rest else c ∷ rest

unfoldable pub to_reparent : Reachability → List BlockId → List BlockId → List BlockId
to_reparent r evicted [] = []
to_reparent r evicted (id ∷ ids) =
    kept_children evicted (children_at r id) ++ to_reparent r evicted ids

unfoldable pub forget : List BlockId → Reachability → Reachability
forget [] r = r
forget (id ∷ evicted) r = forget evicted (record r {
  intervals = Map.remove id r.intervals;
  fcs = Map.remove id r.fcs;
  tree_children = Map.remove id r.tree_children;
  tree_parent = Map.remove id r.tree_parent;
  subtree_size = Map.remove id r.subtree_size;
  next_free = Map.remove id r.next_free;
})

unfoldable pub adopt : BlockId → List BlockId → Reachability → Reachability
adopt genesis [] r = r
adopt genesis (child ∷ children) r = adopt genesis children (record r {
  tree_children = Map.insert genesis (insert_id child (children_at r genesis)) r.tree_children;
  tree_parent = Map.insert child genesis r.tree_parent;
})

unfoldable pub remove_blocks : BlockId → List BlockId → Reachability → Reachability
remove_blocks genesis evicted r =
    let next = adopt genesis (to_reparent r evicted evicted) (forget evicted r) in
    elim (Map.get genesis next.subtree_size) [
      | none ↦ next
      | some size ↦ record next {
        subtree_size = Map.insert genesis (size - length evicted) next.subtree_size;
      }
    ]

-- What the store calls.
abbrev pub reachability : Oracle Reachability
reachability = record {
  build = build_genesis;
  is_ancestor = is_ancestor;
  add_block = add_block;
  remove_blocks = remove_blocks;
}
