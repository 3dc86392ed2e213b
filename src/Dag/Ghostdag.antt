-- ===== src/Dag/Ghostdag.antt =====
-- ghostdag.rs: colouring the mergeset of a new block.
use kovanica_node.Common.{
  ℕ, ◌+◌, ◌%◌, ◌^◌, Bool, Option, none, some, List, [], ◌∷◌, ◌++◌, ltb, if◌then◌else◌, length,
}
use kovanica_node.Common.Map
use kovanica_node.Common.Map.{Map}
use kovanica_node.Dag.{BlockId, Nodes, GhostdagData, block_key, node_at}
use kovanica_node.Dag.Mergeset.{select_parent, in_anticone, mergeset_ordered}

abbrev pub Sizes : Type 0
Sizes = Map BlockId ℕ

-- What the loop over the mergeset carries.
pub record Colouring : Type 0 where
  pub sizes : Sizes
  pub blues : List BlockId
  pub reds : List BlockId

-- `*blue_anticone_sizes.get_mut(&b).unwrap() += 1`, where `b` is a key of the map.
unfoldable pub bump_one : BlockId → Sizes → Sizes
bump_one b sizes = elim (Map.get b sizes) [
  | none ↦ sizes
  | some n ↦ Map.insert b ((n + 1) % 2 ^ 16) sizes
]

unfoldable pub bump : List BlockId → Sizes → Sizes
bump [] sizes = sizes
bump (b ∷ bs) sizes = bump bs (bump_one b sizes)

-- `match`: no increments, the candidate is red.
unfoldable pub paint : BlockId → Colouring → Option (List BlockId) → Colouring
paint candidate s none = record {
  sizes = s.sizes;
  blues = s.blues;
  reds = s.reds ++ candidate ∷ [];
}
paint candidate s (some increments) = record {
  sizes = bump increments (Map.insert candidate (length increments % 2 ^ 16) s.sizes);
  blues = s.blues ++ candidate ∷ [];
  reds = s.reds;
}

module _ (k : ℕ) (nodes : Nodes) (is_ancestor : BlockId → BlockId → Bool) where
  -- The loop over the map, with the blues that it found so far.
  unfoldable pub try_blues : BlockId → Sizes → List BlockId → Option (List BlockId)
  try_blues candidate [] found = some found
  try_blues candidate ((blue, size) ∷ rest) found =
      let skip = try_blues candidate rest found in
      let take = try_blues candidate rest (blue ∷ found) in
      if in_anticone nodes is_ancestor blue candidate
      then (if ltb k ((length found % 2 ^ 16 + 1) % 2 ^ 16)
          then none
          else if ltb k ((size + 1) % 2 ^ 16)
          then none
          else take)
      else skip

  unfoldable pub try_colour_blue : BlockId → Sizes → Option (List BlockId)
  try_colour_blue candidate sizes = try_blues candidate sizes []

  unfoldable pub colour_one : BlockId → Colouring → Colouring
  colour_one candidate s = paint candidate s (try_colour_blue candidate s.sizes)

  unfoldable pub colour_all : List BlockId → Colouring → Colouring
  colour_all [] s = s
  colour_all (candidate ∷ mergeset) s = colour_all mergeset (colour_one candidate s)

  unfoldable pub work_of : List BlockId → ℕ
  work_of [] = 0
  work_of (b ∷ bs) = (node_at nodes b).block.work + work_of bs

  unfoldable pub colour : BlockId → List BlockId → GhostdagData
  colour sp mergeset =
      let data' = (node_at nodes sp).ghostdag in
      let s =
        colour_all mergeset
          (record { sizes = Map.insert sp 0 data'.blue_anticone_sizes; blues = []; reds = [] }) in
      record {
        selected_parent = some sp;
        mergeset_blues = s.blues;
        mergeset_reds = s.reds;
        blue_score = (data'.blue_score + 1 + length s.blues) % 2 ^ 64;
        blue_work = (data'.blue_work + (node_at nodes sp).block.work + work_of s.blues) % 2 ^ 128;
        blue_anticone_sizes = s.sizes;
      }

  -- `expect` panics on a block without parents, which `insert` refuses before: `none`.
  unfoldable pub compute_ghostdag : List BlockId → Option GhostdagData
  compute_ghostdag parents = elim (select_parent nodes parents) [
    | none ↦ none
    | some sp ↦ elim (mergeset_ordered nodes is_ancestor sp parents) [
      | none ↦ none
      | some mergeset ↦ some (colour sp mergeset)
    ]
  ]
