-- ===== src/Dag/Cluster.antt =====
-- The anticone sizes that the colouring keeps, against the anticones of the blue set.
use kovanica_node.Common.{
  ℕ, ◌+◌, ◌%◌, ◌^◌, ◌<◌, ◌≡◌, refl, ◌∙◌, Option, none, some, List, [], ◌∷◌, if◌then◌else◌, arith,
  Bool-cases, Option-cases, inl, inr,
}
use kovanica_node.Common.Map
use kovanica_node.Common.Map.{Map, IsMap, get-insert, insert-IsMap, total-insert}
use kovanica_node.Dag.{BlockId, block_eq, block_eq_iff, block_key, present}
use kovanica_node.Dag.Ghostdag.{Sizes, bump_one, bump}

-- How often a block stands in a list.
unfoldable pub times : BlockId → List BlockId → ℕ
times b [] = 0
times b (x ∷ xs) = (if block_eq x b then 1 else 0) + times b xs

bump_one-IsMap : (x : BlockId) (m : Sizes) → IsMap m → IsMap (bump_one x m)
unfolding bump_one
bump_one-IsMap x m h =
    elim (Map.get x m)
      as (λ (o : Option ℕ).
        IsMap (elim o [ none ↦ m | some n ↦ Map.insert x ((n + 1) % 2 ^ 16) m ])) [
          | none ↦ h
          | some n ↦ insert-IsMap x _ m h
        ]

pub bump-IsMap : (bs : List BlockId) (m : Sizes) → IsMap m → IsMap (bump bs m)
unfolding bump
bump-IsMap [] m h = h
bump-IsMap (x ∷ bs) m h = bump-IsMap bs (bump_one x m) (bump_one-IsMap x m h)

get-bump_one :
    (b x : BlockId) (m : Sizes)
    → Map.get b (bump_one x m) ≡ (
        if block_eq x b
        then elim (Map.get b m) [ none ↦ none | some n ↦ some ((n + 1) % 2 ^ 16) ]
        else Map.get b m)
unfolding bump_one
get-bump_one b x m = elim (Option-cases (Map.get x m)) [
  | inl p ↦ grind (arith, p, block_eq_iff x b)
  | inr (n, p) ↦ grind (arith, p, get-insert b x ((n + 1) % 2 ^ 16) m, block_eq_iff x b)
]

pub bump-absent :
    (b : BlockId) (bs : List BlockId) (m : Sizes)
    → Map.get b m ≡ none
    → Map.get b (bump bs m) ≡ none
unfolding bump
bump-absent b [] m h = h
bump-absent b (x ∷ bs) m h = bump-absent b bs (bump_one x m) (ground (arith, h, get-bump_one b x m))

pub bump-present :
    (b : BlockId) (bs : List BlockId) (m : Sizes) (n : ℕ)
    → Map.get b m ≡ some n
    → n + times b bs < 2 ^ 16
    → Map.get b (bump bs m) ≡ some (n + times b bs)
unfolding bump times
bump-present b [] m n h l = ground (arith, h)
bump-present b (x ∷ bs) m n h l = elim (Bool-cases (block_eq x b)) [
  | inl e ↦
      let next =
        bump-present b bs (bump_one x m) (n + 1) (ground (arith, h, e, get-bump_one b x m))
          (ground (arith, e)) in
      ground (arith, e, next)
  | inr e ↦
      let next =
        bump-present b bs (bump_one x m) n (ground (arith, h, e, get-bump_one b x m))
          (ground (arith, e)) in
      ground (arith, e, next)
]

pub present-bump :
    (b : BlockId) (bs : List BlockId) (m : Sizes)
    → present (Map.get b (bump bs m)) ≡ present (Map.get b m)
unfolding bump
present-bump b [] m = refl
present-bump b (x ∷ bs) m = present-bump b bs (bump_one x m) ∙ (elim (Option-cases (Map.get b m)) [
  | inl p ↦ grind (arith, p, get-bump_one b x m)
  | inr (n, p) ↦ grind (arith, p, get-bump_one b x m)
])

-- A sum over the keys.
module _ (f : BlockId → ℕ) where
  abbrev pub on_keys : Sizes → ℕ
  on_keys = Map.total (λ (c : BlockId) (n : ℕ). f c)

  on_keys-bump_one : (x : BlockId) (m : Sizes) → IsMap m → on_keys (bump_one x m) ≡ on_keys m
  unfolding bump_one
  on_keys-bump_one x m h = elim (Option-cases (Map.get x m)) [
    | inl p ↦ ground (arith, p)
    | inr (v, p) ↦
        ground (arith, p, total-insert (λ (c : BlockId) (n : ℕ). f c) x ((v + 1) % 2 ^ 16) m h)
  ]

  pub on_keys-bump : (bs : List BlockId) (m : Sizes) → IsMap m → on_keys (bump bs m) ≡ on_keys m
  unfolding bump
  on_keys-bump [] m h = refl
  on_keys-bump (x ∷ bs) m h =
      on_keys-bump bs (bump_one x m) (bump_one-IsMap x m h) ∙ on_keys-bump_one x m h
