-- ===== src/Dag/Insert/Downward.antt =====
-- The walks down a selected-parent chain that ends.
use kovanica_node.Common.{
  ℕ, zero, suc, ◌≡◌, refl, true, none, some, List, [], ◌∷◌, ok, ltb, if◌then◌else◌, arith,
  Bool-cases, Option-cases, inl, inr,
}
use kovanica_node.Common.Map
use kovanica_node.Common.Map.{IsMap, get-insert, insert-IsMap, total-insert}
use kovanica_node.Dag.{BlockId, Nodes, block_key, has_block}
use kovanica_node.Dag.Difficulty.{TimedWork}
use kovanica_node.Dag.Store.{newest_samples, lowest_at}
use kovanica_node.Dag.Wiring.{boundary_below}
use kovanica_node.Dag.Insert.Founded.{Descends, ends, down}

pub boundary_below-stored :
    (nodes : Nodes) (threshold fuel : ℕ) (genesis x : BlockId)
    → has_block nodes genesis ≡ true
    → Descends nodes fuel x
    → (b : BlockId) × ((boundary_below nodes threshold fuel genesis (some x) ≡ ok b)
        × (has_block nodes b ≡ true))
unfolding boundary_below
boundary_below-stored nodes threshold _ genesis x g (ends {n = n} h e) =
    elim (Option-cases (Map.get x nodes)) [
      | inl gone ↦ ground (arith, h, gone)
      | inr (node, here) ↦ elim (Bool-cases (ltb node.ghostdag.blue_score threshold)) [
        | inl low ↦ (x, (ground (arith, here, low), h))
        | inr high ↦ (genesis, (ground (arith, here, high, e), g))
      ]
    ]
boundary_below-stored nodes threshold _ genesis x g (down {n = n} {p = p} h e d) =
    elim (Option-cases (Map.get x nodes)) [
      | inl gone ↦ ground (arith, h, gone)
      | inr (node, here) ↦ elim (Bool-cases (ltb node.ghostdag.blue_score threshold)) [
        | inl low ↦ (x, (ground (arith, here, low), h))
        | inr high ↦
            let (b, (r, s)) = boundary_below-stored nodes threshold n genesis p g d in
            (b, (ground (arith, here, high, e, r), s))
      ]
    ]

pub lowest_at-some :
    (nodes : Nodes) (threshold fuel : ℕ) (point x : BlockId)
    → Descends nodes fuel x
    → (b : BlockId) × (lowest_at nodes threshold fuel point (some x) ≡ some b)
unfolding lowest_at
lowest_at-some nodes threshold _ point x (ends {n = n} h e) =
    elim (Option-cases (Map.get x nodes)) [
      | inl gone ↦ (point, ground (arith, gone))
      | inr (node, here) ↦
          (if ltb node.ghostdag.blue_score threshold then point else x, ground (arith, here, e))
    ]
lowest_at-some nodes threshold _ point x (down {n = n} {p = p} h e d) =
    elim (Option-cases (Map.get x nodes)) [
      | inl gone ↦ (point, ground (arith, gone))
      | inr (node, here) ↦
          let next = if ltb node.ghostdag.blue_score threshold then point else x in
          let (b, r) = lowest_at-some nodes threshold n next p d in (b, ground (arith, here, e, r))
    ]

newest_samples_end : (nodes : Nodes) (left : ℕ) → newest_samples nodes left none ≡ some []
unfolding newest_samples
newest_samples_end nodes zero = refl
newest_samples_end nodes (suc left) = refl

pub newest_samples-some :
    (nodes : Nodes) (left n : ℕ) (x : BlockId)
    → Descends nodes n x
    → (samples : List TimedWork) × (newest_samples nodes left (some x) ≡ some samples)
unfolding newest_samples
newest_samples-some nodes zero _ x d = ([], refl)
newest_samples-some nodes (suc left) _ x (ends h e) = elim (Option-cases (Map.get x nodes)) [
  | inl gone ↦ ground (arith, h, gone)
  | inr (node, here) ↦ (
    record { timestamp_ms = node.block.timestamp_ms; work = node.block.work } ∷ [],
    ground (arith, here, e, newest_samples_end nodes left),
  )
]
newest_samples-some nodes (suc left) _ x (down {n = n} {p = p} h e d) =
    elim (Option-cases (Map.get x nodes)) [
      | inl gone ↦ ground (arith, h, gone)
      | inr (node, here) ↦
          let (older, r) = newest_samples-some nodes left n p d in
          (
            record { timestamp_ms = node.block.timestamp_ms; work = node.block.work } ∷ older,
            ground (arith, here, e, r),
          )
    ]
