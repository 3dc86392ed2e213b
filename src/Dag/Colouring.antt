-- ===== src/Dag/Colouring.antt =====
-- One candidate of the mergeset, and all of them, against the cluster that they extend.
use kovanica_node.Common.{
  ℕ, ◌+◌, ◌%◌, ◌^◌, ◌≤◌, ◌<◌, ◌≡◌, refl, ◌∙◌, subst, Bool, true, false, none, some, List, [], ◌∷◌,
  if◌then◌else◌, length, arith, Bool-cases, Option-cases, inl, inr,
}
use kovanica_node.Common.Map
use kovanica_node.Common.Map.{Map, IsMap, get-insert, insert-IsMap, total-insert}
use kovanica_node.Dag.{BlockId, Nodes, block_eq, block_eq_iff, block_key, present}
use kovanica_node.Dag.Mergeset.{in_anticone}
use kovanica_node.Dag.Ghostdag.{Sizes, bump, try_blues}
use kovanica_node.Dag.Cluster.{times, bump-IsMap, bump-absent, bump-present, on_keys, on_keys-bump}

module _ (k : ℕ) (nodes : Nodes) (is_ancestor : BlockId → BlockId → Bool) where
  abbrev pub anti : BlockId → BlockId → ℕ
  anti a b = if in_anticone nodes is_ancestor a b then 1 else 0

  pub in_anticone_sym :
      (a b : BlockId) → in_anticone nodes is_ancestor a b ≡ in_anticone nodes is_ancestor b a
  unfolding in_anticone
  in_anticone_sym a b = grind (arith, block_eq_iff a b, block_eq_iff b a)

  pub in_anticone_irrefl : (a : BlockId) → in_anticone nodes is_ancestor a a ≡ false
  unfolding in_anticone
  in_anticone_irrefl a = grind (arith, block_eq_iff a a)

  -- The blues of the map in the anticone of a block.
  unfoldable pub anticone_size : BlockId → Sizes → ℕ
  anticone_size b = on_keys (λ c. anti c b)

  -- Every entry is the size of the block's anticone in the map, and at most k.
  pub record IsCluster (m : Sizes) : Type 0 where
    pub map : IsMap m
    pub exact : (b : BlockId) (n : ℕ) → Map.get b m ≡ some n → n ≡ anticone_size b m
    pub bounded : (b : BlockId) (n : ℕ) → Map.get b m ≡ some n → n ≤ k

  pub record Found (candidate : BlockId) (rest : Sizes) (found increments : List BlockId)
      : Type 0 where
    pub size : length increments ≡ length found + anticone_size candidate rest
    pub short : length increments ≤ k
    pub each :
        (b : BlockId)
        → times b increments
          ≡ times b found + (if present (Map.get b rest) then anti b candidate else 0)
    pub room :
        (b : BlockId) (n : ℕ)
        → Map.get b rest ≡ some n
        → in_anticone nodes is_ancestor b candidate ≡ true
        → n + 1 ≤ k

  pub try_blues-Found :
      (candidate : BlockId) (rest : Sizes) (found increments : List BlockId)
      → k < 65535
      → IsMap rest
      → ((b : BlockId) (n : ℕ) → Map.get b rest ≡ some n → n ≤ k)
      → length found ≤ k
      → try_blues k nodes is_ancestor candidate rest found ≡ some increments
      → Found candidate rest found increments
  unfolding try_blues anticone_size times Map.total Map.get
  try_blues-Found candidate [] found increments small m le l e = record {
    size = ground (arith, e);
    short = ground (arith, e);
    each = λ b. ground (arith, e);
    room = λ b n p q. ground (arith, p);
  }
  try_blues-Found candidate ((blue, v) ∷ rest) found increments small (new, m) le l e =
      let v_le : v ≤ k = le blue v (ground (arith, block_eq_iff blue blue)) in
      let tail_le : (b : BlockId) (n : ℕ) → Map.get b rest ≡ some n → n ≤ k =
        λ b n p. le b n (ground (arith, p, new, block_eq_iff blue b)) in
      elim (Bool-cases (in_anticone nodes is_ancestor blue candidate)) [
        | inl anti_blue ↦
            let ih =
              try_blues-Found candidate rest (blue ∷ found) increments small m tail_le
                (ground (arith, e, anti_blue)) (ground (arith, e, anti_blue)) in
            record {
              size = ground (arith, ih.size, anti_blue);
              short = ih.short;
              each = λ b. grind (arith, ih.each b, new, anti_blue, block_eq_iff blue b);
              room = λ b n p q. grind (arith, ih.room b n, v_le, p, q, e, anti_blue);
            }
        | inr related ↦
            let ih =
              try_blues-Found candidate rest found increments small m tail_le l
                (ground (arith, e, related)) in
            record {
              size = ground (arith, ih.size, related);
              short = ih.short;
              each = λ b. grind (arith, ih.each b, new, related, block_eq_iff blue b);
              room = λ b n p q. grind (arith, ih.room b n, p, q, related, block_eq_iff blue b);
            }
      ]

  pub keys-length : (m : Sizes) → on_keys (λ _. 1) m ≡ length m
  unfolding Map.total
  keys-length [] = refl
  keys-length ((b, n) ∷ m) = ground (arith, keys-length m)

  module _ (candidate : BlockId) (increments : List BlockId) (m : Sizes) (small : k < 65535)
      (c : IsCluster m) (new : Map.get candidate m ≡ none)
      (f : Found candidate m [] increments) where
    abbrev pub entered : Sizes
    entered = Map.insert candidate (length increments % 2 ^ 16) m

    extended-size :
        (b : BlockId)
        → anticone_size b (bump increments entered) ≡ anticone_size b m + anti candidate b
    unfolding anticone_size
    extended-size b =
        on_keys-bump (λ c. anti c b) increments entered (insert-IsMap candidate _ m c.map)
        ∙ ground (
          arith,
          new,
          total-insert (λ (c : BlockId) (n : ℕ). anti c b) candidate (length increments % 2 ^ 16) m
              c.map,
        )

    entered-candidate :
        (n : ℕ)
        → Map.get candidate (bump increments entered) ≡ some n
        → (n ≡ anticone_size candidate m + anti candidate candidate) × (n ≤ k)
    unfolding times
    entered-candidate n e =
        let none_times : times candidate increments ≡ 0 = ground (arith, f.each candidate, new) in
        let there : Map.get candidate (Map.insert candidate (length increments % 2 ^ 16) m)
            ≡ some (length increments) =
          ground (
            arith,
            f.short,
            small,
            block_eq_iff candidate candidate,
            get-insert candidate candidate (length increments % 2 ^ 16) m,
          ) in
        let end =
          bump-present candidate increments (Map.insert candidate (length increments % 2 ^ 16) m)
            (length increments) there (omega (arith, f.short, small, none_times)) in
        ground (arith, e, end, none_times, f.size, f.short, in_anticone_irrefl candidate)

    entered-other :
        (b : BlockId) (n : ℕ)
        → block_eq candidate b ≡ false
        → Map.get b (bump increments entered) ≡ some n
        → (n ≡ anticone_size b m + anti candidate b) × (n ≤ k)
    unfolding times
    entered-other b n other e = elim (Option-cases (Map.get b m)) [
      | inl absent ↦ ground (
        arith,
        e,
        bump-absent b increments (Map.insert candidate (length increments % 2 ^ 16) m)
            (ground (arith, absent, other, get-insert b candidate (length increments % 2 ^ 16) m)),
      )
      | inr (v, p) ↦
          let here : times b increments ≡ anti b candidate = ground (arith, f.each b, p) in
          let fits : v + times b increments ≤ k =
            ground (arith, here, f.room b v p, c.bounded b v p) in
          let end =
            bump-present b increments (Map.insert candidate (length increments % 2 ^ 16) m) v
              (ground (arith, p, other, get-insert b candidate (length increments % 2 ^ 16) m))
              (omega (arith, fits, small)) in
          ground (arith, e, end, here, fits, c.exact b v p, in_anticone_sym b candidate)
    ]

    entered-entry :
        (b : BlockId) (n : ℕ)
        → Map.get b (bump increments entered) ≡ some n
        → (n ≡ anticone_size b m + anti candidate b) × (n ≤ k)
    entered-entry b n e = elim (Bool-cases (block_eq candidate b)) [
      | inl same ↦
          subst
            (λ x.
              Map.get x (bump increments entered) ≡ some n
              → (n ≡ anticone_size x m + anti candidate x) × (n ≤ k))
            ((block_eq_iff candidate b).0 same) (entered-candidate n) e
      | inr other ↦ entered-other b n other e
    ]

    pub extended-IsCluster : IsCluster (bump increments entered)
    extended-IsCluster = record {
      map = bump-IsMap increments entered (insert-IsMap candidate _ m c.map);
      exact = λ b n e. omega (arith, entered-entry b n e, extended-size b);
      bounded = λ b n e. (entered-entry b n e).1;
    }
