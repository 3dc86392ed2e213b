-- ===== src/Dag/BlueSet.antt =====
-- The blue set that a new block gets: its selected parent's, the parent, and the blues of its
-- mergeset.
use kovanica_node.Common.{
  ℕ, suc, ◌+◌, ◌%◌, ◌^◌, ◌≤◌, ◌<◌, ◌≡◌, refl, ap, Bool, Option, none, some, List, [], ◌∷◌, ◌++◌,
  if◌then◌else◌, length, arith,
}
use kovanica_node.Common.Map
use kovanica_node.Common.Map.{Map, IsMap, get-insert, insert-IsMap, total-insert}
use kovanica_node.Dag.{BlockId, Nodes, block_eq_iff, block_key, present}
use kovanica_node.Dag.Ghostdag.{
  Sizes, Colouring, bump, paint, try_blues, try_colour_blue, colour_one, colour_all,
}
use kovanica_node.Dag.Cluster.{times, on_keys-bump, present-bump}
use kovanica_node.Dag.Colouring.{IsCluster, try_blues-Found, keys-length, extended-IsCluster}

-- One when the block is a key of the map.
unfoldable pub key_count : BlockId → Sizes → ℕ
key_count b m = if present (Map.get b m) then 1 else 0

times-snoc :
    (b x : BlockId) (xs : List BlockId) → times b (xs ++ x ∷ []) ≡ times b xs + times b (x ∷ [])
unfolding times
times-snoc b x [] = ground (arith)
times-snoc b x (y ∷ ys) = ground (arith, times-snoc b x ys)

length-snoc : (x : BlockId) (xs : List BlockId) → length (xs ++ x ∷ []) ≡ suc (length xs)
length-snoc x [] = refl
length-snoc x (y ∷ ys) = ap suc (length-snoc x ys)

pub key_count-entered :
    (b candidate : BlockId) (n : ℕ) (bs : List BlockId) (m : Sizes)
    → Map.get candidate m ≡ none
    → key_count b (bump bs (Map.insert candidate n m)) ≡ key_count b m + times b (candidate ∷ [])
unfolding key_count times
key_count-entered b candidate n bs m new = grind (
  arith,
  new,
  block_eq_iff candidate b,
  get-insert b candidate n m,
  present-bump b bs (Map.insert candidate n m),
)

module _ (k : ℕ) (nodes : Nodes) (is_ancestor : BlockId → BlockId → Bool) where
  -- What colouring a list of candidates changes.
  pub record Coloured (mergeset : List BlockId) (s t : Colouring) : Type 0 where
    pub cluster : IsCluster k nodes is_ancestor t.sizes
    pub count : length t.sizes + length s.blues ≡ length s.sizes + length t.blues
    pub keys :
        (b : BlockId)
        → key_count b t.sizes + times b s.blues ≡ key_count b s.sizes + times b t.blues
    pub split :
        (b : BlockId)
        → times b t.blues + times b t.reds ≡ times b s.blues + times b s.reds + times b mergeset
    pub red : (b : BlockId) → times b s.reds ≤ times b t.reds

  red-Coloured :
      (candidate : BlockId) (s : Colouring)
      → IsCluster k nodes is_ancestor s.sizes
      → Coloured (candidate ∷ []) s (paint candidate s none)
  unfolding paint
  red-Coloured candidate s c = record {
    cluster = c;
    count = refl;
    keys = λ b. refl;
    split = λ b. ground (arith, times-snoc b candidate s.reds);
    red = λ b. omega (arith, times-snoc b candidate s.reds);
  }

  pub entered-length :
      (candidate : BlockId) (n : ℕ) (bs : List BlockId) (m : Sizes)
      → IsMap m
      → Map.get candidate m ≡ none
      → length (bump bs (Map.insert candidate n m)) ≡ suc (length m)
  entered-length candidate n bs m h new = ground (
    arith,
    new,
    keys-length k nodes is_ancestor (bump bs (Map.insert candidate n m)),
    keys-length k nodes is_ancestor m,
    on_keys-bump (λ _. 1) bs (Map.insert candidate n m) (insert-IsMap candidate n m h),
    total-insert (λ (c : BlockId) (n : ℕ). 1) candidate n m h,
  )

  blue-Coloured :
      (candidate : BlockId) (s : Colouring) (increments : List BlockId)
      → k < 65535
      → IsCluster k nodes is_ancestor s.sizes
      → Map.get candidate s.sizes ≡ none
      → try_blues k nodes is_ancestor candidate s.sizes [] ≡ some increments
      → Coloured (candidate ∷ []) s (paint candidate s (some increments))
  unfolding paint
  blue-Coloured candidate s increments small c new e =
      let found =
        try_blues-Found k nodes is_ancestor candidate s.sizes [] increments small c.map c.bounded
          (ground (arith)) e in
      let size = length increments % 2 ^ 16 in
      record {
        cluster =
            extended-IsCluster k nodes is_ancestor candidate increments s.sizes small c new found;
        count = omega (
          arith,
          entered-length candidate size increments s.sizes c.map new,
          length-snoc candidate s.blues,
        );
        keys = λ b. omega (
          arith,
          key_count-entered b candidate size increments s.sizes new,
          times-snoc b candidate s.blues,
        );
        split = λ b. omega (arith, times-snoc b candidate s.blues);
        red = λ b. omega arith;
      }

  colour_one-Coloured :
      (candidate : BlockId) (s : Colouring)
      → k < 65535
      → IsCluster k nodes is_ancestor s.sizes
      → Map.get candidate s.sizes ≡ none
      → Coloured (candidate ∷ []) s (colour_one k nodes is_ancestor candidate s)
  unfolding colour_one try_colour_blue
  colour_one-Coloured candidate s small c new =
      go (try_blues k nodes is_ancestor candidate s.sizes []) refl
    where
      go :
          (o : Option (List BlockId))
          → try_blues k nodes is_ancestor candidate s.sizes [] ≡ o
          → Coloured (candidate ∷ []) s (paint candidate s o)
      go none e = red-Coloured candidate s c
      go (some increments) e = blue-Coloured candidate s increments small c new e

  Coloured-∷ :
      (candidate : BlockId) (mergeset : List BlockId) (s t u : Colouring)
      → Coloured (candidate ∷ []) s t
      → Coloured mergeset t u
      → Coloured (candidate ∷ mergeset) s u
  unfolding times
  Coloured-∷ candidate mergeset s t u a b = record {
    cluster = b.cluster;
    count = omega (arith, a.count, b.count);
    keys = λ x. omega (arith, a.keys x, b.keys x);
    split = λ x. ground (arith, a.split x, b.split x);
    red = λ x. omega (arith, a.red x, b.red x);
  }

  key_count-zero : (b : BlockId) (m : Sizes) → key_count b m ≡ 0 → Map.get b m ≡ none
  unfolding key_count
  key_count-zero b m h = ground (arith, h)

  pub colour_all-Coloured :
      (mergeset : List BlockId) (s : Colouring)
      → k < 65535
      → IsCluster k nodes is_ancestor s.sizes
      → ((b : BlockId) → key_count b s.sizes + times b mergeset ≤ 1)
      → Coloured mergeset s (colour_all k nodes is_ancestor mergeset s)
  unfolding colour_all
  colour_all-Coloured [] s small c fresh = record {
    cluster = c;
    count = refl;
    keys = λ b. refl;
    split = λ b. unfold times in ground (arith);
    red = λ b. omega arith;
  }
  colour_all-Coloured (candidate ∷ mergeset) s small c fresh =
      let new =
        key_count-zero candidate s.sizes
          (unfold times in ground (arith, fresh candidate, block_eq_iff candidate candidate)) in
      let first = colour_one-Coloured candidate s small c new in
      let t = colour_one k nodes is_ancestor candidate s in
      let left : (b : BlockId) → key_count b t.sizes + times b mergeset ≤ 1 =
        λ b. unfold times in ground (arith, fresh b, first.keys b, first.split b, first.red b) in
      Coloured-∷ candidate mergeset s t (colour_all k nodes is_ancestor mergeset t) first
        (colour_all-Coloured mergeset t small first.cluster left)
