-- ===== src/Dag/Reachability/Leaf.antt =====
-- A block that its parent has room for is a new leaf of the interval tree.
use kovanica_node.Common.{
  ℕ, zero, suc, ◌+◌, ◌≤◌, ◌<◌, ◌≡◌, ◌≢◌, refl, sym, ap, ◌∙◌, Bool, true, false, ◌&&◌, Option, none,
  some, List, [], ◌∷◌, leb, if◌then◌else◌, length, ◌⊎◌, inl, inr, Option-cases, Bool-cases, arith,
}
use kovanica_node.Common.Map
use kovanica_node.Common.Map.{Map, get-insert, beq_refl}
use kovanica_node.Common.Words.{u64_max}
use kovanica_node.Dag.{BlockId, block_key, block_eq, block_eq_iff}
use kovanica_node.Dag.Reachability.{
  Reachability, size_at, child_end, bump_sizes, register, allocate, insert_to_future_covering_set,
  cover_merged, add_block, holds, tree_reaches,
}

-- How the interval of `y` lies to that of `x`, of whose labels those from `free` on are left.
pub data Lies (lo hi free : ℕ) (lo' hi' : ℕ) : Type 0 where
  inside : lo < lo' → hi' < free → Lies lo hi free lo' hi'
  around : lo' < lo → hi ≤ hi' → Lies lo hi free lo' hi'
  left_of : hi < lo' → Lies lo hi free lo' hi'
  right_of : hi' < lo → Lies lo hi free lo' hi'

-- The intervals are those of a tree: each has its block's label and room for its children, and two of
-- them are nested or apart, with none in what is left of another.
pub record IsLaminar (intervals : Map BlockId (ℕ × ℕ)) (next_free : Map BlockId ℕ) : Type 0 where
  pub room :
      (x : BlockId) (lo hi : ℕ)
      → Map.get x intervals ≡ some (lo, hi)
      → (free : ℕ) × (Map.get x next_free ≡ some free)
        × (lo < free)
        × (free ≤ hi + 1)
        × (hi ≤ u64_max)
  pub apart :
      (x y : BlockId) (lo hi free lo' hi' : ℕ)
      → x ≢ y
      → Map.get x intervals ≡ some (lo, hi)
      → Map.get x next_free ≡ some free
      → Map.get y intervals ≡ some (lo', hi')
      → Lies lo hi free lo' hi'

reaches : Map BlockId (ℕ × ℕ) → BlockId → BlockId → Bool
reaches intervals x y = elim (Map.get y intervals) [
  | none ↦ false
  | some (lo, hi) ↦ holds lo (Map.get x intervals)
]

tree_reaches-intervals :
    (r : Reachability) (x y : BlockId) → tree_reaches r x y ≡ reaches r.intervals x y
unfolding tree_reaches reaches
tree_reaches-intervals r x y = refl

child_end_bounds :
    (rem_lo p_end : ℕ)
    → rem_lo ≤ p_end
    → p_end ≤ u64_max
    → (rem_lo ≤ child_end rem_lo p_end) × (child_end rem_lo p_end ≤ p_end)
unfolding child_end
child_end_bounds rem_lo p_end l m = grind arith

module _ (n p : BlockId) (plo phi f e : ℕ) (iv : Map BlockId (ℕ × ℕ)) (nf : Map BlockId ℕ)
    (lam : IsLaminar iv nf) (fresh : Map.get n iv ≡ none) (at_p : Map.get p iv ≡ some (plo, phi))
    (free_p : Map.get p nf ≡ some f) (low : f ≤ e) (high : e ≤ phi) where
  abbrev iv' : Map BlockId (ℕ × ℕ)
  iv' = Map.insert n (f, e) iv

  abbrev nf' : Map BlockId ℕ
  nf' = Map.insert p (e + 1) (Map.insert n (f + 1) nf)

  p-ne-n : p ≢ n
  p-ne-n q = none-ne (sym fresh ∙ ap (λ x. Map.get x iv) (sym q) ∙ at_p)
    where
      none-ne : ◌≢◌ {A = Option (ℕ × ℕ)} none (some (plo, phi))
      none-ne e = cc

  p-room : (plo < f) × (phi ≤ u64_max)
  p-room =
      let (g, at_g, a, b, c) = lam.room p plo phi at_p in
      let same : g ≡ f = ground (arith, at_g, free_p) in (omega (arith, same, a), c)

  -- What an entry of the new maps is.
  get-iv' :
      (x : BlockId) (lo hi : ℕ)
      → Map.get x iv' ≡ some (lo, hi)
      → ((x ≡ n) × (lo ≡ f) × (hi ≡ e)) ⊎ ((x ≢ n) × (Map.get x iv ≡ some (lo, hi)))
  get-iv' x lo hi h = elim (Bool-cases (block_eq n x)) [
    | inl same ↦ inl (
      sym ((block_eq_iff n x).0 same),
      ground (arith, same, h, get-insert x n (f, e) iv),
      ground (arith, same, h, get-insert x n (f, e) iv),
    )
    | inr other ↦ inr (
      λ q. ground (arith, other, (block_eq_iff n x).1 (sym q)),
      ground (arith, other, h, get-insert x n (f, e) iv),
    )
  ]

  get-nf' :
      (x : BlockId)
      → Map.get x nf' ≡ (
          if block_eq p x
          then some (e + 1)
          else if block_eq n x
          then some (f + 1)
          else Map.get x nf)
  get-nf' x =
      ground (arith, get-insert x p (e + 1) (Map.insert n (f + 1) nf), get-insert x n (f + 1) nf)

  ordered : (x : BlockId) (lo hi : ℕ) → Map.get x iv ≡ some (lo, hi) → lo ≤ hi
  ordered x lo hi h = let (free, g, a, b, c) = lam.room x lo hi h in omega (arith, a, b)

  -- From the new leaf to another block.
  from-n : (y : BlockId) (lo hi : ℕ) → Map.get y iv ≡ some (lo, hi) → Lies f e (f + 1) lo hi
  from-n y lo hi h = elim (Bool-cases (block_eq p y)) [
    | inl same ↦
        let q = (block_eq_iff p y).0 same in
        let l : lo ≡ plo = ground (arith, q, h, at_p) in
        let m : hi ≡ phi = ground (arith, q, h, at_p) in
        around (omega (arith, l, p-room.0)) (omega (arith, m, high))
    | inr other ↦ go (
        lam.apart p y plo phi f lo hi (λ q. ground (arith, other, (block_eq_iff p y).1 q)) at_p
          free_p h)
  ]
    where
      go : Lies plo phi f lo hi → Lies f e (f + 1) lo hi
      go (inside a b) = right_of (omega (arith, b))
      go (around a b) = around (omega (arith, a, p-room.0)) (omega (arith, b, high))
      go (left_of a) = left_of (omega (arith, a, high))
      go (right_of a) = right_of (omega (arith, a, p-room.0))

  -- From another block to the new leaf: as to its parent.
  to-n :
      (x : BlockId) (lo hi free : ℕ)
      → x ≢ p
      → Map.get x iv ≡ some (lo, hi)
      → Map.get x nf ≡ some free
      → Lies lo hi free f e
  to-n x lo hi free d h g =
      go (lam.apart x p lo hi free plo phi d h g at_p)
        (lam.apart p x plo phi f lo hi (λ q. d (sym q)) at_p free_p h)
    where
      go : Lies lo hi free plo phi → Lies plo phi f lo hi → Lies lo hi free f e
      go (inside a b) _ = inside (omega (arith, a, p-room.0)) (omega (arith, b, high))
      go (around a b) (inside c k) = left_of k
      go (around a b) (around c k) = absurd (omega (arith, a, c))
      go (around a b) (left_of c) = absurd (omega (arith, b, c, ordered x lo hi h))
      go (around a b) (right_of c) = absurd (omega (arith, a, c, ordered x lo hi h))
      go (left_of a) _ = left_of (omega (arith, a, p-room.0))
      go (right_of a) _ = right_of (omega (arith, a, high))

  more-free : (lo hi : ℕ) → Lies plo phi f lo hi → Lies plo phi (e + 1) lo hi
  more-free lo hi (inside a b) = inside a (omega (arith, b, low))
  more-free lo hi (around a b) = around a b
  more-free lo hi (left_of a) = left_of a
  more-free lo hi (right_of a) = right_of a

  -- What is left of an entry of the new maps.
  free-of :
      (x : BlockId) (free : ℕ)
      → Map.get x nf' ≡ some free
      → ((x ≡ p) × (free ≡ e + 1))
        ⊎ ((x ≢ p) × (((x ≡ n) × (free ≡ f + 1)) ⊎ ((x ≢ n) × (Map.get x nf ≡ some free))))
  free-of x free g = elim (Bool-cases (block_eq p x)) [
    | inl same ↦ inl (sym ((block_eq_iff p x).0 same), ground (arith, same, g, get-nf' x))
    | inr other ↦ inr (
      λ q. ground (arith, other, (block_eq_iff p x).1 (sym q)),
      elim (Bool-cases (block_eq n x)) [
        | inl new ↦ inl (sym ((block_eq_iff n x).0 new), ground (arith, other, new, g, get-nf' x))
        | inr old ↦ inr (
          λ q. ground (arith, old, (block_eq_iff n x).1 (sym q)),
          ground (arith, other, old, g, get-nf' x),
        )
      ],
    )
  ]

  leaf-apart :
      (x y : BlockId) (lo hi free lo' hi' : ℕ)
      → x ≢ y
      → Map.get x iv' ≡ some (lo, hi)
      → Map.get x nf' ≡ some free
      → Map.get y iv' ≡ some (lo', hi')
      → Lies lo hi free lo' hi'
  leaf-apart x y lo hi free lo' hi' d h g k = elim (get-iv' x lo hi h) [
    | inl (xn, l, m) ↦ elim (get-iv' y lo' hi' k) [
      | inl (yn, _, _) ↦ absurd (d (xn ∙ sym yn))
      | inr (_, ky) ↦ elim (free-of x free g) [
        | inl (xp, _) ↦ absurd (p-ne-n (sym xp ∙ xn))
        | inr (_, c) ↦ elim c [
          | inl (_, fr) ↦ rw (l, m, fr) (from-n y lo' hi' ky)
          | inr (o, _) ↦ absurd (o xn)
        ]
      ]
    ]
    | inr (xo, hx) ↦ elim (free-of x free g) [
      | inl (xp, fr) ↦
          let l : lo ≡ plo = ground (arith, xp, hx, at_p) in
          let m : hi ≡ phi = ground (arith, xp, hx, at_p) in
          elim (get-iv' y lo' hi' k) [
            | inl (_, l', m') ↦ rw (l, m, fr, l', m') (inside (p-room.0) (omega arith))
            | inr (_, ky) ↦
                rw (l, m, fr)
                  (more-free lo' hi'
                    (lam.apart p y plo phi f lo' hi' (λ q. d (xp ∙ q)) at_p free_p ky))
          ]
      | inr (np, c) ↦ elim c [
        | inl (xn, _) ↦ absurd (xo xn)
        | inr (_, gx) ↦ elim (get-iv' y lo' hi' k) [
          | inl (_, l', m') ↦ rw (l', m') (to-n x lo hi free np hx gx)
          | inr (_, ky) ↦ lam.apart x y lo hi free lo' hi' d hx gx ky
        ]
      ]
    ]
  ]

  leaf-room :
      (x : BlockId) (lo hi : ℕ)
      → Map.get x iv' ≡ some (lo, hi)
      → (free : ℕ) × (Map.get x nf' ≡ some free) × (lo < free) × (free ≤ hi + 1) × (hi ≤ u64_max)
  leaf-room x lo hi h = elim (get-iv' x lo hi h) [
    | inl (xn, l, m) ↦ (
      f + 1,
      rw xn (get-nf' n ∙ ground (arith, p-ne-n, block_eq_iff p n, beq_refl n)),
      omega (arith, l),
      omega (arith, m, low),
      omega (arith, m, high, p-room.1),
    )
    | inr (xo, hx) ↦ elim (Bool-cases (block_eq p x)) [
      | inl same ↦
          let q = (block_eq_iff p x).0 same in
          let l : lo ≡ plo = ground (arith, q, hx, at_p) in
          let m : hi ≡ phi = ground (arith, q, hx, at_p) in
          (
            e + 1,
            ground (arith, same, get-nf' x),
            omega (arith, l, low, p-room.0),
            omega (arith, m, high),
            omega (arith, m, p-room.1),
          )
      | inr other ↦
          let (free, g, a, b, c) = lam.room x lo hi hx in
          (free, ground (arith, other, g, xo, block_eq_iff n x, get-nf' x), a, b, c)
    ]
  ]

  leaf-IsLaminar : IsLaminar iv' nf'
  leaf-IsLaminar = record { room = leaf-room; apart = leaf-apart }

  get-other : (x : BlockId) → x ≢ n → Map.get x iv' ≡ Map.get x iv
  get-other x d = ground (arith, d, block_eq_iff n x, get-insert x n (f, e) iv)

  -- The labels of other blocks hold the new one just when they hold its parent's.
  holds-leaf : (x : BlockId) → x ≢ n → holds f (Map.get x iv') ≡ holds plo (Map.get x iv)
  holds-leaf x d = elim (Option-cases (Map.get x iv)) [
    | inl gone ↦ ground (arith, gone, d, block_eq_iff n x, get-insert x n (f, e) iv)
    | inr ((lo, hi), h) ↦
        let old : Map.get x iv' ≡ some (lo, hi) =
          ground (arith, h, d, block_eq_iff n x, get-insert x n (f, e) iv) in
        elim (Bool-cases (block_eq p x)) [
          | inl same ↦
              let q = (block_eq_iff p x).0 same in
              let l : lo ≡ plo = ground (arith, q, h, at_p) in
              let m : hi ≡ phi = ground (arith, q, h, at_p) in
              rw (old, h) (ground (arith, l, m, low, high, p-room.0))
          | inr other ↦
              let (free, g, a, b, _) = lam.room x lo hi h in
              let np : x ≢ p = λ q. ground (arith, other, (block_eq_iff p x).1 (sym q)) in
              rw (old, h)
                (go lo hi free (lam.apart x p lo hi free plo phi np h g at_p)
                  (lam.apart p x plo phi f lo hi (λ q. np (sym q)) at_p free_p h)
                  (ordered x lo hi h) b)
        ]
  ]
    where
      go :
          (lo hi free : ℕ)
          → Lies lo hi free plo phi
          → Lies plo phi f lo hi
          → lo ≤ hi
          → free ≤ hi + 1
          → (leb lo f && leb f hi) ≡ (leb lo plo && leb plo hi)
      go lo hi free (inside a b) _ o r = ground (arith, a, b, r, low, high, p-room.0)
      go lo hi free (around a b) (inside c k) o r = ground (arith, a, k)
      go lo hi free (around a b) (around c k) o r = absurd (omega (arith, a, c))
      go lo hi free (around a b) (left_of c) o r = absurd (omega (arith, b, c, o))
      go lo hi free (around a b) (right_of c) o r = absurd (omega (arith, a, c, o))
      go lo hi free (left_of a) _ o r = ground (arith, a, p-room.0)
      go lo hi free (right_of a) _ o r = ground (arith, a, low, high, p-room.0)

  -- The new leaf holds no other label.
  leaf-holds :
      (y : BlockId) (lo hi : ℕ) → Map.get y iv ≡ some (lo, hi) → (leb f lo && leb lo e) ≡ false
  leaf-holds y lo hi h = elim (Bool-cases (block_eq p y)) [
    | inl same ↦
        let q = (block_eq_iff p y).0 same in
        let l : lo ≡ plo = ground (arith, q, h, at_p) in ground (arith, l, p-room.0)
    | inr other ↦
        go
          (lam.apart p y plo phi f lo hi (λ q. ground (arith, other, (block_eq_iff p y).1 q)) at_p
            free_p h)
          (ordered y lo hi h)
  ]
    where
      go : Lies plo phi f lo hi → lo ≤ hi → (leb f lo && leb lo e) ≡ false
      go (inside a b) o = ground (arith, b, o)
      go (around a b) o = ground (arith, a, p-room.0)
      go (left_of a) o = ground (arith, a, high)
      go (right_of a) o = ground (arith, a, o, p-room.0)

  leaf-above : (x : BlockId) → x ≢ n → reaches iv' x n ≡ reaches iv x p
  unfolding reaches
  leaf-above x d =
      let self : Map.get n iv' ≡ some (f, e) =
        ground (arith, get-insert n n (f, e) iv, beq_refl n) in
      rw (self, at_p, reaches) (holds-leaf x d)

  leaf_self : reaches iv' n n ≡ true
  unfolding reaches
  leaf_self =
      let self : Map.get n iv' ≡ some (f, e) =
        ground (arith, get-insert n n (f, e) iv, beq_refl n) in
      rw (self, reaches) (ground (arith, low))

  leaf-below : (y : BlockId) → y ≢ n → reaches iv' n y ≡ false
  unfolding reaches
  leaf-below y d =
      let self : Map.get n iv' ≡ some (f, e) =
        ground (arith, get-insert n n (f, e) iv, beq_refl n) in
      let old = get-other y d in
      elim (Option-cases (Map.get y iv)) [
        | inl gone ↦ rw (old ∙ gone, reaches) refl
        | inr ((lo, hi), h) ↦ rw (old ∙ h, self, reaches) (leaf-holds y lo hi h)
      ]

  leaf-others : (x y : BlockId) → x ≢ n → y ≢ n → reaches iv' x y ≡ reaches iv x y
  unfolding reaches
  leaf-others x y d c = elim (Option-cases (Map.get y iv)) [
    | inl gone ↦ rw (get-other y c ∙ gone, gone, reaches) refl
    | inr ((lo, hi), h) ↦ rw (get-other y c ∙ h, h, reaches) (ap (holds lo) (get-other x d))
  ]

bump_sizes-keeps :
    (fuel : ℕ) (x : BlockId) (r : Reachability)
    → ((bump_sizes fuel x r).intervals ≡ r.intervals)
      × ((bump_sizes fuel x r).next_free ≡ r.next_free)
unfolding bump_sizes
bump_sizes-keeps zero x r = (refl, refl)
bump_sizes-keeps (suc fuel) x r = elim (Option-cases (Map.get x r.tree_parent)) [
  | inl e ↦ rw (e, bump_sizes) (refl, refl)
  | inr (parent, e) ↦
      rw (e, bump_sizes)
        (bump_sizes-keeps fuel parent
          (record r { subtree_size = Map.insert x (size_at r x + 1) r.subtree_size }))
]

register-keeps :
    (id parent : BlockId) (r : Reachability)
    → ((register id parent r).intervals ≡ r.intervals)
      × ((register id parent r).next_free ≡ r.next_free)
unfolding register
register-keeps id parent r = bump_sizes-keeps (suc (length r.subtree_size)) parent _

cover_merged-keeps :
    (id : BlockId) (mergeset : List BlockId) (r : Reachability)
    → ((cover_merged id mergeset r).intervals ≡ r.intervals)
      × ((cover_merged id mergeset r).next_free ≡ r.next_free)
unfolding cover_merged insert_to_future_covering_set
cover_merged-keeps id [] r = (refl, refl)
cover_merged-keeps id (merged ∷ mergeset) r =
    cover_merged-keeps id mergeset (insert_to_future_covering_set merged id r)

-- The block `id` is a new leaf under `parent`.
pub record IsLeaf (id parent : BlockId) (before after : Reachability) : Type 0 where
  pub laminar : IsLaminar after.intervals after.next_free
  pub above : (x : BlockId) → x ≢ id → tree_reaches after x id ≡ tree_reaches before x parent
  pub self : tree_reaches after id id ≡ true
  pub below : (y : BlockId) → y ≢ id → tree_reaches after id y ≡ false
  pub others : (x y : BlockId) → x ≢ id → y ≢ id → tree_reaches after x y ≡ tree_reaches before x y

allocate-room :
    (id p : BlockId) (plo phi f : ℕ) (r : Reachability)
    → Map.get p r.intervals ≡ some (plo, phi)
    → Map.get p r.next_free ≡ some f
    → f ≤ phi
    → ((allocate id p r).intervals ≡ Map.insert id (f, child_end f phi) r.intervals)
      × ((allocate id p r).next_free
          ≡ Map.insert p (child_end f phi + 1) (Map.insert id (f + 1) r.next_free))
unfolding allocate
allocate-room id p plo phi f r at_p free_p l =
    let room : leb f phi ≡ true = ground (arith, l) in
    rw (at_p, free_p, room, allocate) (refl, refl)

module _ (id p : BlockId) (mergeset : List BlockId) (plo phi f : ℕ) (r : Reachability)
    (lam : IsLaminar r.intervals r.next_free) (fresh : Map.get id r.intervals ≡ none)
    (at_p : Map.get p r.intervals ≡ some (plo, phi)) (free_p : Map.get p r.next_free ≡ some f)
    (room : f ≤ phi) where
  after-maps :
      ((add_block id p mergeset r).intervals ≡ Map.insert id (f, child_end f phi) r.intervals)
      × ((add_block id p mergeset r).next_free
          ≡ Map.insert p (child_end f phi + 1) (Map.insert id (f + 1) r.next_free))
  unfolding add_block
  after-maps =
      let g = register id p r in
      let (gi, gf) = register-keeps id p r in
      let (ai, af) = allocate-room id p plo phi f g (rw gi at_p) (rw gf free_p) room in
      let (ci, cf) = cover_merged-keeps id mergeset (allocate id p g) in
      (
        ci ∙ ai ∙ ap (Map.insert id (f, child_end f phi)) gi,
        cf ∙ af ∙ ap (λ m. Map.insert p (child_end f phi + 1) (Map.insert id (f + 1) m)) gf,
      )

  bounds : (f ≤ child_end f phi) × (child_end f phi ≤ phi)
  bounds = let (g, a, b, c, top) = lam.room p plo phi at_p in child_end_bounds f phi room top

  -- In labels of a tree, a new block whose parent has labels left becomes a leaf: the labels are
  -- those of a tree again, the new block's tree-ancestors are its parent's and itself, it has no
  -- descendants, and nothing changes for the other blocks.
  pub add_block-IsLeaf : IsLeaf id p r (add_block id p mergeset r)
  add_block-IsLeaf =
      let (mi, mf) = after-maps in
      let (low, high) = bounds in
      let e = child_end f phi in
      let iv = r.intervals in
      let nf = r.next_free in
      let after = add_block id p mergeset r in
      record {
        laminar =
            rw (mi, mf) (leaf-IsLaminar id p plo phi f e iv nf lam fresh at_p free_p low high);
        above = λ x d.
            simp (tree_reaches-intervals, mi)
              (leaf-above id p plo phi f e iv nf lam fresh at_p free_p low high x d);
        self =
            simp (tree_reaches-intervals, mi)
              (leaf_self id p plo phi f e iv nf lam fresh at_p free_p low high);
        below = λ y d.
            simp (tree_reaches-intervals, mi)
              (leaf-below id p plo phi f e iv nf lam fresh at_p free_p low high y d);
        others = λ x y d c.
            simp (tree_reaches-intervals, mi)
              (leaf-others id p plo phi f e iv nf lam fresh at_p free_p low high x y d c);
      }

-- The labels of a store of one block.
pub single-IsLaminar :
    (genesis : BlockId) (top : ℕ)
    → 1 ≤ top
    → top ≤ u64_max
    → IsLaminar ((genesis, (1, top)) ∷ []) ((genesis, 2) ∷ [])
unfolding Map.get
single-IsLaminar genesis top l m = record {
  room = λ x lo hi h.
      (2, ground (arith, h), ground (arith, h), ground (arith, h, l), ground (arith, h, m));
  apart = λ x y lo hi free lo' hi' d h g k.
      absurd (ground (arith, h, k, d, block_eq_iff genesis x, block_eq_iff genesis y));
}
