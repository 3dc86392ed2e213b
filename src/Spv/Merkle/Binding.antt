-- ===== src/Spv/Merkle/Binding.antt =====
-- A Merkle root binds the transactions below it, as far as the hash is free of collisions.
use kovanica_node.Common.{
  ℕ, ◌/◌, ◌%◌, ◌≡◌, ◌≢◌, refl, sym, ap, ◌∙◌, true, List, [], ◌∷◌, ◌++◌, length, All, ◌==◌,
  if◌then◌else◌, ◌⊎◌, inl, inr, Bool-cases, arith, bytes_eq, bytes_eq_iff,
}
use kovanica_node.Crypto.{Crypto}
use kovanica_node.Spv.Merkle.{MerkleProof, join, fold_path, verify}

-- Two different inputs of one digest.
pub record Collision (c : Crypto) : Type 0 where
  pub left : List ℕ
  pub right : List ℕ
  pub differ : left ≢ right
  pub collide : c.blake3 left ≡ c.blake3 right

abbrev pub IsDigest : List ℕ → Type 0
IsDigest d = length d ≡ 32

append-cancel : (a b x y : List ℕ) → length a ≡ length b → a ++ x ≡ b ++ y → (a ≡ b) × (x ≡ y)
append-cancel [] [] x y l e = (refl, e)
append-cancel [] (v ∷ b) x y l e = absurd (omega (arith, l))
append-cancel (u ∷ a) [] x y l e = absurd (omega (arith, l))
append-cancel (u ∷ a) (v ∷ b) x y l e =
    let (p, q) = append-cancel a b x y (omega (arith, l)) (cc) in (cc, q)

module _ (c : Crypto) where
  join-inj :
      (a b x y : List ℕ)
      → IsDigest a
      → IsDigest b
      → join c a x ≡ join c b y
      → ((a ≡ b) × (x ≡ y)) ⊎ Collision c
  unfolding join
  join-inj a b x y p q e = elim (Bool-cases (bytes_eq (a ++ x) (b ++ y))) [
    | inl same ↦ inl (append-cancel a b x y (p ∙ sym q) ((bytes_eq_iff (a ++ x) (b ++ y)).0 same))
    | inr other ↦ inr (record {
      left = a ++ x;
      right = b ++ y;
      differ = λ e. ground (arith, other, (bytes_eq_iff (a ++ x) (b ++ y)).1 e);
      collide = e;
    })
  ]

  -- The two ways that a step of the path joins a digest with its sibling.
  abbrev joined : ℕ → List ℕ → List ℕ → List ℕ
  joined idx x s = if idx % 2 == 0 then join c x s else join c s x

  joined-inj :
      (idx : ℕ) (x y s t : List ℕ)
      → IsDigest x
      → IsDigest y
      → IsDigest s
      → IsDigest t
      → joined idx x s ≡ joined idx y t
      → ((x ≡ y) × (s ≡ t)) ⊎ Collision c
  joined-inj idx x y s t dx dy ds dt e = elim (Bool-cases (idx % 2 == 0)) [
    | inl left ↦ join-inj x y s t dx dy (ground (arith, left, e))
    | inr right ↦ elim (join-inj s t x y ds dt (ground (arith, right, e))) [
      | inl (p, q) ↦ inl (q, p)
      | inr collision ↦ inr collision
    ]
  ]

  module _ (digest : (m : List ℕ) → IsDigest (c.blake3 m)) where
    joined-IsDigest : (idx : ℕ) (x s : List ℕ) → IsDigest (joined idx x s)
    unfolding join
    joined-IsDigest idx x s = ground (arith, digest (x ++ s), digest (s ++ x))

    fold_path-inj :
        (idx : ℕ) (p q : List (List ℕ)) (x y : List ℕ)
        → IsDigest x
        → IsDigest y
        → All IsDigest p
        → All IsDigest q
        → length p ≡ length q
        → fold_path c x idx p ≡ fold_path c y idx q
        → (x ≡ y) ⊎ Collision c
    unfolding fold_path
    fold_path-inj idx [] [] x y dx dy dp dq l e = inl e
    fold_path-inj idx [] (t ∷ q) x y dx dy dp dq l e = absurd (omega (arith, l))
    fold_path-inj idx (s ∷ p) [] x y dx dy dp dq l e = absurd (omega (arith, l))
    fold_path-inj idx (s ∷ p) (t ∷ q) x y dx dy (ds, dp) (dt, dq) l e =
        elim (fold_path-inj (idx / 2) p q (joined idx x s) (joined idx y t)
          (joined-IsDigest idx x s) (joined-IsDigest idx y t) dp dq (omega (arith, l)) e) [
            | inl same ↦ elim (joined-inj idx x y s t dx dy ds dt same) [
              | inl (p, q) ↦ inl p
              | inr collision ↦ inr collision
            ]
            | inr collision ↦ inr collision
          ]

    -- Two proofs of one root, index and depth that both verify prove the same transaction, or two
    -- inputs with one digest are found, if every digest has 32 bytes.
    pub verify-binds :
        (p q : MerkleProof)
        → IsDigest p.tx_id
        → IsDigest q.tx_id
        → All IsDigest p.path
        → All IsDigest q.path
        → length p.path ≡ length q.path
        → p.index ≡ q.index
        → p.merkle_root ≡ q.merkle_root
        → verify c p ≡ true
        → verify c q ≡ true
        → (p.tx_id ≡ q.tx_id) ⊎ Collision c
    unfolding verify
    verify-binds p q dp dq as_p as_q l i r vp vq =
        let ep : fold_path c p.tx_id p.index p.path ≡ p.merkle_root = (bytes_eq_iff _ _).0 vp in
        let eq : fold_path c q.tx_id q.index q.path ≡ q.merkle_root = (bytes_eq_iff _ _).0 vq in
        fold_path-inj p.index p.path q.path p.tx_id q.tx_id dp dq as_p as_q l
          (ep ∙ r ∙ sym eq ∙ ap_index i)
      where
        ap_index :
            p.index ≡ q.index
            → fold_path c q.tx_id q.index q.path ≡ fold_path c q.tx_id p.index q.path
        ap_index e = ap (λ (n : ℕ). fold_path c q.tx_id n q.path) (sym e)
