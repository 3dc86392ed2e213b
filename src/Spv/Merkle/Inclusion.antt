-- ===== src/Spv/Merkle/Inclusion.antt =====
-- The proof that is generated for a transaction is accepted.
use kovanica_node.Common.{
  ℕ, zero, suc, ◌+◌, ◌*◌, ◌/◌, ◌%◌, ◌≤◌, ◌<◌, ◌≡◌, refl, ap, ◌∙◌, true, some, List, [], ◌∷◌, length,
  get_elem?, ◌==◌, if◌then◌else◌, arith, bytes_eq_iff,
}
use kovanica_node.Crypto.{Crypto}
use kovanica_node.Tx.{Transaction}
use kovanica_node.Spv.Merkle.{
  MerkleProof, join, pair_up, reduce, merkle_root_from_leaves, leaves_of, merkle_root,
  push_siblings, climb, fold_path, verify, generate_merkle_proof,
}

module _ (c : Crypto) where
  -- Past the pair of `idx` nothing is pushed.
  push_siblings-past :
      (idx count pos : ℕ) (level : List (List ℕ))
      → idx / 2 < pos
      → push_siblings c idx count pos level ≡ []
  unfolding push_siblings
  push_siblings-past idx count pos [] h = refl
  push_siblings-past idx count pos (a ∷ []) h = ground arith
  push_siblings-past idx count pos (a ∷ b ∷ level) h =
      ground (arith, push_siblings-past idx count (pos + 1) level)

  -- One level adds one sibling, and the pair is where the next level has half the index.
  record Step (j idx count pos : ℕ) (level : List (List ℕ)) (x : List ℕ) : Type 0 where
    pub sibling : List ℕ
    pub pushed : push_siblings c idx count pos level ≡ sibling ∷ []
    pub above :
        get_elem? (pair_up c level) (j / 2)
        ≡ some (if idx % 2 == 0 then join c x sibling else join c sibling x)

  get-pair_up_skip :
      (a b : List ℕ) (level : List (List ℕ)) (j : ℕ)
      → get_elem? (pair_up c (a ∷ b ∷ level)) (suc (suc j) / 2)
        ≡ get_elem? (pair_up c level) (j / 2)
  unfolding pair_up
  get-pair_up_skip a b level j =
      let half : suc (suc j) / 2 ≡ suc (j / 2) = omega arith in rw half refl

  Step-skip :
      (j idx count pos : ℕ) (a b : List ℕ) (level : List (List ℕ)) (x : List ℕ)
      → idx ≡ 2 * pos + suc (suc j)
      → Step j idx count (pos + 1) level x
      → Step (suc (suc j)) idx count pos (a ∷ b ∷ level) x
  unfolding push_siblings
  Step-skip j idx count pos a b level x e s = record {
    sibling = s.sibling;
    pushed = ground (arith, e, s.pushed);
    above = get-pair_up_skip a b level j ∙ s.above;
  }

  level-Step :
      (j idx count pos : ℕ) (level : List (List ℕ)) (x : List ℕ)
      → idx ≡ 2 * pos + j
      → count ≡ 2 * pos + length level
      → get_elem? level j ≡ some x
      → Step j idx count pos level x
  level-Step j idx count pos [] x e l h = cc
  level-Step zero idx count pos (a ∷ []) x e l h = record {
    sibling = a;
    pushed = unfold push_siblings in ground (arith, e, l);
    above = unfold pair_up in ground (arith, e, h);
  }
  level-Step (suc j) idx count pos (a ∷ []) x e l h = cc
  level-Step zero idx count pos (a ∷ b ∷ level) x e l h = record {
    sibling = b;
    pushed =
        unfold push_siblings in ground (arith, e, push_siblings-past idx count (pos + 1) level);
    above = unfold pair_up in ground (arith, e, h);
  }
  level-Step (suc zero) idx count pos (a ∷ b ∷ level) x e l h = record {
    sibling = a;
    pushed =
        unfold push_siblings in ground (arith, e, push_siblings-past idx count (pos + 1) level);
    above = unfold pair_up in ground (arith, e, h);
  }
  level-Step (suc (suc j)) idx count pos (a ∷ b ∷ level) x e l h =
      Step-skip j idx count pos a b level x e
        (level-Step j idx count (pos + 1) level x (omega (arith, e)) (omega (arith, l)) h)

  pub length-pair_up : (level : List (List ℕ)) → length (pair_up c level) ≤ (length level + 1) / 2
  unfolding pair_up
  length-pair_up [] = omega arith
  length-pair_up (a ∷ []) = omega arith
  length-pair_up (a ∷ b ∷ level) = omega (arith, length-pair_up level)

  -- A path of the leaf up to the root.
  record Leads (fuel : ℕ) (idx : ℕ) (level : List (List ℕ)) (x : List ℕ) : Type 0 where
    pub path : List (List ℕ)
    pub root : List ℕ
    pub climbed : climb c fuel idx level ≡ some path
    pub reduced : reduce c fuel level ≡ some root
    pub folded : fold_path c x idx path ≡ root

  module _ (fuel idx : ℕ) (a b : List ℕ) (level : List (List ℕ)) (x : List ℕ) where
    Leads-up :
        (s : Step idx idx (length (a ∷ b ∷ level)) 0 (a ∷ b ∷ level) x)
        → Leads fuel
            (idx / 2)
            (pair_up c (a ∷ b ∷ level))
            (if idx % 2 == 0 then join c x s.sibling else join c s.sibling x)
        → Leads (suc fuel) idx (a ∷ b ∷ level) x
    unfolding climb reduce fold_path pair_up
    Leads-up s l = record {
      path = s.sibling ∷ l.path;
      root = l.root;
      climbed = rw (l.climbed, s.pushed) refl;
      reduced = l.reduced;
      folded = l.folded;
    }

  climb-Leads :
      (fuel idx : ℕ) (level : List (List ℕ)) (x : List ℕ)
      → length level ≤ suc fuel
      → get_elem? level idx ≡ some x
      → Leads fuel idx level x
  climb-Leads fuel idx [] x l h = cc
  climb-Leads fuel zero (a ∷ []) x l h = record {
    path = [];
    root = a;
    climbed = unfold climb in refl;
    reduced = unfold reduce in refl;
    folded = unfold fold_path in cc;
  }
  climb-Leads fuel (suc idx) (a ∷ []) x l h = cc
  climb-Leads zero idx (a ∷ b ∷ level) x l h = absurd (omega (arith, l))
  climb-Leads (suc fuel) idx (a ∷ b ∷ level) x l h =
      let s =
        level-Step idx idx (length (a ∷ b ∷ level)) 0 (a ∷ b ∷ level) x (omega arith) (omega arith)
          h in
      Leads-up fuel idx a b level x s (
        climb-Leads fuel (idx / 2) (pair_up c (a ∷ b ∷ level))
          (if idx % 2 == 0 then join c x s.sibling else join c s.sibling x)
          (omega (arith, l, length-pair_up (a ∷ b ∷ level))) s.above)

  pub length-leaves_of : (txs : List Transaction) → length (leaves_of c txs) ≡ length txs
  unfolding leaves_of
  length-leaves_of [] = refl
  length-leaves_of (tx ∷ txs) = ap suc (length-leaves_of txs)

  get_elem?-lt :
      (level : List (List ℕ)) (j : ℕ)
      → j < length level
      → (x : List ℕ) × (get_elem? level j ≡ some x)
  get_elem?-lt [] j h = elim h [ ]
  get_elem?-lt (x ∷ level) zero h = (x, refl)
  get_elem?-lt (x ∷ level) (suc j) h = get_elem?-lt level j (omega (arith, h))

  -- What the proof of a transaction is.
  pub record Proves (txs : List Transaction) (index : ℕ) (p : MerkleProof) : Type 0 where
    pub indexed : p.index ≡ index
    pub counted : p.tx_count ≡ length txs
    pub leaf : get_elem? (leaves_of c txs) index ≡ some p.tx_id
    pub rooted : merkle_root c txs ≡ some p.merkle_root
    pub verified : verify c p ≡ true

  merkle_root-reduce :
      (txs : List Transaction)
      → 0 < length txs
      → merkle_root c txs ≡ merkle_root_from_leaves c (leaves_of c txs)
  unfolding merkle_root
  merkle_root-reduce [] h = elim h [ ]
  merkle_root-reduce (tx ∷ txs) h = refl

  Leads-Proves :
      (txs : List Transaction) (index : ℕ) (x : List ℕ)
      → index < length txs
      → get_elem? (leaves_of c txs) index ≡ some x
      → Leads (length txs) index (leaves_of c txs) x
      → (p : MerkleProof) × (generate_merkle_proof c txs index ≡ some p) × Proves txs index p
  unfolding generate_merkle_proof merkle_root_from_leaves verify
  Leads-Proves txs index x h at l =
      let root : reduce c (length (leaves_of c txs)) (leaves_of c txs) ≡ some l.root =
        rw (length-leaves_of txs) l.reduced in
      (
        record {
          tx_id = x;
          merkle_root = l.root;
          path = l.path;
          index = index;
          tx_count = length txs;
        },
        ground (arith, at, root, l.climbed),
        record {
          indexed = refl;
          counted = refl;
          leaf = at;
          rooted = merkle_root-reduce txs (omega (arith, h)) ∙ root;
          verified = (bytes_eq_iff _ _).1 l.folded;
        },
      )

  -- For every index of a block, `generate_merkle_proof` comes to a proof of the transaction there,
  -- with the Merkle root of the block, and the proof verifies.
  pub generate_merkle_proof-Proves :
      (txs : List Transaction) (index : ℕ)
      → index < length txs
      → (p : MerkleProof) × (generate_merkle_proof c txs index ≡ some p) × Proves txs index p
  generate_merkle_proof-Proves txs index h =
      let (x, at) = get_elem?-lt (leaves_of c txs) index (omega (arith, h, length-leaves_of txs)) in
      Leads-Proves txs index x h at (
        climb-Leads (length txs) index (leaves_of c txs) x (omega (arith, length-leaves_of txs)) at)
