-- ===== src/Spv/Merkle/Repeat.antt =====
-- An odd level is padded with its last digest, so repeating it leaves the root as it is.
use kovanica_node.Common.{
  ℕ, zero, suc, ◌+◌, ◌%◌, ◌≤◌, ◌<◌, ◌≡◌, refl, sym, ap, ◌∙◌, List, [], ◌∷◌, ◌++◌, length,
  length-append, arith,
}
use kovanica_node.Crypto.{Crypto}
use kovanica_node.Tx.{Transaction}
use kovanica_node.Ledger
use kovanica_node.Spv.Merkle.{pair_up, reduce, merkle_root_from_leaves, leaves_of, merkle_root}
use kovanica_node.Spv.Merkle.Inclusion.{length-leaves_of, length-pair_up}

module _ (c : Crypto) where
  reduce-fuel :
      (fuel more : ℕ) (level : List (List ℕ))
      → length level ≤ suc fuel
      → reduce c (fuel + more) level ≡ reduce c fuel level
  unfolding reduce
  reduce-fuel fuel more [] l = refl
  reduce-fuel fuel more (a ∷ []) l = refl
  reduce-fuel zero more (a ∷ b ∷ level) l = absurd (omega (arith, l))
  reduce-fuel (suc fuel) more (a ∷ b ∷ level) l =
      let shift : suc fuel + more ≡ suc (fuel + more) = omega arith in
      rw shift (
        reduce-fuel fuel more (pair_up c (a ∷ b ∷ level))
          (omega (arith, l, length-pair_up c (a ∷ b ∷ level))))

  pair_up-repeat :
      (level : List (List ℕ)) (x : List ℕ)
      → length level % 2 ≡ 0
      → pair_up c (level ++ x ∷ []) ≡ pair_up c (level ++ x ∷ x ∷ [])
  unfolding pair_up
  pair_up-repeat [] x h = refl
  pair_up-repeat (a ∷ []) x h = absurd (omega (arith, h))
  pair_up-repeat (a ∷ b ∷ level) x h = cc (pair_up-repeat level x (omega (arith, h)))

  leaves_of-append :
      (xs ys : List Transaction) → leaves_of c (xs ++ ys) ≡ leaves_of c xs ++ leaves_of c ys
  unfolding leaves_of
  leaves_of-append [] ys = refl
  leaves_of-append (x ∷ xs) ys = cc (leaves_of-append xs ys)

  root-repeat :
      (level : List (List ℕ)) (x : List ℕ)
      → length level % 2 ≡ 0
      → 0 < length level
      → merkle_root_from_leaves c (level ++ x ∷ [])
        ≡ merkle_root_from_leaves c (level ++ x ∷ x ∷ [])
  unfolding merkle_root_from_leaves reduce
  root-repeat [] x h p = elim p [ ]
  root-repeat (a ∷ []) x h p = absurd (omega (arith, h))
  root-repeat (a ∷ b ∷ level) x h p =
      let one = level ++ x ∷ [] in
      let two = level ++ x ∷ x ∷ [] in
      let longer : suc (length two) ≡ suc (length one) + 1 =
        omega (arith, length-append level (x ∷ []), length-append level (x ∷ x ∷ [])) in
      ap (reduce c (suc (length one))) (pair_up-repeat (a ∷ b ∷ level) x h)
      ∙ sym (
          ap (λ n. reduce c n (pair_up c (a ∷ b ∷ two))) longer
          ∙ reduce-fuel (suc (length one)) 1 (pair_up c (a ∷ b ∷ two))
              (omega (arith, length-pair_up c (a ∷ b ∷ two), longer)))

  -- An odd number of at least three transactions has the Merkle root of the list that repeats the
  -- last of them.
  pub merkle_root-repeat :
      (txs : List Transaction) (tx : Transaction)
      → length txs % 2 ≡ 0
      → 0 < length txs
      → merkle_root c (txs ++ tx ∷ []) ≡ merkle_root c (txs ++ tx ∷ tx ∷ [])
  unfolding merkle_root
  merkle_root-repeat [] tx h p = elim p [ ]
  merkle_root-repeat (t ∷ txs) tx h p =
      let x = (Ledger.id c tx).bytes in
      let level = leaves_of c (t ∷ txs) in
      ap (merkle_root_from_leaves c) (leaves_of-append (t ∷ txs) (tx ∷ []))
      ∙ unfold leaves_of in
        (root-repeat level x (omega (arith, h, length-leaves_of c (t ∷ txs)))
            (omega (arith, length-leaves_of c (t ∷ txs)))
          ∙ sym (ap (merkle_root_from_leaves c) (leaves_of-append (t ∷ txs) (tx ∷ tx ∷ []))))
