-- ===== src/Templates/Threshold.antt =====
-- What an accepted set of multisig signatures proves.
use kovanica_node.Common.{
  ℕ, suc, ◌+◌, ◌≡◌, refl, ap, sym, subst, ◌⊎◌, inl, inr, ◌∙◌, Bool, true, false, List, [], ◌∷◌,
  if◌then◌else◌, length, All, arith, ok, Option, some, get_elem?, ==_iff, Option-cases,
  Result-cases,
}
use kovanica_node.Crypto.{Crypto, verify_pk}
use kovanica_node.Templates.Multisig.{
  MultisigScript, mem, find_key, match_signatures, verify_threshold_signatures,
}

abbrev pub Distinct : List ℕ → Type 0
Distinct [] = Unit
Distinct (k ∷ ks) = (mem k ks ≡ false) × Distinct ks

module _ (c : Crypto) where
  -- The key at index `k` verifies `sig`.
  abbrev pub Signs : List (List ℕ) → List ℕ → List ℕ → ℕ → Type 0
  Signs pubkeys sighash sig k =
      (pk : List ℕ) × ((get_elem? pubkeys k ≡ some pk) × (verify_pk c pk sighash sig ≡ true))

  -- Each signature is verified by the key at its index.
  abbrev pub Signed : List (List ℕ) → List ℕ → List (List ℕ) → List ℕ → Type 0
  Signed pubkeys sighash [] [] = Unit
  Signed pubkeys sighash [] (k ∷ ks) = ⊥
  Signed pubkeys sighash (sig ∷ sigs) [] = ⊥
  Signed pubkeys sighash (sig ∷ sigs) (k ∷ ks) =
      Signs pubkeys sighash sig k × Signed pubkeys sighash sigs ks

  find_key-some :
      (start : ℕ) (pubkeys : List (List ℕ)) (matched sighash sig : List ℕ) (k : ℕ)
      → find_key c start pubkeys matched sighash sig ≡ some k
      → (mem k matched ≡ false) × ((i : ℕ) × ((k ≡ start + i) × Signs pubkeys sighash sig i))
  unfolding find_key
  find_key-some start [] matched sighash sig k e = ground arith
  find_key-some start (pk ∷ pubkeys) matched sighash sig k e =
      elim (step (mem start matched) (verify_pk c pk sighash sig) e) [
        | inl (m, (v, p)) ↦
            (subst (λ j. mem j matched ≡ false) p m, (0, (omega (arith, p), (pk, (refl, v)))))
        | inr h ↦
            let found = find_key-some (suc start) pubkeys matched sighash sig k h in
            (found.0, (suc found.1.0, (omega (arith, found.1.1.0), found.1.1.1)))
      ]
    where
      step :
          (m v : Bool) {rest : Option ℕ}
          → (if m then rest else if v then some start else rest) ≡ some k
          → ((m ≡ false) × ((v ≡ true) × (start ≡ k))) ⊎ (rest ≡ some k)
      step true v h = inr h
      step false true h = inl (refl, (refl, cc))
      step false false h = inr h

  not_matched :
      (k : ℕ) (matched ks : List ℕ)
      → All (λ j. mem j (k ∷ matched) ≡ false) ks
      → All (λ j. mem j matched ≡ false) ks × (mem k ks ≡ false)
  unfolding mem
  not_matched k matched [] a = (tt, refl)
  not_matched k matched (j ∷ ks) (h, a) =
      let rest = not_matched k matched ks a in
      ((grind (arith, ==_iff k j), rest.0), grind (arith, rest.1, ==_iff k j, ==_iff j k))

  match_signatures-ok :
      (pubkeys : List (List ℕ)) (sighash matched : List ℕ) (sigs : List (List ℕ)) (out : List ℕ)
      → match_signatures c pubkeys sighash matched sigs ≡ ok out
      → (ks : List ℕ) × (All (λ j. mem j matched ≡ false) ks
          × (Distinct ks × Signed pubkeys sighash sigs ks))
  unfolding match_signatures
  match_signatures-ok pubkeys sighash matched [] out e = ([], (tt, (tt, tt)))
  match_signatures-ok pubkeys sighash matched (sig ∷ sigs) out e =
      elim (Option-cases (find_key c 0 pubkeys matched sighash sig)) [
        | inl p ↦ ground (arith, p)
        | inr (k, p) ↦
            let found = find_key-some 0 pubkeys matched sighash sig k p in
            let rest =
              match_signatures-ok pubkeys sighash (k ∷ matched) sigs out (ground (arith, p)) in
            let apart = not_matched k matched rest.0 rest.1.0 in
            (
              k ∷ rest.0,
              (
                (found.0, apart.0),
                (
                  (apart.1, rest.1.1.0),
                  (
                    subst (Signs pubkeys sighash sig) (sym (omega (arith, found.1.1.0)))
                        found.1.1.1,
                    rest.1.1.1,
                  ),
                ),
              ),
            )
      ]

  length-Signed :
      (pubkeys : List (List ℕ)) (sighash : List ℕ) (sigs : List (List ℕ)) (ks : List ℕ)
      → Signed pubkeys sighash sigs ks
      → length ks ≡ length sigs
  length-Signed pubkeys sighash [] [] s = refl
  length-Signed pubkeys sighash [] (k ∷ ks) s = absurd s
  length-Signed pubkeys sighash (sig ∷ sigs) [] s = absurd s
  length-Signed pubkeys sighash (sig ∷ sigs) (k ∷ ks) s =
      ap suc (length-Signed pubkeys sighash sigs ks s.1)

  -- If the signatures are accepted, m different key indices verify them, one for each signature.
  pub verify_threshold_signatures-ok :
      (script : MultisigScript) (signatures : List (List ℕ)) (sighash : List ℕ)
      → verify_threshold_signatures c script signatures sighash ≡ ok tt
      → (ks : List ℕ) × ((length ks ≡ script.m)
          × (Distinct ks × Signed script.pubkeys sighash signatures ks))
  unfolding verify_threshold_signatures
  verify_threshold_signatures-ok script signatures sighash e =
      let size : length signatures ≡ script.m = grind arith in
      elim (Result-cases (match_signatures c script.pubkeys sighash [] signatures)) [
        | inl (out, p) ↦
            let found = match_signatures-ok script.pubkeys sighash [] signatures out p in
            (
              found.0,
              (
                length-Signed script.pubkeys sighash signatures found.0 found.1.1.1 ∙ size,
                found.1.1,
              ),
            )
        | inr (_, p) ↦ grind (arith, p)
      ]
