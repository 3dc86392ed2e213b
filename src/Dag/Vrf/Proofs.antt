-- ===== src/Dag/Vrf/Proofs.antt =====
-- What a verified proof shows of its maker.
use kovanica_node.Common.{ℕ, List, ok, replicate, ◌++◌, ◌≡◌, ap, ◌∙◌, arith}
use kovanica_node.Dag.Vrf.{
  Ristretto, IsRistretto, hash_to_curve, challenge, prove_with, vrf_prove, vrf_verify,
}

module _ {P N : Type 0} (r : Ristretto P N) (laws : IsRistretto r) where
  -- `s H - c (x H)` is `k H` for `s = k + c x`.
  response :
      (x k c : N) (h : P)
      → r.sub (r.mul (r.scalar_add k (r.scalar_mul c x)) h) (r.mul c (r.mul x h)) ≡ r.mul k h
  response x k c h =
      ap (λ p. r.sub p (r.mul c (r.mul x h)))
        (laws.distributes k (r.scalar_mul c x) h ∙ ap (r.add (r.mul k h)) (laws.associates c x h))
      ∙ laws.cancels (r.mul k h) (r.mul c (r.mul x h))

  accepts :
      (key input : List ℕ) (x k : N)
      → vrf_verify r key input (prove_with r key x k input).proof
        ≡ ok (prove_with r key x k input).output
  unfolding vrf_verify prove_with
  accepts key input x k =
      let h = hash_to_curve r key input in
      let c = challenge r input (r.compress (r.mul x h)) (r.mul k h) h in
      ground (arith, laws.decompresses (r.mul x h), response x k c h, laws.reflexive c)

  -- A proof that is made with any scalar and any nonce verifies against any public key, with the
  -- output of that scalar; the proof of `vrf_prove` verifies against the key of its secret.
  pub vrf_verify-prove_with :
      ((key input : List ℕ) (x k : N)
        → vrf_verify r key input (prove_with r key x k input).proof
          ≡ ok (prove_with r key x k input).output)
      × ((sk input : List ℕ)
          → vrf_verify r (r.verifying_key sk) input (vrf_prove r sk input).proof
            ≡ ok (vrf_prove r sk input).output)
  unfolding vrf_verify prove_with vrf_prove
  vrf_verify-prove_with = (
    accepts,
    λ sk input.
        accepts (r.verifying_key sk) input (r.from_bytes_wide (sk ++ replicate 32 0))
          (r.from_bytes_wide (r.sha512 (sk ++ input))),
  )
