-- ===== src/Dag/Vrf.antt =====
-- vrf.rs: proving and verifying. The group of ristretto points with its scalars, SHA-512 and the
-- derivation of a key are third-party code.
pub mod Proofs
use kovanica_node.Common.{
  ℕ, Bool, true, Option, none, some, List, [], ◌∷◌, ◌++◌, Result, ok, err, replicate, take,
  if◌then◌else◌, ◌≡◌,
}

pub record Ristretto (P N : Type 0) : Type 0 where
  pub add : P → P → P
  pub sub : P → P → P
  pub mul : N → P → P
  pub scalar_add : N → N → N
  pub scalar_mul : N → N → N
  pub scalar_eq : N → N → Bool
  pub compress : P → List ℕ
  pub decompress : List ℕ → Option P
  -- `RistrettoPoint::from_uniform_bytes` and `Scalar::from_bytes_mod_order_wide`
  pub from_uniform_bytes : List ℕ → P
  pub from_bytes_wide : List ℕ → N
  pub sha512 : List ℕ → List ℕ
  -- The public key of the bytes of a secret key.
  pub verifying_key : List ℕ → List ℕ

-- The laws of a module over the scalars, and that a compressed point decompresses.
pub record IsRistretto {P N : Type 0} (r : Ristretto P N) : Type 0 where
  pub distributes : (a b : N) (p : P) → r.mul (r.scalar_add a b) p ≡ r.add (r.mul a p) (r.mul b p)
  pub associates : (a b : N) (p : P) → r.mul (r.scalar_mul a b) p ≡ r.mul a (r.mul b p)
  pub cancels : (p q : P) → r.sub (r.add p q) q ≡ p
  pub reflexive : (a : N) → r.scalar_eq a a ≡ true
  pub decompresses : (p : P) → r.decompress (r.compress p) ≡ some p

pub data VrfError : Type 0 where
  invalid_gamma verification_failed : VrfError

-- `gamma` is compressed.
pub record VrfProof (N : Type 0) : Type 0 where
  pub gamma : List ℕ
  pub c : N
  pub s : N

pub record VrfEvaluation (N : Type 0) : Type 0 where
  pub output : List ℕ
  pub proof : VrfProof N

-- `VRF_HASH_TO_CURVE_v1`, `VRF_CHALLENGE_v1` and `VRF_OUTPUT_v1`
abbrev pub prefix_hash_to_curve : List ℕ
prefix_hash_to_curve =
    86 ∷ 82 ∷ 70 ∷ 95 ∷ 72 ∷ 65 ∷ 83 ∷ 72 ∷ 95 ∷ 84 ∷ 79 ∷ 95 ∷ 67 ∷ 85 ∷ 82 ∷ 86 ∷ 69 ∷ 95 ∷ 118
    ∷ 49 ∷ []

abbrev pub prefix_challenge : List ℕ
prefix_challenge =
    86 ∷ 82 ∷ 70 ∷ 95 ∷ 67 ∷ 72 ∷ 65 ∷ 76 ∷ 76 ∷ 69 ∷ 78 ∷ 71 ∷ 69 ∷ 95 ∷ 118 ∷ 49 ∷ []

abbrev pub prefix_output : List ℕ
prefix_output = 86 ∷ 82 ∷ 70 ∷ 95 ∷ 79 ∷ 85 ∷ 84 ∷ 80 ∷ 85 ∷ 84 ∷ 95 ∷ 118 ∷ 49 ∷ []

module _ {P N : Type 0} (r : Ristretto P N) where
  unfoldable pub hash_to_curve : List ℕ → List ℕ → P
  hash_to_curve key input = r.from_uniform_bytes (r.sha512 (prefix_hash_to_curve ++ key ++ input))

  -- `H(input || gamma || V || H_pub)`
  unfoldable pub challenge : List ℕ → List ℕ → P → P → N
  challenge input gamma v h_pub =
      r.from_bytes_wide
        (r.sha512 (prefix_challenge ++ input ++ gamma ++ r.compress v ++ r.compress h_pub))

  unfoldable pub output_of : List ℕ → List ℕ
  output_of gamma = take 32 (r.sha512 (prefix_output ++ gamma))

  -- The evaluation for a key, with a scalar and a nonce.
  unfoldable pub prove_with : List ℕ → N → N → List ℕ → VrfEvaluation N
  prove_with key sk_scalar k input =
      let h_pub = hash_to_curve key input in
      let gamma = r.compress (r.mul sk_scalar h_pub) in
      let c = challenge input gamma (r.mul k h_pub) h_pub in
      record {
        output = output_of gamma;
        proof = record { gamma = gamma; c = c; s = r.scalar_add k (r.scalar_mul c sk_scalar) };
      }

  -- The scalar is read from the 32 bytes of the secret key and 32 zeros.
  unfoldable pub vrf_prove : List ℕ → List ℕ → VrfEvaluation N
  vrf_prove sk input =
      prove_with (r.verifying_key sk) (r.from_bytes_wide (sk ++ replicate 32 0))
        (r.from_bytes_wide (r.sha512 (sk ++ input))) input

  unfoldable pub vrf_verify : List ℕ → List ℕ → VrfProof N → Result VrfError (List ℕ)
  vrf_verify key input proof =
      let h_pub = hash_to_curve key input in
      elim (r.decompress proof.gamma) [
        | none ↦ err invalid_gamma
        | some gamma ↦
            (let v_prime = r.sub (r.mul proof.s h_pub) (r.mul proof.c gamma) in
              if r.scalar_eq (challenge input proof.gamma v_prime h_pub) proof.c
              then ok (output_of proof.gamma)
              else err verification_failed)
      ]
