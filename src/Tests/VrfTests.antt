-- ===== src/Tests/VrfTests.antt =====
-- The random function over the numbers in place of the group, with a hash that sums bytes.
use kovanica_node.Common.{
  ℕ, ◌+◌, ◌-◌, ◌*◌, ◌≡◌, refl, Option, none, some, List, [], ◌∷◌, ◌==◌, ==_refl, ok, replicate,
  arith,
}
use kovanica_node.Dag.Vrf.{Ristretto, IsRistretto, prove_with, vrf_prove, vrf_verify}
use kovanica_node.Dag.Vrf.Proofs.{vrf_verify-prove_with}

abbrev total : List ℕ → ℕ
total [] = 1
total (b ∷ bytes) = b + total bytes

abbrev first : List ℕ → Option ℕ
first [] = none
first (b ∷ bytes) = some b

abbrev numbers : Ristretto ℕ ℕ
numbers = record {
  add = λ a b. a + b;
  sub = λ a b. a - b;
  mul = λ a b. a * b;
  scalar_add = λ a b. a + b;
  scalar_mul = λ a b. a * b;
  scalar_eq = ◌==◌;
  compress = λ p. p ∷ [];
  decompress = first;
  from_uniform_bytes = total;
  from_bytes_wide = total;
  sha512 = λ bytes. total bytes ∷ replicate 63 0;
  verifying_key = λ sk. sk;
}

numbers-IsRistretto : IsRistretto numbers
numbers-IsRistretto = record {
  distributes = λ a b p. omega arith;
  associates = λ a b p. omega arith;
  cancels = λ p q. omega arith;
  reflexive = ==_refl;
  decompresses = λ p. refl;
}

vrf_verify-prove_with_example :
    ((key input : List ℕ) (x k : ℕ)
      → vrf_verify numbers key input (prove_with numbers key x k input).proof
        ≡ ok (prove_with numbers key x k input).output)
    × ((sk input : List ℕ)
        → vrf_verify numbers (numbers.verifying_key sk) input (vrf_prove numbers sk input).proof
          ≡ ok (vrf_prove numbers sk input).output)
vrf_verify-prove_with_example = vrf_verify-prove_with numbers numbers-IsRistretto
