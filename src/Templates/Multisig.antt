-- ===== src/Templates/Multisig.antt =====
-- crates/kovanica-state/src/multisig.rs. The static error strings are constructors.
use kovanica_node.Common.{
  ℕ, zero, suc, ◌+◌, ◌*◌, Bool, true, false, Option, none, some, List, [], ◌∷◌, not, Result, ok,
  err, ltb, ◌==◌, if◌then◌else◌, length, take, drop, flat_map, bytes_eq, and_then,
}
use kovanica_node.Crypto.{Crypto, verify_pk}

abbrev pub max_multisig_keys : ℕ
max_multisig_keys = 16

pub data MultisigError : Type 0 where
  script_too_short threshold_zero no_keys threshold_exceeds_keys too_many_keys : MultisigError
  script_length invalid_key duplicate_key : MultisigError
  signature_count signature_size duplicate_signature no_matching_key not_enough : MultisigError

pub record MultisigScript : Type 0 where
  pub m : ℕ
  pub n : ℕ
  pub pubkeys : List (List ℕ)

unfoldable pub contains : List (List ℕ) → List ℕ → Bool
contains [] x = false
contains (y ∷ ys) x = if bytes_eq y x then true else contains ys x

-- The two loops over pairs `i < j`.
unfoldable pub has_duplicate : List (List ℕ) → Bool
has_duplicate [] = false
has_duplicate (x ∷ xs) = if contains xs x then true else has_duplicate xs

unfoldable pub mem : ℕ → List ℕ → Bool
mem k [] = false
mem k (x ∷ xs) = if x == k then true else mem k xs

unfoldable pub check_signatures : List (List ℕ) → Result MultisigError (Unit {0})
check_signatures [] = ok tt
check_signatures (sig ∷ signatures) =
    let rest = check_signatures signatures in
    if not (length sig == 64)
    then err signature_size
    else if contains signatures sig
    then err duplicate_signature
    else rest

module _ (c : Crypto) where
  -- The keys at the offsets `2 + 32 * i`.
  unfoldable pub parse_keys : ℕ → List ℕ → Result MultisigError (List (List ℕ))
  parse_keys zero bytes = ok []
  parse_keys (suc n) bytes =
      let rest = and_then (parse_keys n (drop 32 bytes)) (λ keys. ok (take 32 bytes ∷ keys)) in
      if c.valid_key (take 32 bytes) then rest else err invalid_key

  unfoldable pub parse_header : ℕ → ℕ → List ℕ → Result MultisigError MultisigScript
  parse_header m n bytes =
      if ltb m 1
      then err threshold_zero
      else if ltb n 1
      then err no_keys
      else if ltb n m
      then err threshold_exceeds_keys
      else if ltb max_multisig_keys n
      then err too_many_keys
      else if not (length bytes == 2 + 32 * n)
      then err script_length
      else and_then (parse_keys n (drop 2 bytes)) (λ keys.
        if has_duplicate keys
        then err duplicate_key
        else ok (record { m = m; n = n; pubkeys = keys }))

  unfoldable pub parse : List ℕ → Result MultisigError MultisigScript
  parse [] = err script_too_short
  parse (m ∷ []) = err script_too_short
  parse (m ∷ n ∷ rest) = parse_header m n (m ∷ n ∷ rest)

  -- The first key that is not matched yet and verifies the signature.
  unfoldable pub find_key : ℕ → List (List ℕ) → List ℕ → List ℕ → List ℕ → Option ℕ
  find_key k_idx [] matched sighash sig = none
  find_key k_idx (pk ∷ pubkeys) matched sighash sig =
      let rest = find_key (suc k_idx) pubkeys matched sighash sig in
      if mem k_idx matched then rest else if verify_pk c pk sighash sig then some k_idx else rest

  unfoldable pub match_signatures :
      List (List ℕ) → List ℕ → List ℕ → List (List ℕ) → Result MultisigError (List ℕ)
  match_signatures pubkeys sighash matched [] = ok matched
  match_signatures pubkeys sighash matched (sig ∷ signatures) =
      elim (find_key 0 pubkeys matched sighash sig) [
        | none ↦ err no_matching_key
        | some k_idx ↦ match_signatures pubkeys sighash (k_idx ∷ matched) signatures
      ]

  unfoldable pub verify_threshold_signatures :
      MultisigScript → List (List ℕ) → List ℕ → Result MultisigError (Unit {0})
  verify_threshold_signatures script signatures sighash =
      if not (length signatures == script.m)
      then err signature_count
      else and_then (check_signatures signatures) (λ _.
        and_then (match_signatures script.pubkeys sighash [] signatures)
          (λ matched. if length matched == script.m then ok tt else err not_enough))

unfoldable pub encode : MultisigScript → List ℕ
encode s = s.m ∷ s.n ∷ flat_map (λ pk. pk) s.pubkeys
