-- ===== src/Tests/SpvTests.antt =====
-- Tests of the light client, and the theorems about it at concrete inputs.
use kovanica_node.Common.{
  ℕ, ◌+◌, ◌≡◌, refl, true, false, none, some, List, [], ◌∷◌, ◌++◌, err, ◌⊎◌, replicate, take,
  bytes_eq, length-take, length-append, arith,
}
use kovanica_node.Crypto.{Crypto}
use kovanica_node.Dag.{BlockId, block_eq}
use kovanica_node.Tx.{Transaction}
use kovanica_node.Spv.Merkle.{
  MerkleProof, join, merkle_root, fold_path, verify, generate_merkle_proof,
}
use kovanica_node.Spv.Merkle.Inclusion.{Proves, generate_merkle_proof-Proves}
use kovanica_node.Spv.Merkle.Binding.{Collision, IsDigest, verify-binds}
use kovanica_node.Spv.Merkle.Repeat.{merkle_root-repeat}
use kovanica_node.Spv.Headers.{
  BlockHeader, height_mismatch, new, add_header, check_header, verify_pow, check_retarget,
  verify_chain, verify_links, verify_link, last_is, slice_window,
}
use kovanica_node.Spv.Headers.Refinement.{Added, new-Represents, add_header-refines}
use kovanica_node.Tests.Samples.{transfer, coinbase, toy}

three : List Transaction
three = transfer ∷ coinbase ∷ transfer ∷ []

generate_merkle_proof-Proves_example :
    (p : MerkleProof) × (generate_merkle_proof toy three 2 ≡ some p) × Proves toy three 2 p
unfolding three
generate_merkle_proof-Proves_example = generate_merkle_proof-Proves toy three 2 (omega arith)

-- Every digest of this hash has 32 bytes.
abbrev padded : Crypto
padded = record {
  blake3 = λ bytes. take 32 (bytes ++ replicate 32 0);
  valid_key = λ key. true;
  verify_strict = λ key message signature. bytes_eq key signature;
}

padded-IsDigest : (m : List ℕ) → IsDigest (padded.blake3 m)
padded-IsDigest m =
    omega (arith, length-take {0} 32 (m ++ replicate 32 0), length-append {0} m (replicate 32 0))

abbrev proof_with : ℕ → MerkleProof
proof_with sibling = record {
  tx_id = replicate 32 7;
  merkle_root = replicate 32 7;
  path = replicate 32 sibling ∷ [];
  index = 0;
  tx_count = 2;
}

verify-binds_example : ((proof_with 1).tx_id ≡ (proof_with 2).tx_id) ⊎ Collision padded
unfolding verify fold_path join bytes_eq
verify-binds_example =
    verify-binds padded padded-IsDigest (proof_with 1) (proof_with 2) refl refl (refl, tt)
      (refl, tt) refl refl refl refl refl

merkle_root-repeat_example :
    merkle_root toy ((transfer ∷ coinbase ∷ []) ++ transfer ∷ [])
    ≡ merkle_root toy ((transfer ∷ coinbase ∷ []) ++ transfer ∷ transfer ∷ [])
merkle_root-repeat_example =
    merkle_root-repeat toy (transfer ∷ coinbase ∷ []) transfer refl (omega arith)

abbrev block_id : ℕ → BlockId
block_id n = record { bytes = replicate 32 n }

abbrev header_at : ℕ → ℕ → BlockHeader
header_at height prev = record {
  id = block_id height;
  prev_hash = block_id prev;
  merkle_root = replicate 32 0;
  work = 1;
  timestamp_ms = 1000 + height;
  nonce = 0;
  blue_score = height;
  chain_blue_work = height;
  height = height;
}

add_header-refines_example :
    Added
      (new (header_at 4 3) false none)
      (header_at 5 4)
      (header_at 4 3)
      []
      (add_header (new (header_at 4 3) false none) (header_at 5 4))
add_header-refines_example =
    add_header-refines (new (header_at 4 3) false none) (header_at 5 4) (header_at 4 3) []
      (omega arith) (new-Represents (header_at 4 3) false none)

skips_a_height : add_header (new (header_at 4 3) false none) (header_at 6 4) ≡ err height_mismatch
unfolding add_header new check_header
skips_a_height = refl

two_links :
    verify_chain (header_at 6 5) (header_at 4 3) (header_at 5 4 ∷ header_at 6 5 ∷ []) false none
    ≡ true
unfolding verify_chain verify_links verify_link verify_pow check_retarget slice_window last_is
    bytes_eq block_eq
two_links = refl
