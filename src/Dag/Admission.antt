-- ===== src/Dag/Admission.antt =====
-- dag.rs: `check_difficulty`, the epoch beacon and `check_vrf`.
use kovanica_node.Common.{
  ℕ, suc, ◌*◌, ◌/◌, not, Option, none, some, List, [], ◌∷◌, ◌++◌, ok, err, ltb, ◌==◌, if◌then◌else◌,
  length, min, max, take, bytes_eq,
}
use kovanica_node.Common.Map
use kovanica_node.Crypto.{Crypto}
use kovanica_node.Dag.{BlockId, Block, block_key, node_at}
use kovanica_node.Dag.Difficulty.{Retarget, next_work}
use kovanica_node.Dag.Pow.{read_be}
use kovanica_node.Dag.Store.{
  missing_key, missing_proof, missing_output, verification_failed, output_mismatch, not_eligible,
  difficulty_mismatch, invalid_vrf, panicked, Outcome, ◌>>=◌, VrfConfig, u64_top, Dag,
  chain_samples, default_epoch_length,
}
use kovanica_node.Dag.Wiring.{check_timestamps, boundary_below}

abbrev pub Check : Type 0
Check = Outcome (Unit {0})

-- `KOVANICA_EPOCH_BEACON_v1` and `KOVANICA_VRF_INPUT_v2`
unfoldable pub beacon_prefix : List ℕ
beacon_prefix =
    75 ∷ 79 ∷ 86 ∷ 65 ∷ 78 ∷ 73 ∷ 67 ∷ 65 ∷ 95 ∷ 69 ∷ 80 ∷ 79 ∷ 67 ∷ 72 ∷ 95 ∷ 66 ∷ 69 ∷ 65 ∷ 67
    ∷ 79 ∷ 78 ∷ 95 ∷ 118 ∷ 49 ∷ []

unfoldable pub input_prefix : List ℕ
input_prefix =
    75 ∷ 79 ∷ 86 ∷ 65 ∷ 78 ∷ 73 ∷ 67 ∷ 65 ∷ 95 ∷ 86 ∷ 82 ∷ 70 ∷ 95 ∷ 73 ∷ 78 ∷ 80 ∷ 85 ∷ 84 ∷ 95
    ∷ 118 ∷ 50 ∷ []

unfoldable pub epoch_length_of : Option VrfConfig → ℕ
epoch_length_of none = max default_epoch_length 1
epoch_length_of (some config) = max config.epoch_length 1

unfoldable pub check_output :
    (List ℕ → List ℕ → List ℕ → Option (List ℕ))
    → BlockId
    → ℕ
    → List ℕ
    → List ℕ
    → List ℕ
    → List ℕ
    → Check
check_output vrf_verify id threshold input key proof output = elim (vrf_verify key input proof) [
  | none ↦ err (invalid_vrf id verification_failed)
  | some verified ↦
      (let word = read_be 0 (take 8 output) in
        if not (bytes_eq verified output)
        then err (invalid_vrf id output_mismatch)
        else if ltb word threshold
        then ok tt
        else err (invalid_vrf id (not_eligible word threshold)))
]

module _ {S : Type 0} (crypto : Crypto)
    (vrf_verify : List ℕ → List ℕ → List ℕ → Option (List ℕ)) where
  unfoldable pub check_difficulty : Dag S → Block → BlockId → BlockId → Retarget → Check
  check_difficulty dag block id sp retarget =
      check_timestamps dag.nodes id block.timestamp_ms block.parents >>= λ _.
      elim (chain_samples dag sp retarget.window) [
        | none ↦ err panicked
        | some samples ↦
            (let expected = next_work retarget samples in
              if block.work == expected
              then ok tt
              else err (difficulty_mismatch id expected block.work))
      ]

  unfoldable pub epoch_beacon : Dag S → BlockId → Outcome (List ℕ)
  epoch_beacon dag sp =
      let epoch_length = epoch_length_of dag.vrf_config in
      let epoch = (node_at dag.nodes sp).ghostdag.blue_score / epoch_length in
      let threshold = min (epoch * epoch_length) u64_top in
      boundary_below dag.nodes threshold (suc (length dag.nodes)) dag.genesis (some sp)
      >>= λ boundary. elim (Map.get boundary dag.nodes) [
        | none ↦ err panicked
        | some node ↦ ok (
            crypto.blake3 (elim node.block.vrf_output [
              | none ↦ beacon_prefix ++ boundary.bytes
              | some output ↦ (beacon_prefix ++ boundary.bytes) ++ output
            ]))
      ]

  unfoldable pub epoch_vrf_input : Dag S → BlockId → Outcome (List ℕ)
  epoch_vrf_input dag sp =
      epoch_beacon dag sp >>= λ beacon. ok (crypto.blake3 (input_prefix ++ beacon))

  unfoldable pub check_vrf : Dag S → Block → BlockId → BlockId → ℕ → Check
  check_vrf dag block id sp threshold = epoch_vrf_input dag sp >>= λ input.
      elim block.vrf_public_key [
        | none ↦ err (invalid_vrf id missing_key)
        | some key ↦ elim block.vrf_proof [
          | none ↦ err (invalid_vrf id missing_proof)
          | some proof ↦ elim block.vrf_output [
            | none ↦ err (invalid_vrf id missing_output)
            | some output ↦ check_output vrf_verify id threshold input key proof output
          ]
        ]
      ]
