-- ===== src/Spv/Merkle.antt =====
-- spv.rs: the Merkle root of a block's transactions, the proof of a transaction and its check.
pub mod Inclusion
pub mod Binding
pub mod Repeat
use kovanica_node.Common.{
  ℕ, zero, suc, ◌+◌, ◌-◌, ◌/◌, ◌%◌, Bool, ◌&&◌, Option, none, some, List, [], ◌∷◌, ◌++◌, map,
  length, get_elem?, replicate, leb, ◌==◌, if◌then◌else◌, bytes_eq,
}
use kovanica_node.Crypto.{Crypto}
use kovanica_node.Tx.{Transaction}
use kovanica_node.Ledger

pub record MerkleProof : Type 0 where
  pub tx_id : List ℕ
  pub merkle_root : List ℕ
  pub path : List (List ℕ)
  pub index : ℕ
  pub tx_count : ℕ

module _ (c : Crypto) where
  -- The hasher that is given `a` and then `b`.
  unfoldable pub join : List ℕ → List ℕ → List ℕ
  join a b = c.blake3 (a ++ b)

  -- A round of `while current.len() > 1`: the next level.
  unfoldable pub pair_up : List (List ℕ) → List (List ℕ)
  pair_up [] = []
  pair_up (a ∷ []) = join a a ∷ []
  pair_up (a ∷ b ∷ level) = join a b ∷ pair_up level

  -- `none` is the panic at an empty list, or the end of the fuel.
  unfoldable pub reduce : ℕ → List (List ℕ) → Option (List ℕ)
  reduce fuel [] = none
  reduce fuel (a ∷ []) = some a
  reduce zero (a ∷ b ∷ level) = none
  reduce (suc fuel) (a ∷ b ∷ level) = reduce fuel (pair_up (a ∷ b ∷ level))

  unfoldable pub merkle_root_from_leaves : List (List ℕ) → Option (List ℕ)
  merkle_root_from_leaves leaves = reduce (length leaves) leaves

  unfoldable pub leaves_of : List Transaction → List (List ℕ)
  leaves_of [] = []
  leaves_of (tx ∷ txs) = (Ledger.id c tx).bytes ∷ leaves_of txs

  unfoldable pub merkle_root : List Transaction → Option (List ℕ)
  merkle_root [] = some (replicate 32 0)
  merkle_root (tx ∷ txs) = merkle_root_from_leaves (leaves_of (tx ∷ txs))

  -- What a level adds to the path, from the pair at `pos` on.
  unfoldable pub push_siblings : ℕ → ℕ → ℕ → List (List ℕ) → List (List ℕ)
  push_siblings idx count pos [] = []
  push_siblings idx count pos (a ∷ []) = if idx == count - 1 && idx / 2 == pos then a ∷ [] else []
  push_siblings idx count pos (a ∷ b ∷ level) =
      let later = push_siblings idx count (pos + 1) level in
      if idx / 2 == pos then (if idx % 2 == 0 then b else a) ∷ later else later

  unfoldable pub climb : ℕ → ℕ → List (List ℕ) → Option (List (List ℕ))
  climb fuel idx [] = some []
  climb fuel idx (a ∷ []) = some []
  climb zero idx (a ∷ b ∷ level) = none
  climb (suc fuel) idx (a ∷ b ∷ level) = elim (climb fuel (idx / 2) (pair_up (a ∷ b ∷ level))) [
    | none ↦ none
    | some path ↦ some (push_siblings idx (suc (suc (length level))) 0 (a ∷ b ∷ level) ++ path)
  ]

  -- `MerkleProof::verify`, without the comparison.
  unfoldable pub fold_path : List ℕ → ℕ → List (List ℕ) → List ℕ
  fold_path current idx [] = current
  fold_path current idx (sibling ∷ path) =
      fold_path (if idx % 2 == 0 then join current sibling else join sibling current) (idx / 2) path

  unfoldable pub verify : MerkleProof → Bool
  verify p = bytes_eq (fold_path p.tx_id p.index p.path) p.merkle_root

  unfoldable pub generate_merkle_proof : List Transaction → ℕ → Option MerkleProof
  generate_merkle_proof txs index = elim (get_elem? (leaves_of txs) index) [
    | none ↦ none
    | some tx_id ↦ elim (merkle_root_from_leaves (leaves_of txs)) [
      | none ↦ none
      | some root ↦ elim (climb (length txs) index (leaves_of txs)) [
        | none ↦ none
        | some path ↦ some (record {
          tx_id = tx_id;
          merkle_root = root;
          path = path;
          index = index;
          tx_count = length txs;
        })
      ]
    ]
  ]
