-- ===== src/Dag/Identity.antt =====
-- block.rs: the constructors of a block, and the encoding that its identity is the hash of.
pub mod Preimage
pub mod Lengths
use kovanica_node.Common.{
  ℕ, ◌+◌, ◌*◌, ◌%◌, ◌^◌, Bool, true, false, Option, none, some, List, [], ◌∷◌, ◌++◌, if◌then◌else◌,
  length, flat_map, to_le_bytes, replicate,
}
use kovanica_node.Crypto.{Crypto}
use kovanica_node.Dag.{BlockId, Block, block_eq, block_lt, present}

unfoldable pub insert_id : BlockId → List BlockId → List BlockId
insert_id x [] = x ∷ []
insert_id x (y ∷ ys) = let rest = insert_id x ys in if block_lt y x then y ∷ rest else x ∷ y ∷ ys

-- `sort_unstable`; equal identities cannot be told apart.
unfoldable pub sort_ids : List BlockId → List BlockId
sort_ids [] = []
sort_ids (x ∷ xs) = insert_id x (sort_ids xs)

-- `dedup` keeps the first of a run.
unfoldable pub dedup_after : BlockId → List BlockId → List BlockId
dedup_after x [] = []
dedup_after x (y ∷ ys) =
    let same = dedup_after x ys in
    let other = dedup_after y ys in if block_eq x y then same else y ∷ other

unfoldable pub dedup : List BlockId → List BlockId
dedup [] = []
dedup (x ∷ xs) = x ∷ dedup_after x xs

unfoldable pub payload_of : Block → List ℕ
payload_of block = elim block.payload [ none ↦ [] | some payload ↦ payload ]

unfoldable pub is_pruned : Block → Bool
is_pruned block = elim block.payload [ none ↦ true | some _ ↦ false ]

unfoldable pub prune_payload : Block → Block
prune_payload block = record block { payload = none }

-- A flag byte, and the field behind it.
unfoldable pub flagged : Option (List ℕ) → List ℕ
flagged none = 0 ∷ []
flagged (some field) = 1 ∷ field

-- The hasher reads the pieces one after another.
abbrev pub updates : List (List ℕ) → List ℕ
updates = flat_map (λ (piece : List ℕ). piece)

unfoldable pub vrf_preimage : Option (List ℕ) → Option (List ℕ) → Option (List ℕ) → List ℕ
vrf_preimage none proof output = 0 ∷ []
vrf_preimage (some key) proof output = 1 ∷ updates (key ∷ flagged proof ∷ flagged output ∷ [])

-- What `compute_id` feeds the hasher.
unfoldable pub preimage : Block → List ℕ
preimage block = updates (
    to_le_bytes 8 (length block.parents)
    ∷ flat_map (λ (p : BlockId). p.bytes) block.parents
    ∷ to_le_bytes 16 block.work
    ∷ to_le_bytes 8 block.timestamp_ms
    ∷ to_le_bytes 8 block.nonce
    ∷ vrf_preimage block.vrf_public_key block.vrf_proof block.vrf_output
    ∷ to_le_bytes 8 (length (payload_of block))
    ∷ payload_of block
    ∷ [])

-- The length that `encoded_len` allots to the VRF fields.
unfoldable pub vrf_len : Block → ℕ
vrf_len block =
    if present block.vrf_public_key
    then 32
      + 1
      + (if present block.vrf_proof then 96 else 0)
      + 1
      + (if present block.vrf_output then 32 else 0)
    else 0

unfoldable pub encoded_len : Block → ℕ
encoded_len block =
    32
    + 8
    + length block.parents * 32
    + 16
    + 8
    + 8
    + 1
    + vrf_len block
    + 8
    + length (payload_of block)

-- A block before its identity is set.
abbrev pub assemble :
    List BlockId
    → ℕ
    → ℕ
    → ℕ
    → Option (List ℕ)
    → Option (List ℕ)
    → Option (List ℕ)
    → Option (List ℕ)
    → Block
assemble parents work timestamp_ms nonce key proof output payload = record {
  id = record { bytes = replicate 32 0 };
  parents = parents;
  work = work;
  timestamp_ms = timestamp_ms;
  nonce = nonce;
  vrf_public_key = key;
  vrf_proof = proof;
  vrf_output = output;
  payload = payload;
}

module _ (crypto : Crypto) where
  unfoldable pub compute_id : Block → BlockId
  compute_id block = record { bytes = crypto.blake3 (preimage block) }

  abbrev pub with_id : Block → Block
  with_id block = record block { id = compute_id block }

  unfoldable pub new_with_vrf : List BlockId → ℕ → ℕ → ℕ → List ℕ → List ℕ → List ℕ → List ℕ → Block
  new_with_vrf parents work timestamp_ms nonce key proof output payload = with_id (
      assemble (dedup (sort_ids parents)) work timestamp_ms nonce (some key) (some proof)
        (some output) (some payload))

  unfoldable pub new : List BlockId → ℕ → ℕ → ℕ → List ℕ → Block
  new parents work timestamp_ms nonce payload =
      with_id
        (assemble (dedup (sort_ids parents)) work timestamp_ms nonce none none none (some payload))

  unfoldable pub genesis : ℕ → ℕ → ℕ → List ℕ → Block
  genesis work timestamp_ms nonce payload =
      with_id (assemble [] work timestamp_ms nonce none none none (some payload))

  unfoldable pub with_nonce : Block → ℕ → Block
  with_nonce block nonce = with_id (record block { nonce = nonce })

unfoldable pub new_pruned_with_vrf :
    List BlockId → ℕ → ℕ → ℕ → Option (List ℕ) → Option (List ℕ) → Option (List ℕ) → BlockId → Block
new_pruned_with_vrf parents work timestamp_ms nonce key proof output id =
    record (assemble (dedup (sort_ids parents)) work timestamp_ms nonce key proof output none) {
      id = id;
    }

unfoldable pub new_pruned : List BlockId → ℕ → ℕ → ℕ → BlockId → Block
new_pruned parents work timestamp_ms nonce id =
    record (assemble (dedup (sort_ids parents)) work timestamp_ms nonce none none none none) {
      id = id;
    }

unfoldable pub genesis_pruned : ℕ → ℕ → ℕ → BlockId → Block
genesis_pruned work timestamp_ms nonce id =
    record (assemble [] work timestamp_ms nonce none none none none) { id = id }
