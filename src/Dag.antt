-- ===== src/Dag.antt =====
-- crates/kovanica-dag/src: the block DAG. Identity is block.rs, Mergeset, Store and Insert are
-- dag.rs, Order is ordering.rs, Reachability is reachability.rs, Ghostdag is ghostdag.rs, Pow is
-- pow.rs, Difficulty is difficulty.rs and Vrf is vrf.rs. A look-up `self.nodes[&id]` panics on a
-- block that is not there; `node_at` gives a blank node where the look-up is made of a block that
-- was found before it.
pub mod Identity
pub mod Mergeset
pub mod Ghostdag
pub mod Cluster
pub mod Colouring
pub mod BlueSet
pub mod Merged
pub mod Walk
pub mod TopoSort
pub mod SelectedParent
pub mod Past
pub mod Vrf
pub mod Store
pub mod Wiring
pub mod Admission
pub mod Insert
pub mod Order
pub mod Reachability
pub mod Pow
pub mod Difficulty
use kovanica_node.Common.{
  ℕ, suc, ◌+◌, Bool, true, false, ◌&&◌, not, Option, none, some, List, [], ◌∷◌, ltb, ◌==◌,
  if◌then◌else◌, length, bytes_eq, bytes_lt, bytes_eq_iff, ◌≡◌, ◌↔◌, arith,
}
use kovanica_node.Common.Map
use kovanica_node.Common.Map.{Map, Eq}

pub record BlockId : Type 0 where
  pub bytes : List ℕ

-- `prune_payload` leaves no payload. The VRF fields are the encodings of the third-party types.
pub record Block : Type 0 where
  pub id : BlockId
  pub parents : List BlockId
  pub work : ℕ
  pub timestamp_ms : ℕ
  pub nonce : ℕ
  pub vrf_public_key : Option (List ℕ)
  pub vrf_proof : Option (List ℕ)
  pub vrf_output : Option (List ℕ)
  pub payload : Option (List ℕ)

unfoldable pub block_eq : BlockId → BlockId → Bool
block_eq a b = bytes_eq a.bytes b.bytes

unfoldable pub block_lt : BlockId → BlockId → Bool
block_lt a b = bytes_lt a.bytes b.bytes

pub block_eq_iff : (a b : BlockId) → (block_eq a b ≡ true) ↔ (a ≡ b)
unfolding block_eq
block_eq_iff a b = (
  λ h. ground (arith, bytes_eq_iff a.bytes b.bytes),
  λ h. ground (arith, bytes_eq_iff a.bytes b.bytes),
)

instance abbrev pub block_key : Eq BlockId
block_key = record { beq = block_eq; beq_iff = block_eq_iff }

pub record GhostdagData : Type 0 where
  pub selected_parent : Option BlockId
  pub mergeset_blues : List BlockId
  pub mergeset_reds : List BlockId
  pub blue_score : ℕ
  pub blue_work : ℕ
  pub blue_anticone_sizes : Map BlockId ℕ

pub record Node : Type 0 where
  pub block : Block
  pub past_size : ℕ
  pub children : List BlockId
  pub ghostdag : GhostdagData

abbrev pub Nodes : Type 0
Nodes = Map BlockId Node

abbrev pub genesis_data : GhostdagData
genesis_data = record {
  selected_parent = none;
  mergeset_blues = [];
  mergeset_reds = [];
  blue_score = 0;
  blue_work = 0;
  blue_anticone_sizes = [];
}

abbrev pub blank_block : BlockId → Block
blank_block id = record {
  id = id;
  parents = [];
  work = 0;
  timestamp_ms = 0;
  nonce = 0;
  vrf_public_key = none;
  vrf_proof = none;
  vrf_output = none;
  payload = none;
}

abbrev pub blank_node : BlockId → Node
blank_node id = record {
  block = blank_block id;
  past_size = 0;
  children = [];
  ghostdag = genesis_data;
}

-- `self.nodes[&id]`
abbrev pub node_or : BlockId → Option Node → Node
node_or id none = blank_node id
node_or id (some n) = n

abbrev pub node_at : Nodes → BlockId → Node
node_at nodes id = node_or id (Map.get id nodes)

abbrev pub present : {A : Type 0} → Option A → Bool
present none = false
present (some _) = true

-- `self.nodes.contains_key(&id)`
abbrev pub has_block : Nodes → BlockId → Bool
has_block nodes id = present (Map.get id nodes)

unfoldable pub contains : List BlockId → BlockId → Bool
contains [] x = false
contains (y ∷ ys) x = if block_eq y x then true else contains ys x
