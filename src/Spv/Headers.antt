-- ===== src/Spv/Headers.antt =====
-- spv.rs: `BlockHeader` with its checks, and `SpvClient`.
pub mod Chain
pub mod Refinement
use kovanica_node.Common.{
  ℕ, zero, suc, ◌+◌, ◌-◌, ◌%◌, ◌^◌, Bool, true, false, ◌&&◌, not, Option, none, some, List, [], ◌∷◌,
  ◌++◌, map, Result, ok, err, ltb, leb, ◌==◌, if◌then◌else◌, length, drop, bytes_eq,
}
use kovanica_node.Common.Map
use kovanica_node.Common.Map.{Map, nat_eq}
use kovanica_node.Crypto.{Crypto}
use kovanica_node.Tx.{Transaction}
use kovanica_node.Dag.{BlockId, Block, block_eq}
use kovanica_node.Dag.Difficulty.{TimedWork, Retarget, next_work}
use kovanica_node.Dag.Pow.{meets_target}
use kovanica_node.Spv.Merkle.{MerkleProof, merkle_root, verify}

pub record BlockHeader : Type 0 where
  pub id : BlockId
  pub prev_hash : BlockId
  pub merkle_root : List ℕ
  pub work : ℕ
  pub timestamp_ms : ℕ
  pub nonce : ℕ
  pub blue_score : ℕ
  pub chain_blue_work : ℕ
  pub height : ℕ

-- `none` is the fuel of the Merkle root.
unfoldable pub from_block :
    Crypto → Block → BlockId → ℕ → ℕ → ℕ → List Transaction → Option BlockHeader
from_block c block prev_hash blue_score chain_blue_work height txs = elim (merkle_root c txs) [
  | none ↦ none
  | some root ↦ some (record {
    id = block.id;
    prev_hash = prev_hash;
    merkle_root = root;
    work = block.work;
    timestamp_ms = block.timestamp_ms;
    nonce = block.nonce;
    blue_score = blue_score;
    chain_blue_work = chain_blue_work;
    height = height;
  })
]

unfoldable pub verify_pow : BlockHeader → Bool → Bool
verify_pow h require_pow = if not require_pow then true else meets_target h.id h.work

abbrev pub sample_of : BlockHeader → TimedWork
sample_of h = record { timestamp_ms = h.timestamp_ms; work = h.work }

-- `retarget.window + 1`
abbrev pub needed : Retarget → ℕ
needed retarget = (retarget.window + 1) % 2 ^ 64

unfoldable pub verify_difficulty : BlockHeader → Retarget → List BlockHeader → Bool
verify_difficulty h retarget prev_headers =
    if ltb (length prev_headers) (needed retarget)
    then leb retarget.min_work h.work
    else h.work == next_work retarget (map sample_of prev_headers)

unfoldable pub check_retarget : Option Retarget → BlockHeader → List BlockHeader → Bool
check_retarget none h prev_headers = true
check_retarget (some retarget) h prev_headers = verify_difficulty h retarget prev_headers

-- The last headers of the slice, `window + 1` at most.
unfoldable pub slice_window : Option Retarget → List BlockHeader → List BlockHeader
slice_window none headers = []
slice_window (some retarget) headers =
    if ltb (needed retarget) (length headers)
    then drop (length headers - needed retarget) headers
    else headers

-- A round of the loop of `verify_chain`, after `prev`.
unfoldable pub verify_link :
    Bool → Option Retarget → List BlockHeader → BlockHeader → BlockHeader → Bool
verify_link require_pow retarget headers prev h =
    if not (block_eq h.prev_hash prev.id)
    then false
    else if not (h.height == (prev.height + 1) % 2 ^ 64)
    then false
    else if ltb h.timestamp_ms prev.timestamp_ms
    then false
    else if leb h.chain_blue_work prev.chain_blue_work
    then false
    else if not (verify_pow h require_pow)
    then false
    else check_retarget retarget h (slice_window retarget headers)

unfoldable pub verify_links :
    Bool → Option Retarget → List BlockHeader → BlockHeader → List BlockHeader → Bool
verify_links require_pow retarget headers prev [] = true
verify_links require_pow retarget headers prev (h ∷ rest) =
    let later = verify_links require_pow retarget headers h rest in
    if verify_link require_pow retarget headers prev h then later else false

unfoldable pub last_is : BlockId → List BlockHeader → Bool
last_is id [] = false
last_is id (h ∷ []) = block_eq h.id id
last_is id (h ∷ g ∷ rest) = last_is id (g ∷ rest)

unfoldable pub verify_chain :
    BlockHeader → BlockHeader → List BlockHeader → Bool → Option Retarget → Bool
verify_chain self trusted headers require_pow retarget =
    if leb self.chain_blue_work trusted.chain_blue_work
    then false
    else if leb self.height trusted.height
    then false
    else if verify_links require_pow retarget headers trusted headers
    then last_is self.id headers
    else false

pub data SpvError : Type 0 where
  no_checkpoint height_mismatch prev_hash_mismatch timestamp_not_monotonic : SpvError
  work_not_increasing insufficient_pow difficulty_mismatch : SpvError

pub record SpvClient : Type 0 where
  pub headers : Map ℕ BlockHeader
  pub tip : Option BlockHeader
  pub checkpoint : Option BlockHeader
  pub require_pow : Bool
  pub retarget : Option Retarget

unfoldable pub new : BlockHeader → Bool → Option Retarget → SpvClient
new checkpoint require_pow retarget = record {
  headers = Map.insert checkpoint.height checkpoint [];
  tip = some checkpoint;
  checkpoint = some checkpoint;
  require_pow = require_pow;
  retarget = retarget;
}

-- The loop that collects the window, newest first: at most `left` headers from the height down.
unfoldable pub collect : Map ℕ BlockHeader → ℕ → ℕ → List BlockHeader
collect headers height zero = []
collect headers zero (suc left) = elim (Map.get 0 headers) [ none ↦ [] | some h ↦ h ∷ [] ]
collect headers (suc height) (suc left) = elim (Map.get (suc height) headers) [
  | none ↦ collect headers height (suc left)
  | some h ↦ h ∷ collect headers height left
]

unfoldable pub reverse_headers : List BlockHeader → List BlockHeader
reverse_headers [] = []
reverse_headers (h ∷ headers) = reverse_headers headers ++ h ∷ []

unfoldable pub client_window : SpvClient → BlockHeader → List BlockHeader
client_window client tip = elim client.retarget [
  | none ↦ []
  | some retarget ↦ reverse_headers (collect client.headers tip.height (needed retarget))
]

unfoldable pub check_header : SpvClient → BlockHeader → BlockHeader → Result SpvError (Unit {0})
check_header client tip header =
    if not (header.height == (tip.height + 1) % 2 ^ 64)
    then err height_mismatch
    else if not (block_eq header.prev_hash tip.id)
    then err prev_hash_mismatch
    else if ltb header.timestamp_ms tip.timestamp_ms
    then err timestamp_not_monotonic
    else if leb header.chain_blue_work tip.chain_blue_work
    then err work_not_increasing
    else if not (verify_pow header client.require_pow)
    then err insufficient_pow
    else if not (check_retarget client.retarget header (client_window client tip))
    then err difficulty_mismatch
    else ok tt

unfoldable pub add_header : SpvClient → BlockHeader → Result SpvError (SpvClient × Bool)
add_header client header = elim client.tip [
  | none ↦ err no_checkpoint
  | some tip ↦ elim (check_header client tip header) [
    | err e ↦ err e
    | ok _ ↦ ok (
      record client { headers = Map.insert header.height header client.headers; tip = some header },
      true,
    )
  ]
]

unfoldable pub verify_tx_inclusion : Crypto → SpvClient → MerkleProof → ℕ → Bool
verify_tx_inclusion c client proof height = elim (Map.get height client.headers) [
  | none ↦ false
  | some header ↦ bytes_eq proof.merkle_root header.merkle_root && verify c proof
]

unfoldable pub chain_work : SpvClient → ℕ
chain_work client = elim client.tip [ none ↦ 0 | some tip ↦ tip.chain_blue_work ]
