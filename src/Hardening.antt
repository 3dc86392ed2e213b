-- ===== src/Hardening.antt =====
-- crates/kovanica-node/src/p2p_hardening.rs: the rate limits, the duplicates, the scores and the bans
-- of peers. Reading and writing the ban list is not modelled; whether there is a path for it is.
pub mod Peers
pub mod Bans
pub mod Limiter
pub mod Scores
use kovanica_node.Common.{
  ℕ, ◌+◌, ◌-◌, ◌%◌, ◌^◌, Bool, true, false, not, ◌&&◌, ◌||◌, Option, none, some, List, [], ◌∷◌, ltb,
  leb, ◌==◌, if◌then◌else◌, bytes_eq, bytes_eq_iff, ◌≡◌, ◌↔◌, arith,
}
use kovanica_node.Common.Int.{ℤ, pos, negsuc, ◌+ℤ◌, leb_ℤ, wrap_i32, clamp_ℤ}
use kovanica_node.Common.Map
use kovanica_node.Common.Map.{Map, Eq}
use kovanica_node.Tx.{TxId}
use kovanica_node.Dag.{BlockId}

-- A peer's name, as the bytes of its text.
pub record Peer : Type 0 where
  pub bytes : List ℕ

unfoldable pub peer_eq : Peer → Peer → Bool
peer_eq a b = bytes_eq a.bytes b.bytes

pub peer_eq_iff : (a b : Peer) → (peer_eq a b ≡ true) ↔ (a ≡ b)
unfolding peer_eq
peer_eq_iff a b = (
  λ h. ground (arith, bytes_eq_iff a.bytes b.bytes),
  λ h. ground (arith, bytes_eq_iff a.bytes b.bytes),
)

instance abbrev pub peer_key : Eq Peer
peer_key = record { beq = peer_eq; beq_iff = peer_eq_iff }

pub record P2pHardeningConfig : Type 0 where
  pub max_bytes_per_window : ℕ
  pub rate_window_ticks : ℕ
  pub max_messages_per_window : ℕ
  pub initial_score : ℤ
  pub score_valid_block : ℤ
  pub score_duplicate_block : ℤ
  pub score_valid_tx : ℤ
  pub score_duplicate_tx : ℤ
  pub score_invalid_block : ℤ
  pub score_invalid_tx : ℤ
  pub ban_threshold : ℤ
  pub max_score : ℤ
  pub min_score : ℤ
  pub ban_expiry_ticks : ℕ

abbrev pub default_hardening : P2pHardeningConfig
default_hardening = record {
  max_bytes_per_window = 1000000;
  rate_window_ticks = 100;
  max_messages_per_window = 1000;
  initial_score = pos 0;
  score_valid_block = pos 1;
  score_duplicate_block = negsuc 4;
  score_valid_tx = pos 1;
  score_duplicate_tx = negsuc 1;
  score_invalid_block = negsuc 19;
  score_invalid_tx = negsuc 9;
  ban_threshold = negsuc 49;
  max_score = pos 1000;
  min_score = negsuc 999;
  ban_expiry_ticks = 0;
}

pub record RateLimitState : Type 0 where
  pub bytes_in_window : ℕ
  pub messages_in_window : ℕ
  pub window_start_tick : ℕ

abbrev pub add64 : ℕ → ℕ → ℕ
add64 a b = (a + b) % 2 ^ 64

unfoldable pub reset : ℕ → RateLimitState
reset tick = record { bytes_in_window = 0; messages_in_window = 0; window_start_tick = tick }

-- The state that the limits are checked in.
unfoldable pub refresh : ℕ → P2pHardeningConfig → RateLimitState → RateLimitState
refresh tick config state =
    if leb (add64 state.window_start_tick config.rate_window_ticks) tick then reset tick else state

unfoldable pub over_limit : ℕ → ℕ → Bool
over_limit limit n = ltb 0 limit && ltb limit n

unfoldable pub consume : P2pHardeningConfig → ℕ → RateLimitState → RateLimitState × Bool
consume config bytes state =
    if over_limit config.max_bytes_per_window (add64 state.bytes_in_window bytes)
    then (state, false)
    else if over_limit config.max_messages_per_window (add64 state.messages_in_window 1)
    then (state, false)
    else (
      record state {
        bytes_in_window = add64 state.bytes_in_window bytes;
        messages_in_window = add64 state.messages_in_window 1;
      },
      true,
    )

unfoldable pub check_and_consume :
    ℕ → P2pHardeningConfig → ℕ → RateLimitState → RateLimitState × Bool
check_and_consume tick config bytes state = consume config bytes (refresh tick config state)

-- The ticks at which a block or transaction was seen.
pub record DuplicateState : Type 0 where
  pub known_blocks : Map (List ℕ) ℕ
  pub known_txs : Map (List ℕ) ℕ

instance abbrev pub digest_key : Eq (List ℕ)
digest_key = record { beq = bytes_eq; beq_iff = bytes_eq_iff }

abbrev pub is_none : {A : Type 0} → Option A → Bool
is_none none = true
is_none (some _) = false

unfoldable pub is_new_block : BlockId → ℕ → DuplicateState → DuplicateState × Bool
is_new_block id tick state = (
  record state { known_blocks = Map.insert id.bytes tick state.known_blocks },
  is_none (Map.get id.bytes state.known_blocks),
)

unfoldable pub is_new_tx : TxId → ℕ → DuplicateState → DuplicateState × Bool
is_new_tx id tick state = (
  record state { known_txs = Map.insert id.bytes tick state.known_txs },
  is_none (Map.get id.bytes state.known_txs),
)

-- `retain` of the entries that are younger than `max_age`.
unfoldable pub retain_young : ℕ → ℕ → Map (List ℕ) ℕ → Map (List ℕ) ℕ
retain_young tick max_age [] = []
retain_young tick max_age ((id, seen) ∷ known) =
    let rest = retain_young tick max_age known in
    if ltb ((tick + 2 ^ 64 - seen % 2 ^ 64) % 2 ^ 64) max_age then (id, seen) ∷ rest else rest

unfoldable pub prune : ℕ → ℕ → DuplicateState → DuplicateState
prune tick max_age state = record {
  known_blocks = retain_young tick max_age state.known_blocks;
  known_txs = retain_young tick max_age state.known_txs;
}

pub record ScoreState : Type 0 where
  pub score : ℤ
  pub total_valid_blocks : ℕ
  pub total_duplicate_blocks : ℕ
  pub total_valid_txs : ℕ
  pub total_duplicate_txs : ℕ
  pub total_invalid_blocks : ℕ
  pub total_invalid_txs : ℕ
  pub banned : Bool
  pub banned_until : Option ℕ

unfoldable pub new_score : ℤ → ScoreState
new_score initial = record {
  score = initial;
  total_valid_blocks = 0;
  total_duplicate_blocks = 0;
  total_valid_txs = 0;
  total_duplicate_txs = 0;
  total_invalid_blocks = 0;
  total_invalid_txs = 0;
  banned = false;
  banned_until = none;
}

unfoldable pub apply : ℤ → P2pHardeningConfig → ScoreState → ScoreState
apply delta config state = record state {
  score = clamp_ℤ (wrap_i32 (state.score +ℤ delta)) config.min_score config.max_score;
}

abbrev pub before : ℕ → Option ℕ → Bool
before now none = true
before now (some until) = ltb now until

unfoldable pub score_banned : P2pHardeningConfig → ℕ → ScoreState → Bool
score_banned config now state =
    if leb_ℤ state.score config.ban_threshold
    then true
    else state.banned && before now state.banned_until
