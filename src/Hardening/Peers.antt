-- ===== src/Hardening/Peers.antt =====
-- p2p_hardening.rs: the operations of `P2pHardening` over the states of its peers.
use kovanica_node.Common.{
  ℕ, ◌%◌, Bool, true, false, ◌&&◌, Option, none, some, List, [], ◌∷◌, leb, ◌==◌, if◌then◌else◌,
}
use kovanica_node.Common.Map
use kovanica_node.Common.Map.{Map}
use kovanica_node.Common.Words.{u64_max, saturating_add}
use kovanica_node.Tx.{TxId}
use kovanica_node.Dag.{BlockId}
use kovanica_node.Hardening.{
  Peer, peer_key, P2pHardeningConfig, RateLimitState, DuplicateState, ScoreState, add64,
  check_and_consume, is_new_block, is_new_tx, prune, new_score, apply, score_banned,
}

pub record P2pHardening : Type 0 where
  pub config : P2pHardeningConfig
  pub rate_limits : Map Peer RateLimitState
  pub duplicates : Map Peer DuplicateState
  pub scores : Map Peer ScoreState
  pub tick : ℕ
  pub bans_path : Option (List ℕ)

unfoldable pub new : P2pHardeningConfig → P2pHardening
new config = record {
  config = config;
  rate_limits = [];
  duplicates = [];
  scores = [];
  tick = 0;
  bans_path = none;
}

unfoldable pub map_values {ℓ} : {V : Type ℓ} → (V → V) → Map Peer V → Map Peer V
map_values f [] = []
map_values f ((peer, v) ∷ entries) = (peer, f v) ∷ map_values f entries

-- A ban that has run out is lifted.
unfoldable pub lift_expired : ℕ → ScoreState → ScoreState
lift_expired tick state = elim state.banned_until [
  | none ↦ state
  | some until ↦
      if state.banned && leb until tick
      then record state { banned = false; banned_until = none }
      else state
]

unfoldable pub tick_scores : Option (List ℕ) → ℕ → Map Peer ScoreState → Map Peer ScoreState
tick_scores none tick scores = scores
tick_scores (some _) tick scores = map_values (lift_expired tick) scores

unfoldable pub tick : P2pHardening → P2pHardening
tick h =
    let now = saturating_add u64_max h.tick 1 in
    record h {
      tick = now;
      duplicates =
          if now % 1000 == 0 then map_values (prune now 10000) h.duplicates else h.duplicates;
      scores = tick_scores h.bans_path now h.scores;
    }

-- `entry(peer).or_insert(v)`
unfoldable pub or_insert {ℓ} : {V : Type ℓ} → Peer → V → Map Peer V → Map Peer V
or_insert peer v entries = elim (Map.get peer entries) [
  | none ↦ Map.insert peer v entries
  | some _ ↦ entries
]

abbrev pub value_or {ℓ} : {V : Type ℓ} → V → Option V → V
value_or v none = v
value_or v (some w) = w

abbrev pub no_rate : RateLimitState
no_rate = record { bytes_in_window = 0; messages_in_window = 0; window_start_tick = 0 }

abbrev pub no_duplicates : DuplicateState
no_duplicates = record { known_blocks = []; known_txs = [] }

unfoldable pub ensure_peer : Peer → P2pHardening → P2pHardening
ensure_peer peer h = record h {
  rate_limits = or_insert peer no_rate h.rate_limits;
  duplicates = or_insert peer no_duplicates h.duplicates;
  scores = or_insert peer (new_score h.config.initial_score) h.scores;
}

-- The states that `ensure_peer` leaves for the peer.
unfoldable pub rate_of : Peer → P2pHardening → RateLimitState
rate_of peer h = value_or no_rate (Map.get peer h.rate_limits)

unfoldable pub duplicates_of : Peer → P2pHardening → DuplicateState
duplicates_of peer h = value_or no_duplicates (Map.get peer h.duplicates)

unfoldable pub score_of : Peer → P2pHardening → ScoreState
score_of peer h = value_or (new_score h.config.initial_score) (Map.get peer h.scores)

unfoldable pub set_score : Peer → ScoreState → P2pHardening → P2pHardening
set_score peer state h = record h { scores = Map.insert peer state h.scores }

unfoldable pub check_rate_limit : Peer → ℕ → P2pHardening → P2pHardening × Bool
check_rate_limit peer bytes h =
    let g = ensure_peer peer h in
    let (state, allowed) = check_and_consume g.tick g.config bytes (rate_of peer g) in
    (record g { rate_limits = Map.insert peer state g.rate_limits }, allowed)

unfoldable pub rate_invalid_block : P2pHardeningConfig → ScoreState → ScoreState
rate_invalid_block config s =
    apply config.score_invalid_block config
      (record s { total_invalid_blocks = add64 s.total_invalid_blocks 1 })

unfoldable pub rate_block : P2pHardeningConfig → Bool → ScoreState → ScoreState
rate_block config true s =
    apply config.score_valid_block config
      (record s { total_valid_blocks = add64 s.total_valid_blocks 1 })
rate_block config false s =
    apply config.score_duplicate_block config
      (record s { total_duplicate_blocks = add64 s.total_duplicate_blocks 1 })

unfoldable pub on_block : Peer → BlockId → Bool → P2pHardening → P2pHardening × (Bool × Bool)
on_block peer id false h =
    let g = ensure_peer peer h in
    let s = rate_invalid_block g.config (score_of peer g) in
    (set_score peer s g, (false, score_banned g.config g.tick s))
on_block peer id true h =
    let g = ensure_peer peer h in
    let (known, is_new) = is_new_block id g.tick (duplicates_of peer g) in
    let s = rate_block g.config is_new (score_of peer g) in
    (
      set_score peer s (record g { duplicates = Map.insert peer known g.duplicates }),
      (is_new, score_banned g.config g.tick s),
    )

unfoldable pub rate_invalid_tx : P2pHardeningConfig → ScoreState → ScoreState
rate_invalid_tx config s =
    apply config.score_invalid_tx config
      (record s { total_invalid_txs = add64 s.total_invalid_txs 1 })

unfoldable pub rate_tx : P2pHardeningConfig → Bool → ScoreState → ScoreState
rate_tx config true s =
    apply config.score_valid_tx config (record s { total_valid_txs = add64 s.total_valid_txs 1 })
rate_tx config false s =
    apply config.score_duplicate_tx config
      (record s { total_duplicate_txs = add64 s.total_duplicate_txs 1 })

unfoldable pub on_tx : Peer → TxId → Bool → P2pHardening → P2pHardening × (Bool × Bool)
on_tx peer id false h =
    let g = ensure_peer peer h in
    let s = rate_invalid_tx g.config (score_of peer g) in
    (set_score peer s g, (false, score_banned g.config g.tick s))
on_tx peer id true h =
    let g = ensure_peer peer h in
    let (known, is_new) = is_new_tx id g.tick (duplicates_of peer g) in
    let s = rate_tx g.config is_new (score_of peer g) in
    (
      set_score peer s (record g { duplicates = Map.insert peer known g.duplicates }),
      (is_new, score_banned g.config g.tick s),
    )

unfoldable pub is_banned : Peer → P2pHardening → Bool
is_banned peer h = elim (Map.get peer h.scores) [
  | none ↦ false
  | some state ↦ score_banned h.config h.tick state
]

unfoldable pub ban_for : Peer → ℕ → P2pHardening → P2pHardening
ban_for peer expiry_ticks h =
    let g = ensure_peer peer h in
    set_score peer
      (record (score_of peer g) {
        banned = true;
        banned_until =
            if expiry_ticks == 0 then none else some (saturating_add u64_max g.tick expiry_ticks);
      })
      g

unfoldable pub ban : Peer → P2pHardening → P2pHardening
ban peer h = ban_for peer h.config.ban_expiry_ticks h

unfoldable pub unban : Peer → P2pHardening → P2pHardening
unban peer h =
    set_score peer
      (record (score_of peer h) {
        banned = false;
        banned_until = none;
        score = h.config.initial_score;
      })
      h
