-- ===== src/Hardening/Scores.antt =====
-- Scores stay in the range of the configuration.
use kovanica_node.Common.{
  ℕ, ◌≡◌, refl, sym, subst, Bool, true, false, Option, none, some, List, [], ◌∷◌, inl, inr,
  Option-cases, Bool-cases, arith,
}
use kovanica_node.Common.Int.{ℤ, ◌+ℤ◌, ◌≤ℤ◌, wrap_i32, clamp_ℤ_bounds}
use kovanica_node.Common.Map
use kovanica_node.Common.Map.{Map, get-insert}
use kovanica_node.Tx.{TxId}
use kovanica_node.Dag.{BlockId}
use kovanica_node.Hardening.{
  Peer, peer_key, P2pHardeningConfig, ScoreState, new_score, apply, is_new_block, is_new_tx,
}
use kovanica_node.Hardening.Peers.{
  P2pHardening, new, map_values, lift_expired, tick_scores, tick, or_insert, ensure_peer, score_of,
  set_score, check_rate_limit, on_block, on_tx, rate_invalid_block, rate_block, rate_invalid_tx,
  rate_tx, ban_for, unban, duplicates_of,
}

pub record IsSound (config : P2pHardeningConfig) : Type 0 where
  pub above : config.min_score ≤ℤ config.initial_score
  pub below : config.initial_score ≤ℤ config.max_score

module _ (config : P2pHardeningConfig) (sound : IsSound config) where
  abbrev pub InRange : ℤ → Type 0
  InRange score = (config.min_score ≤ℤ score) × (score ≤ℤ config.max_score)

  pub record IsScored (h : P2pHardening) : Type 0 where
    pub same : h.config ≡ config
    pub ranged : (peer : Peer) (s : ScoreState) → Map.get peer h.scores ≡ some s → InRange s.score

  initial-InRange : InRange config.initial_score
  initial-InRange = (sound.above, sound.below)

  insert-ranged :
      (peer : Peer) (fresh : ScoreState) (scores : Map Peer ScoreState)
      → InRange fresh.score
      → ((j : Peer) (s : ScoreState) → Map.get j scores ≡ some s → InRange s.score)
      → (j : Peer) (s : ScoreState) → Map.get j (Map.insert peer fresh scores) ≡ some s
      → InRange s.score
  insert-ranged peer fresh scores r all j s h = elim (Bool-cases (peer_key.beq peer j)) [
    | inl same ↦
        let e : fresh ≡ s = ground (arith, same, h, get-insert j peer fresh scores) in
        subst (λ (t : ScoreState). InRange t.score) e r
    | inr other ↦ all j s (ground (arith, other, h, get-insert j peer fresh scores))
  ]

  set_score-IsScored :
      (peer : Peer) (s : ScoreState) (h : P2pHardening)
      → InRange s.score
      → IsScored h
      → IsScored (set_score peer s h)
  unfolding set_score
  set_score-IsScored peer s h r k = record {
    same = k.same;
    ranged = insert-ranged peer s h.scores r k.ranged;
  }

  score_of-InRange : (peer : Peer) (h : P2pHardening) → IsScored h → InRange (score_of peer h).score
  unfolding score_of new_score
  score_of-InRange peer h k = elim (Option-cases (Map.get peer h.scores)) [
    | inl e ↦ rw (e, score_of) (rw k.same initial-InRange)
    | inr (s, e) ↦ rw (e, score_of) (k.ranged peer s e)
  ]

  ensure_peer-IsScored :
      (peer : Peer) (h : P2pHardening) → IsScored h → IsScored (ensure_peer peer h)
  unfolding ensure_peer or_insert new_score
  ensure_peer-IsScored peer h k = elim (Option-cases (Map.get peer h.scores)) [
    | inl e ↦ record {
      same = k.same;
      ranged =
          rw (e, or_insert)
            (insert-ranged peer (new_score h.config.initial_score) h.scores
              (rw k.same initial-InRange) k.ranged);
    }
    | inr (s, e) ↦ record { same = k.same; ranged = rw (e, or_insert) k.ranged }
  ]

  apply-InRange : (delta : ℤ) (s : ScoreState) → InRange (apply delta config s).score
  unfolding apply
  apply-InRange delta s =
      clamp_ℤ_bounds (wrap_i32 (s.score +ℤ delta)) config.min_score config.max_score
        (omega (arith, sound.above, sound.below))

  rate_block-InRange : (is_new : Bool) (s : ScoreState) → InRange (rate_block config is_new s).score
  unfolding rate_block
  rate_block-InRange true s = apply-InRange config.score_valid_block _
  rate_block-InRange false s = apply-InRange config.score_duplicate_block _

  rate_tx-InRange : (is_new : Bool) (s : ScoreState) → InRange (rate_tx config is_new s).score
  unfolding rate_tx
  rate_tx-InRange true s = apply-InRange config.score_valid_tx _
  rate_tx-InRange false s = apply-InRange config.score_duplicate_tx _

  -- Every peer's new score is computed under the one configuration.
  rated :
      (c : P2pHardeningConfig) (f : P2pHardeningConfig → ScoreState)
      → c ≡ config
      → InRange (f config).score
      → InRange (f c).score
  rated c f e r = subst (λ (d : P2pHardeningConfig). InRange (f d).score) (sym e) r

  on_block-IsScored :
      (peer : Peer) (id : BlockId) (valid : Bool) (h : P2pHardening)
      → IsScored h
      → IsScored (on_block peer id valid h).0
  unfolding on_block
  on_block-IsScored peer id false h k =
      let g = ensure_peer peer h in
      let kg = ensure_peer-IsScored peer h k in
      set_score-IsScored peer (rate_invalid_block g.config (score_of peer g)) g
        (rated g.config (λ c. rate_invalid_block c (score_of peer g)) kg.same
          (unfold rate_invalid_block in apply-InRange config.score_invalid_block _))
        kg
  on_block-IsScored peer id true h k =
      let g = ensure_peer peer h in
      let kg = ensure_peer-IsScored peer h k in
      let (known, is_new) = is_new_block id g.tick (duplicates_of peer g) in
      set_score-IsScored peer (rate_block g.config is_new (score_of peer g))
        (record g { duplicates = Map.insert peer known g.duplicates })
        (rated g.config (λ c. rate_block c is_new (score_of peer g)) kg.same
          (rate_block-InRange is_new (score_of peer g)))
        (record { same = kg.same; ranged = kg.ranged })

  on_tx-IsScored :
      (peer : Peer) (id : TxId) (valid : Bool) (h : P2pHardening)
      → IsScored h
      → IsScored (on_tx peer id valid h).0
  unfolding on_tx
  on_tx-IsScored peer id false h k =
      let g = ensure_peer peer h in
      let kg = ensure_peer-IsScored peer h k in
      set_score-IsScored peer (rate_invalid_tx g.config (score_of peer g)) g
        (rated g.config (λ c. rate_invalid_tx c (score_of peer g)) kg.same
          (unfold rate_invalid_tx in apply-InRange config.score_invalid_tx _))
        kg
  on_tx-IsScored peer id true h k =
      let g = ensure_peer peer h in
      let kg = ensure_peer-IsScored peer h k in
      let (known, is_new) = is_new_tx id g.tick (duplicates_of peer g) in
      set_score-IsScored peer (rate_tx g.config is_new (score_of peer g))
        (record g { duplicates = Map.insert peer known g.duplicates })
        (rated g.config (λ c. rate_tx c is_new (score_of peer g)) kg.same
          (rate_tx-InRange is_new (score_of peer g)))
        (record { same = kg.same; ranged = kg.ranged })

  ban_for-IsScored :
      (peer : Peer) (n : ℕ) (h : P2pHardening) → IsScored h → IsScored (ban_for peer n h)
  unfolding ban_for
  ban_for-IsScored peer n h k =
      let kg = ensure_peer-IsScored peer h k in
      set_score-IsScored peer _ (ensure_peer peer h) (score_of-InRange peer (ensure_peer peer h) kg)
        kg

  unban-IsScored : (peer : Peer) (h : P2pHardening) → IsScored h → IsScored (unban peer h)
  unfolding unban
  unban-IsScored peer h k = set_score-IsScored peer _ h (rw k.same initial-InRange) k

  check_rate_limit-IsScored :
      (peer : Peer) (bytes : ℕ) (h : P2pHardening)
      → IsScored h
      → IsScored (check_rate_limit peer bytes h).0
  unfolding check_rate_limit
  check_rate_limit-IsScored peer bytes h k =
      let kg = ensure_peer-IsScored peer h k in record { same = kg.same; ranged = kg.ranged }

  get-map_values_inv :
      (f : ScoreState → ScoreState) (peer : Peer) (s : ScoreState) (scores : Map Peer ScoreState)
      → Map.get peer (map_values f scores) ≡ some s
      → (t : ScoreState) × (Map.get peer scores ≡ some t) × (f t ≡ s)
  unfolding map_values Map.get
  get-map_values_inv f peer s [] h = cc
  get-map_values_inv f peer s ((j, t) ∷ scores) h = elim (Bool-cases (peer_key.beq j peer)) [
    | inl same ↦ (t, ground (arith, same), ground (arith, same, h))
    | inr other ↦
        let (u, here, e) = get-map_values_inv f peer s scores (ground (arith, other, h)) in
        (u, ground (arith, other, here), e)
  ]

  lifted-score : (now : ℕ) (s : ScoreState) → (lift_expired now s).score ≡ s.score
  unfolding lift_expired
  lifted-score now s = ground arith

  tick_scores-ranged :
      (path : Option (List ℕ)) (now : ℕ) (scores : Map Peer ScoreState)
      → ((j : Peer) (s : ScoreState) → Map.get j scores ≡ some s → InRange s.score)
      → (j : Peer) (s : ScoreState) → Map.get j (tick_scores path now scores) ≡ some s
      → InRange s.score
  unfolding tick_scores
  tick_scores-ranged none now scores all j s h = all j s h
  tick_scores-ranged (some p) now scores all j s h =
      let (t, here, e) = get-map_values_inv (lift_expired now) j s scores h in
      rw (← e) (rw (lifted-score now t) (all j t here))

  tick-IsScored : (h : P2pHardening) → IsScored h → IsScored (tick h)
  unfolding tick
  tick-IsScored h k = record {
    same = k.same;
    ranged = tick_scores-ranged h.bans_path _ h.scores k.ranged;
  }

  -- The states that calls lead to from the first one, under the one configuration.
  pub data Reachable : P2pHardening → Type 0 where
    start : Reachable (new config)
    sets_path :
        {h : P2pHardening} (path : List ℕ)
        → Reachable h
        → Reachable (record h { bans_path = some path })
    ticks : {h : P2pHardening} → Reachable h → Reachable (tick h)
    limits :
        {h : P2pHardening} (peer : Peer) (bytes : ℕ)
        → Reachable h
        → Reachable ((check_rate_limit peer bytes h).0)
    blocks :
        {h : P2pHardening} (peer : Peer) (id : BlockId) (valid : Bool)
        → Reachable h
        → Reachable ((on_block peer id valid h).0)
    txs :
        {h : P2pHardening} (peer : Peer) (id : TxId) (valid : Bool)
        → Reachable h
        → Reachable ((on_tx peer id valid h).0)
    bans :
        {h : P2pHardening} (peer : Peer) (expiry_ticks : ℕ)
        → Reachable h
        → Reachable (ban_for peer expiry_ticks h)
    unbans : {h : P2pHardening} (peer : Peer) → Reachable h → Reachable (unban peer h)

  new-IsScored : IsScored (new config)
  unfolding new Map.get
  new-IsScored = record { same = refl; ranged = λ j s h. cc }

  -- In every state that calls lead to, each peer's score lies between the lowest and the highest of
  -- the configuration, if the initial score does, whatever was received, and also where a sum wraps.
  pub Reachable-IsScored : (h : P2pHardening) → Reachable h → IsScored h
  Reachable-IsScored _ start = new-IsScored
  Reachable-IsScored _ (sets_path {h} path r) =
      let k = Reachable-IsScored h r in record { same = k.same; ranged = k.ranged }
  Reachable-IsScored _ (ticks {h} r) = tick-IsScored h (Reachable-IsScored h r)
  Reachable-IsScored _ (limits {h} peer bytes r) =
      check_rate_limit-IsScored peer bytes h (Reachable-IsScored h r)
  Reachable-IsScored _ (blocks {h} peer id valid r) =
      on_block-IsScored peer id valid h (Reachable-IsScored h r)
  Reachable-IsScored _ (txs {h} peer id valid r) =
      on_tx-IsScored peer id valid h (Reachable-IsScored h r)
  Reachable-IsScored _ (bans {h} peer n r) = ban_for-IsScored peer n h (Reachable-IsScored h r)
  Reachable-IsScored _ (unbans {h} peer r) = unban-IsScored peer h (Reachable-IsScored h r)
