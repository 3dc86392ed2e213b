-- ===== src/Hardening/Bans.antt =====
-- How long a manual ban lasts, and the range of the scores.
use kovanica_node.Common.{
  ℕ, zero, suc, ◌+◌, ◌≤◌, ◌<◌, ◌≡◌, refl, ap, ◌∙◌, subst, true, false, Option, none, some, List, [],
  ◌∷◌, ltb, leb, ◌==◌, if◌then◌else◌, ◌⊎◌, inl, inr, Bool-cases, arith,
}
use kovanica_node.Common.Int.{ℤ, leb_ℤ}
use kovanica_node.Common.Map
use kovanica_node.Common.Map.{Map, get-insert, beq_refl}
use kovanica_node.Common.Words.{u64_max, saturating_add}
use kovanica_node.Hardening.{
  Peer, peer_key, P2pHardeningConfig, ScoreState, before, score_banned, new_score,
}
use kovanica_node.Hardening.Peers.{
  P2pHardening, map_values, lift_expired, tick_scores, tick, or_insert, ensure_peer, score_of,
  set_score, ban_for, is_banned,
}

pub ticks : ℕ → P2pHardening → P2pHardening
ticks zero h = h
ticks (suc k) h = tick (ticks k h)

abbrev Expired : Option ℕ → ℕ → Type 0
Expired none now = ⊥
Expired (some until) now = until ≤ now

-- A peer under a ban until then, at the tick `now`.
record Held (config : P2pHardeningConfig) (peer : Peer) (until : Option ℕ) (score : ℤ) (now : ℕ)
    (h : P2pHardening) : Type 0 where
  pub same : h.config ≡ config
  pub time : h.tick ≡ now
  pub state : ScoreState
  pub stored : Map.get peer h.scores ≡ some state
  pub scored : state.score ≡ score
  pub ban :
      ((state.banned ≡ true) × (state.banned_until ≡ until))
      ⊎ ((state.banned ≡ false) × Expired until now)

get-map_values {ℓ} :
    {V : Type ℓ} (f : V → V) (peer : Peer) (v : V) (entries : Map Peer V)
    → Map.get peer entries ≡ some v
    → Map.get peer (map_values f entries) ≡ some (f v)
unfolding map_values Map.get
get-map_values f peer v [] h = cc
get-map_values f peer v ((j, w) ∷ entries) h = elim (Bool-cases (peer_key.beq j peer)) [
  | inl same ↦ ground (arith, same, h)
  | inr other ↦ ground (arith, other, h, get-map_values f peer v entries)
]

lift-score : (now : ℕ) (s : ScoreState) → (lift_expired now s).score ≡ s.score
unfolding lift_expired
lift-score now s = ground arith

lift-ban :
    (now : ℕ) (until : Option ℕ) (s : ScoreState)
    → ((s.banned ≡ true) × (s.banned_until ≡ until)) ⊎ ((s.banned ≡ false) × Expired until now)
    → (((lift_expired now s).banned ≡ true) × ((lift_expired now s).banned_until ≡ until))
      ⊎ (((lift_expired now s).banned ≡ false) × Expired until now)
unfolding lift_expired
lift-ban now none s (inl (b, u)) = inl (ground (arith, b, u), ground (arith, b, u))
lift-ban now (some t) s (inl (b, u)) = elim (Bool-cases (leb t now)) [
  | inl over ↦ inr (ground (arith, b, u, over), ground (arith, over))
  | inr later ↦ inl (ground (arith, b, u, later), ground (arith, b, u, later))
]
lift-ban now none s (inr (b, e)) = absurd e
lift-ban now (some t) s (inr (b, e)) = inr (ground (arith, b), e)

Expired-later : (until : Option ℕ) (now : ℕ) → Expired until now → Expired until (now + 1)
Expired-later none now e = e
Expired-later (some t) now e = omega (arith, e)

later :
    (until : Option ℕ) (now : ℕ) (s : ScoreState)
    → ((s.banned ≡ true) × (s.banned_until ≡ until)) ⊎ ((s.banned ≡ false) × Expired until now)
    → ((s.banned ≡ true) × (s.banned_until ≡ until))
      ⊎ ((s.banned ≡ false) × Expired until (now + 1))
later until now s (inl h) = inl h
later until now s (inr (b, e)) = inr (b, Expired-later until now e)

tick_scores-get :
    (path : Option (List ℕ)) (now : ℕ) (peer : Peer) (s : ScoreState) (scores : Map Peer ScoreState)
    → Map.get peer scores ≡ some s
    → (Map.get peer (tick_scores path now scores) ≡ some s)
      ⊎ (Map.get peer (tick_scores path now scores) ≡ some (lift_expired now s))
unfolding tick_scores
tick_scores-get none now peer s scores h = inl h
tick_scores-get (some p) now peer s scores h =
    inr (get-map_values (lift_expired now) peer s scores h)

Expired-before : (until : Option ℕ) (now : ℕ) → Expired until now → before now until ≡ false
Expired-before none now e = absurd e
Expired-before (some t) now e = ground (arith, e)

module _ (config : P2pHardeningConfig) (peer : Peer) (until : Option ℕ) (score : ℤ) where
  tick-Held :
      (now : ℕ) (h : P2pHardening)
      → now < u64_max
      → Held config peer until score now h
      → Held config peer until score (now + 1) (tick h)
  unfolding tick
  tick-Held now h l b =
      let next : saturating_add u64_max h.tick 1 ≡ now + 1 = grind (arith, l, b.time) in
      elim (tick_scores-get h.bans_path (saturating_add u64_max h.tick 1) peer b.state h.scores
        b.stored) [
          | inl kept ↦ record {
            same = b.same;
            time = next;
            state = b.state;
            stored = kept;
            scored = b.scored;
            ban = later until now b.state b.ban;
          }
          | inr lifted ↦ record {
            same = b.same;
            time = next;
            state = lift_expired (saturating_add u64_max h.tick 1) b.state;
            stored = lifted;
            scored = lift-score (saturating_add u64_max h.tick 1) b.state ∙ b.scored;
            ban = rw next (lift-ban (now + 1) until b.state (later until now b.state b.ban));
          }
        ]

  ticks-Held :
      (k now : ℕ) (h : P2pHardening)
      → now + k ≤ u64_max
      → Held config peer until score now h
      → Held config peer until score (now + k) (ticks k h)
  unfolding ticks
  ticks-Held zero now h l b = subst (λ n. Held config peer until score n h) (omega arith) b
  ticks-Held (suc k) now h l b =
      subst (λ n. Held config peer until score n (tick (ticks k h))) (omega arith)
        (tick-Held (now + k) (ticks k h) (omega (arith, l))
          (ticks-Held k now h (omega (arith, l)) b))

  Held-is_banned :
      (now : ℕ) (h : P2pHardening)
      → leb_ℤ score config.ban_threshold ≡ false
      → Held config peer until score now h
      → is_banned peer h ≡ before now until
  unfolding is_banned score_banned
  Held-is_banned now h above b =
      let low : leb_ℤ b.state.score h.config.ban_threshold ≡ false = rw (b.scored, b.same) above in
      elim b.ban [
        | inl (on, u) ↦ ground (arith, b.stored, b.time, low, on, u)
        | inr (off, e) ↦ ground (arith, b.stored, b.time, low, off, Expired-before until now e)
      ]

-- The end of the ban that `ban_for` sets.
abbrev pub end_of_ban : ℕ → ℕ → Option ℕ
end_of_ban now expiry_ticks =
    if expiry_ticks == 0 then none else some (saturating_add u64_max now expiry_ticks)

ensure_peer-score_of :
    (peer : Peer) (h : P2pHardening) → score_of peer (ensure_peer peer h) ≡ score_of peer h
unfolding ensure_peer or_insert score_of
ensure_peer-score_of peer h =
    let initial = new_score h.config.initial_score in
    ground (arith, get-insert peer peer initial h.scores, beq_refl peer)

ban_for-Held :
    (peer : Peer) (expiry_ticks : ℕ) (h : P2pHardening)
    → Held h.config peer
        (end_of_ban h.tick expiry_ticks)
        (score_of peer h).score
        h.tick
        (ban_for peer expiry_ticks h)
unfolding ban_for set_score ensure_peer
ban_for-Held peer expiry_ticks h =
    let s = score_of peer (ensure_peer peer h) in
    let banned : ScoreState = record s {
      banned = true;
      banned_until = end_of_ban h.tick expiry_ticks;
    } in
    record {
      same = refl;
      time = refl;
      state = banned;
      stored =
          get-insert peer peer banned (ensure_peer peer h).scores ∙ ground (arith, beq_refl peer);
      scored = ap (λ (t : ScoreState). t.score) (ensure_peer-score_of peer h);
      ban = inl (refl, refl);
    }

-- A manual ban of `expiry_ticks` holds for that many ticks and has then ended, whether or not bans
-- are persisted; one of 0 ticks holds at every later tick. The score of the peer is above the
-- threshold, the clock does not reach the largest word and no other operation comes between.
pub ban_for-ticks :
    (peer : Peer) (expiry_ticks k : ℕ) (h : P2pHardening)
    → leb_ℤ (score_of peer h).score h.config.ban_threshold ≡ false
    → h.tick + k ≤ u64_max
    → h.tick + expiry_ticks ≤ u64_max
    → is_banned peer (ticks k (ban_for peer expiry_ticks h))
      ≡ (if expiry_ticks == 0 then true else ltb k expiry_ticks)
ban_for-ticks peer expiry_ticks k h above l m =
    let until = end_of_ban h.tick expiry_ticks in
    let score = (score_of peer h).score in
    Held-is_banned h.config peer until score (h.tick + k) (ticks k (ban_for peer expiry_ticks h))
      above
      (ticks-Held h.config peer until score k h.tick (ban_for peer expiry_ticks h) l
        (ban_for-Held peer expiry_ticks h))
    ∙ ground (arith, l, m)
