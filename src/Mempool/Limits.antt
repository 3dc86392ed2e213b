-- ===== src/Mempool/Limits.antt =====
-- What `ensure_capacity` grants, and that its loops do not run out of fuel.
use kovanica_node.Common.{
  ℕ, zero, suc, ◌≤◌, ◌<◌, ◌≡◌, refl, ◌∙◌, subst, Option, none, some, [], ◌∷◌, ok, err, ltb, leb,
  ◌==◌, length, inl, inr, Option-cases, Bool-cases, arith,
}
use kovanica_node.Common.Map
use kovanica_node.Common.Map.{Map, IsMap}
use kovanica_node.Tx.{TxId}
use kovanica_node.Mempool.{
  MempoolConfig, MempoolEntry, MempoolV2, capacity_exceeded, Outcome, ◌>>=◌, tx_id_key, add_bytes,
}
use kovanica_node.Mempool.Evict.{
  lowest, evict_lowest_fee_rate, evict_count, fail_if_empty, evict_bytes, limit_count, limit_bytes,
  ensure_capacity,
}
use kovanica_node.Mempool.Removals.{remove_pending-some, remove_pending-keeps}

abbrev pub Below : Option ℕ → ℕ → Type 0
Below none n = Unit
Below (some limit) n = n < limit

abbrev pub Within : Option ℕ → ℕ → Type 0
Within none n = Unit
Within (some limit) n = n ≤ limit

pub length-remove_le :
    (id : TxId) (entries : Map TxId MempoolEntry) → length (Map.remove id entries) ≤ length entries
unfolding Map.remove
length-remove_le id [] = omega arith
length-remove_le id ((j, entry) ∷ entries) = ground (arith, length-remove_le id entries)

pub length-remove_lt :
    (id : TxId) (entry : MempoolEntry) (entries : Map TxId MempoolEntry)
    → Map.get id entries ≡ some entry
    → length (Map.remove id entries) < length entries
unfolding Map.remove Map.get
length-remove_lt id entry [] h = cc
length-remove_lt id entry ((j, first) ∷ entries) h =
    ground (arith, h, length-remove_le id entries, length-remove_lt id entry entries)

-- The entry with the lowest rate is stored.
lowest-get :
    (entries : Map TxId MempoolEntry) (id : TxId) (rate : ℕ)
    → lowest entries ≡ some (id, rate)
    → (entry : MempoolEntry) × (Map.get id entries ≡ some entry)
unfolding lowest Map.get
lowest-get [] id rate h = cc
lowest-get ((j, first) ∷ entries) id rate h = elim (Bool-cases (tx_id_key.beq j id)) [
  | inl same ↦ (first, ground (arith, same))
  | inr other ↦
      let (entry, here) =
        lowest-get entries id rate (ground (arith, h, other, tx_id_key.beq_iff j id)) in
      (entry, ground (arith, other, here))
]

-- The loop ends as it should: with room, or with an error of the source.
pub data Ends (P : MempoolV2 → Type 0) : Outcome (Unit {0}) → Type 0 where
  granted : {q : MempoolV2} → P q → Ends P (q, ok tt)
  denied : {q : MempoolV2} → Ends P (q, err capacity_exceeded)

pub Ends-bind :
    (P Q : MempoolV2 → Type 0) (m : Outcome (Unit {0}))
    (f : Unit {0} → MempoolV2 → Outcome (Unit {0}))
    → Ends P m
    → ((q : MempoolV2) → P q → Ends Q (f tt q))
    → Ends Q (m >>= f)
Ends-bind P Q (q, ok tt) f (granted h) g = g q h
Ends-bind P Q (q, err e) f denied g = denied

-- A pool that an eviction has shrunk.
record Shrunk (p q : MempoolV2) : Type 0 where
  pub shorter : length q.pending < length p.pending
  pub same : q.config ≡ p.config

evict_lowest-Ends : (p : MempoolV2) → Ends (Shrunk p) (evict_lowest_fee_rate p)
unfolding evict_lowest_fee_rate
evict_lowest-Ends p = elim (Option-cases (lowest p.pending)) [
  | inl e ↦ rw (e, evict_lowest_fee_rate) denied
  | inr ((id, rate), e) ↦
      let (entry, here) = lowest-get p.pending id rate e in
      rw (e, evict_lowest_fee_rate)
        (granted (record {
          shorter =
              rw (remove_pending-some id entry p here) (length-remove_lt id entry p.pending here);
          same = (remove_pending-keeps id p).1;
        }))
]

evict_count-Ends :
    (fuel max : ℕ) (p : MempoolV2)
    → length p.pending < fuel
    → Ends (λ q. (length q.pending < max) × (q.config ≡ p.config)) (evict_count fuel max p)
unfolding evict_count
evict_count-Ends zero max p l = elim l [ ]
evict_count-Ends (suc fuel) max p l = elim (Bool-cases (leb max (length p.pending))) [
  | inl full ↦
      rw (full, evict_count)
        (Ends-bind (Shrunk p) (λ q. (length q.pending < max) × (q.config ≡ p.config))
          (evict_lowest_fee_rate p) (λ _ next. evict_count fuel max next) (evict_lowest-Ends p)
          (λ q s.
            subst
              (λ c. Ends (λ q. (length q.pending < max) × (q.config ≡ c)) (evict_count fuel max q))
              s.same (evict_count-Ends fuel max q (omega (arith, l, s.shorter)))))
  | inr room ↦ rw (room, evict_count) (granted (ground (arith, room), refl))
]

fail_if_empty-Ends : (p : MempoolV2) → Ends (λ q. q ≡ p) (fail_if_empty p)
unfolding fail_if_empty
fail_if_empty-Ends p = elim (Bool-cases (length p.pending == 0)) [
  | inl e ↦ rw (e, fail_if_empty) denied
  | inr e ↦ rw (e, fail_if_empty) (granted refl)
]

-- Room for `size` bytes, with no more entries than before.
record Roomy (max size : ℕ) (p q : MempoolV2) : Type 0 where
  pub room : add_bytes q.total_bytes size ≤ max
  pub no_longer : length q.pending ≤ length p.pending
  pub same : q.config ≡ p.config

Roomy-after :
    (max size : ℕ) (p q : MempoolV2)
    → Shrunk p q
    → (r : MempoolV2) → Roomy max size q r
    → Roomy max size p r
Roomy-after max size p q s r y = record {
  room = y.room;
  no_longer = omega (arith, y.no_longer, s.shorter);
  same = y.same ∙ s.same;
}

Ends-weaken :
    (P Q : MempoolV2 → Type 0) (m : Outcome (Unit {0}))
    → ((q : MempoolV2) → P q → Q q)
    → Ends P m
    → Ends Q m
Ends-weaken P Q (q, ok tt) f (granted h) = granted (f q h)
Ends-weaken P Q (q, err e) f denied = denied

evict_bytes-Ends :
    (fuel max size : ℕ) (p : MempoolV2)
    → length p.pending < fuel
    → Ends (Roomy max size p) (evict_bytes fuel max size p)
unfolding evict_bytes
evict_bytes-Ends zero max size p l = elim l [ ]
evict_bytes-Ends (suc fuel) max size p l =
    elim (Bool-cases (ltb max (add_bytes p.total_bytes size))) [
      | inl over ↦
          rw (over, evict_bytes)
            (Ends-bind (Shrunk p) (Roomy max size p) (evict_lowest_fee_rate p)
              (λ _ next. fail_if_empty next >>= λ _ last. evict_bytes fuel max size last)
              (evict_lowest-Ends p)
              (λ q s.
                Ends-bind (λ r. r ≡ q) (Roomy max size p) (fail_if_empty q)
                  (λ _ last. evict_bytes fuel max size last) (fail_if_empty-Ends q)
                  (λ r e. rw e (
                    Ends-weaken (Roomy max size q) (Roomy max size p) (evict_bytes fuel max size q)
                      (Roomy-after max size p q s)
                      (evict_bytes-Ends fuel max size q (omega (arith, l, s.shorter)))))))
      | inr room ↦
          rw (room, evict_bytes)
            (granted (record { room = ground (arith, room); no_longer = omega arith; same = refl }))
    ]

-- What one admission may rely on.
pub record Granted (size : ℕ) (p q : MempoolV2) : Type 0 where
  pub count : Below p.config.max_txs (length q.pending)
  pub bytes : Within p.config.max_bytes (add_bytes q.total_bytes size)
  pub same : q.config ≡ p.config

limit_count-Ends :
    (o : Option ℕ) (p : MempoolV2)
    → Ends (λ q. Below o (length q.pending) × (q.config ≡ p.config)) (limit_count o p)
unfolding limit_count
limit_count-Ends none p = granted (tt, refl)
limit_count-Ends (some max) p = evict_count-Ends (suc (length p.pending)) max p (omega arith)

limit_bytes-Ends :
    (o : Option ℕ) (size : ℕ) (p : MempoolV2)
    → Ends
        (λ q.
          Within o (add_bytes q.total_bytes size)
          × (length q.pending ≤ length p.pending)
          × (q.config ≡ p.config))
        (limit_bytes o size p)
unfolding limit_bytes
limit_bytes-Ends none size p = granted (tt, omega arith, refl)
limit_bytes-Ends (some max) size p =
    Ends-weaken (Roomy max size p) _ (evict_bytes (suc (length p.pending)) max size p)
      (λ q r. (r.room, r.no_longer, r.same))
      (evict_bytes-Ends (suc (length p.pending)) max size p (omega arith))

pub Below-le : (o : Option ℕ) (m n : ℕ) → m ≤ n → Below o n → Below o m
Below-le none m n l b = tt
Below-le (some limit) m n l b = omega (arith, l, b)

pub ensure_capacity-Ends :
    (size : ℕ) (p : MempoolV2) → Ends (Granted size p) (ensure_capacity size p)
unfolding ensure_capacity
ensure_capacity-Ends size p =
    Ends-bind (λ q. Below p.config.max_txs (length q.pending) × (q.config ≡ p.config))
      (Granted size p) (limit_count p.config.max_txs p)
      (λ _ next. limit_bytes next.config.max_bytes size next) (limit_count-Ends p.config.max_txs p)
      (λ q h.
        Ends-weaken
          (λ r.
            Within q.config.max_bytes (add_bytes r.total_bytes size)
            × (length r.pending ≤ length q.pending)
            × (r.config ≡ q.config))
          (Granted size p) (limit_bytes q.config.max_bytes size q)
          (λ r b. record {
            count = Below-le p.config.max_txs (length r.pending) (length q.pending) b.1 h.0;
            bytes =
                subst (λ (c : MempoolConfig). Within c.max_bytes (add_bytes r.total_bytes size)) h.1
                  b.0;
            same = b.2 ∙ h.1;
          })
          (limit_bytes-Ends q.config.max_bytes size q))
