-- ===== src/Mempool/Answers.antt =====
-- What `add` answers.
use kovanica_node.Common.{
  ℕ, zero, suc, ◌≤◌, ◌<◌, ◌≡◌, ◌≢◌, refl, subst, Option, none, some, List, [], ◌∷◌, ok, err, ltb,
  leb, length, inl, inr, Option-cases, List-cases, Bool-cases, arith,
}
use kovanica_node.Common.Map
use kovanica_node.Common.Map.{Map, IsMap}
use kovanica_node.Crypto.{Crypto}
use kovanica_node.Ledger
use kovanica_node.Tx.{TxId, OutPoint, Transaction, is_coinbase}
use kovanica_node.Tx.Encode.{encode}
use kovanica_node.Utxo.{UtxoSet}
use kovanica_node.Mempool.{
  MempoolConfig, MempoolEntry, MempoolV2, MempoolError, out_of_fuel, Outcome, ◌>>=◌, tx_id_key,
  Added, pending, orphan, missing, fee_rate_with_utxo,
}
use kovanica_node.Mempool.Evict.{
  remove_orphan, first_key, evict_oldest_orphan, evict_orphans, limit_orphans,
  ensure_orphan_capacity,
}
use kovanica_node.Mempool.Pool.{insert_pending, insert_orphan, add_priced, add_orphan, add_new, add}
use kovanica_node.Mempool.Removals.{remove_orphan-some, remove_orphan-keeps}
use kovanica_node.Mempool.Limits.{
  Below, Within, Ends, granted, denied, Ends-bind, Granted, ensure_capacity-Ends, length-remove_le,
  length-remove_lt,
}

-- What `add` answers: within the limits where the transaction is pending, and an error of the
-- source otherwise. The limit of orphans is at least one.
pub data Answers (config : MempoolConfig) : Outcome Added → Type 0 where
  admitted :
      {q : MempoolV2}
      → Within config.max_txs (length q.pending)
      → Within config.max_bytes q.total_bytes
      → Answers config (q, ok pending)
  waiting :
      {q : MempoolV2} → Within config.max_orphans (length q.orphans) → Answers config (q, ok orphan)
  refused : {q : MempoolV2} {e : MempoolError} → e ≢ out_of_fuel → Answers config (q, err e)

length-insert :
    (id : TxId) (entry : MempoolEntry) (entries : Map TxId MempoolEntry)
    → length (Map.insert id entry entries) ≤ suc (length entries)
unfolding Map.insert
length-insert id entry entries = omega (arith, length-remove_le id entries)

Below-Within : (o : Option ℕ) (m n : ℕ) → m ≤ suc n → Below o n → Within o m
Below-Within none m n l b = tt
Below-Within (some limit) m n l b = omega (arith, l, b)

add_priced-Answers :
    (id : TxId) (tx : Transaction) (rate : Option ℕ) (p : MempoolV2)
    → Answers p.config (add_priced id tx rate p)
unfolding add_priced insert_pending
add_priced-Answers id tx none p = refused (λ e. cc)
add_priced-Answers id tx (some rate) p = elim (Bool-cases (ltb rate p.config.min_fee_rate)) [
  | inl below ↦ rw (below, add_priced) (refused (λ e. cc))
  | inr enough ↦ rw (enough, add_priced) (admit _ (ensure_capacity-Ends (length (encode tx)) p))
]
  where
    entry : MempoolEntry
    entry = record { tx = tx; size = length (encode tx); fee_rate = rate }

    admit :
        (m : Outcome (Unit {0}))
        → Ends (Granted (length (encode tx)) p) m
        → Answers p.config (m >>= λ _ next. (insert_pending id entry next, ok pending))
    admit (q, ok _) (granted g) =
        admitted
          (Below-Within p.config.max_txs (length (Map.insert id entry q.pending)) (length q.pending)
            (length-insert id entry q.pending) g.count)
          g.bytes
    admit (q, err e) denied = refused (λ e. cc)

-- Room for one more orphan.
record Spared (p q : MempoolV2) : Type 0 where
  pub fewer : length q.orphans < length p.orphans
  pub same : q.config ≡ p.config

first_key-get :
    (entries : Map TxId MempoolEntry) (id : TxId)
    → first_key entries ≡ some id
    → (entry : MempoolEntry) × (Map.get id entries ≡ some entry)
unfolding first_key Map.get
first_key-get [] id h = cc
first_key-get ((j, first) ∷ entries) id h = (first, ground (arith, h, tx_id_key.beq_iff j id))

evict_oldest-Ends : (p : MempoolV2) → Ends (Spared p) (evict_oldest_orphan p)
unfolding evict_oldest_orphan
evict_oldest-Ends p = elim (Option-cases (first_key p.orphans)) [
  | inl e ↦ rw (e, evict_oldest_orphan) denied
  | inr (id, e) ↦
      let (entry, here) = first_key-get p.orphans id e in
      rw (e, evict_oldest_orphan)
        (granted (record {
          fewer =
              rw (remove_orphan-some id entry p here) (length-remove_lt id entry p.orphans here);
          same = (remove_orphan-keeps id p).1;
        }))
]

evict_orphans-Ends :
    (fuel max : ℕ) (p : MempoolV2)
    → length p.orphans < fuel
    → Ends (λ q. (length q.orphans < max) × (q.config ≡ p.config)) (evict_orphans fuel max p)
unfolding evict_orphans
evict_orphans-Ends zero max p l = elim l [ ]
evict_orphans-Ends (suc fuel) max p l = elim (Bool-cases (leb max (length p.orphans))) [
  | inl full ↦
      rw (full, evict_orphans)
        (Ends-bind (Spared p) (λ q. (length q.orphans < max) × (q.config ≡ p.config))
          (evict_oldest_orphan p) (λ _ next. evict_orphans fuel max next) (evict_oldest-Ends p)
          (λ q s.
            subst
              (λ c.
                Ends (λ q. (length q.orphans < max) × (q.config ≡ c)) (evict_orphans fuel max q))
              s.same (evict_orphans-Ends fuel max q (omega (arith, l, s.fewer)))))
  | inr room ↦ rw (room, evict_orphans) (granted (ground (arith, room), refl))
]

limit_orphans-Ends :
    (o : Option ℕ) (p : MempoolV2)
    → Ends (λ q. Below o (length q.orphans) × (q.config ≡ p.config)) (limit_orphans o p)
unfolding limit_orphans
limit_orphans-Ends none p = granted (tt, refl)
limit_orphans-Ends (some max) p = evict_orphans-Ends (suc (length p.orphans)) max p (omega arith)

add_orphan-Answers :
    (id : TxId) (tx : Transaction) (waits : List OutPoint) (p : MempoolV2)
    → Answers p.config (add_orphan id tx waits p)
unfolding add_orphan insert_orphan ensure_orphan_capacity
add_orphan-Answers id tx waits p = put _ (limit_orphans-Ends p.config.max_orphans p)
  where
    entry : MempoolEntry
    entry = record { tx = tx; size = length (encode tx); fee_rate = 0 }

    put :
        (m : Outcome (Unit {0}))
        → Ends (λ q. Below p.config.max_orphans (length q.orphans) × (q.config ≡ p.config)) m
        → Answers p.config
            (m >>= λ _ next. (insert_orphan id tx (length (encode tx)) waits next, ok orphan))
    put (q, ok _) (granted g) = waiting (
        Below-Within p.config.max_orphans (length (Map.insert id entry q.orphans))
          (length q.orphans) (length-insert id entry q.orphans) g.0)
    put (q, err e) denied = refused (λ e. cc)

add_new-Answers :
    (id : TxId) (tx : Transaction) (utxo : UtxoSet) (p : MempoolV2)
    → Answers p.config (add_new id tx utxo p)
unfolding add_new
add_new-Answers id tx utxo p = elim (Bool-cases (is_coinbase tx)) [
  | inl coinbase ↦ rw (coinbase, add_new) (refused (λ e. cc))
  | inr regular ↦ elim (List-cases (missing utxo tx.inputs)) [
    | inl e ↦ rw (regular, e, add_new) (add_priced-Answers id tx (fee_rate_with_utxo tx utxo) p)
    | inr (outpoint, waits, e) ↦
        rw (regular, e, add_new) (add_orphan-Answers id tx (outpoint ∷ waits) p)
  ]
]

-- Whatever the pool is, an admitted transaction leaves the pending ones within the limits of count
-- and bytes, an orphan leaves the orphans within theirs, and every other answer is an error of the
-- source: the loops that make room end.
pub add-Answers :
    (crypto : Crypto) (tx : Transaction) (utxo : UtxoSet) (p : MempoolV2)
    → Answers p.config (add crypto tx utxo p)
unfolding add
add-Answers crypto tx utxo p =
    let id = Ledger.id crypto tx in
    elim (Option-cases (Map.get id p.pending)) [
      | inl e ↦
          rw (e, add)
            (subst (λ c. Answers c (add_new id tx utxo (remove_orphan id p)))
              ((remove_orphan-keeps id p).1) (add_new-Answers id tx utxo (remove_orphan id p)))
      | inr (entry, e) ↦ rw (e, add) (refused (λ e. cc))
    ]
