-- ===== src/Mempool/Room.antt =====
-- The loops that make room keep what both removals keep.
use kovanica_node.Common.{
  ℕ, zero, suc, Option, none, some, ok, err, ltb, leb, ◌==◌, length, inl, inr, Option-cases,
  Bool-cases,
}
use kovanica_node.Tx.{TxId}
use kovanica_node.Mempool.{MempoolV2, Outcome, ◌>>=◌, tx_id_key, add_bytes}
use kovanica_node.Mempool.Evict.{
  remove_pending, remove_orphan, lowest, first_key, evict_lowest_fee_rate, evict_oldest_orphan,
  evict_count, fail_if_empty, evict_bytes, limit_count, limit_bytes, ensure_capacity, evict_orphans,
  limit_orphans, ensure_orphan_capacity, prune_loop, prune_orphans,
}

pub bind-keeps :
    {A B : Type 0} (P Q : MempoolV2 → Type 0) (m : Outcome A) (f : A → MempoolV2 → Outcome B)
    → P (m.0)
    → ((a : A) (p : MempoolV2) → P p → Q ((f a p).0))
    → ((p : MempoolV2) → P p → Q p)
    → Q ((m >>= f).0)
bind-keeps P Q (p, ok a) f h g w = g a p h
bind-keeps P Q (p, err e) f h g w = w p h

-- What both removals keep, the loops that make room keep.
module _ (P : MempoolV2 → Type 0)
    (pend : (id : TxId) (p : MempoolV2) → P p → P (remove_pending id p))
    (orph : (id : TxId) (p : MempoolV2) → P p → P (remove_orphan id p)) where
  evict_lowest-keeps : (p : MempoolV2) → P p → P ((evict_lowest_fee_rate p).0)
  unfolding evict_lowest_fee_rate
  evict_lowest-keeps p h = elim (Option-cases (lowest p.pending)) [
    | inl e ↦ rw (e, evict_lowest_fee_rate) h
    | inr ((id, rate), e) ↦ rw (e, evict_lowest_fee_rate) (pend id p h)
  ]

  evict_oldest-keeps : (p : MempoolV2) → P p → P ((evict_oldest_orphan p).0)
  unfolding evict_oldest_orphan
  evict_oldest-keeps p h = elim (Option-cases (first_key p.orphans)) [
    | inl e ↦ rw (e, evict_oldest_orphan) h
    | inr (id, e) ↦ rw (e, evict_oldest_orphan) (orph id p h)
  ]

  evict_count-keeps : (fuel max : ℕ) (p : MempoolV2) → P p → P ((evict_count fuel max p).0)
  unfolding evict_count
  evict_count-keeps zero max p h = h
  evict_count-keeps (suc fuel) max p h = elim (Bool-cases (leb max (length p.pending))) [
    | inl full ↦
        rw (full, evict_count)
          (bind-keeps P P (evict_lowest_fee_rate p) (λ _ next. evict_count fuel max next)
            (evict_lowest-keeps p h) (λ _ next. evict_count-keeps fuel max next) (λ q k. k))
    | inr room ↦ rw (room, evict_count) h
  ]

  fail_if_empty-keeps : (p : MempoolV2) → P p → P ((fail_if_empty p).0)
  unfolding fail_if_empty
  fail_if_empty-keeps p h = elim (Bool-cases (length p.pending == 0)) [
    | inl e ↦ rw (e, fail_if_empty) h
    | inr e ↦ rw (e, fail_if_empty) h
  ]

  evict_bytes-keeps :
      (fuel max size : ℕ) (p : MempoolV2) → P p → P ((evict_bytes fuel max size p).0)
  unfolding evict_bytes
  evict_bytes-keeps zero max size p h = h
  evict_bytes-keeps (suc fuel) max size p h =
      elim (Bool-cases (ltb max (add_bytes p.total_bytes size))) [
        | inl over ↦
            rw (over, evict_bytes)
              (bind-keeps P P (evict_lowest_fee_rate p)
                (λ _ next. fail_if_empty next >>= λ _ last. evict_bytes fuel max size last)
                (evict_lowest-keeps p h)
                (λ _ next k.
                  bind-keeps P P (fail_if_empty next) (λ _ last. evict_bytes fuel max size last)
                    (fail_if_empty-keeps next k) (λ _ last. evict_bytes-keeps fuel max size last)
                    (λ q k. k))
                (λ q k. k))
        | inr room ↦ rw (room, evict_bytes) h
      ]

  evict_orphans-keeps : (fuel max : ℕ) (p : MempoolV2) → P p → P ((evict_orphans fuel max p).0)
  unfolding evict_orphans
  evict_orphans-keeps zero max p h = h
  evict_orphans-keeps (suc fuel) max p h = elim (Bool-cases (leb max (length p.orphans))) [
    | inl full ↦
        rw (full, evict_orphans)
          (bind-keeps P P (evict_oldest_orphan p) (λ _ next. evict_orphans fuel max next)
            (evict_oldest-keeps p h) (λ _ next. evict_orphans-keeps fuel max next) (λ q k. k))
    | inr room ↦ rw (room, evict_orphans) h
  ]

  prune_loop-keeps : (fuel max : ℕ) (p : MempoolV2) → P p → P (prune_loop fuel max p)
  unfolding prune_loop
  prune_loop-keeps zero max p h = h
  prune_loop-keeps (suc fuel) max p h = elim (Bool-cases (ltb max (length p.orphans))) [
    | inl over ↦ elim (Option-cases (first_key p.orphans)) [
      | inl e ↦ rw (over, e, prune_loop) (prune_loop-keeps fuel max p h)
      | inr (id, e) ↦
          rw (over, e, prune_loop) (prune_loop-keeps fuel max (remove_orphan id p) (orph id p h))
    ]
    | inr room ↦ rw (room, prune_loop) h
  ]

  limit_count-keeps : (o : Option ℕ) (p : MempoolV2) → P p → P ((limit_count o p).0)
  unfolding limit_count
  limit_count-keeps none p h = h
  limit_count-keeps (some max) p h = evict_count-keeps (suc (length p.pending)) max p h

  limit_bytes-keeps : (o : Option ℕ) (size : ℕ) (p : MempoolV2) → P p → P ((limit_bytes o size p).0)
  unfolding limit_bytes
  limit_bytes-keeps none size p h = h
  limit_bytes-keeps (some max) size p h = evict_bytes-keeps (suc (length p.pending)) max size p h

  pub ensure_capacity-keeps : (size : ℕ) (p : MempoolV2) → P p → P ((ensure_capacity size p).0)
  unfolding ensure_capacity
  ensure_capacity-keeps size p h =
      bind-keeps P P (limit_count p.config.max_txs p)
        (λ _ next. limit_bytes next.config.max_bytes size next)
        (limit_count-keeps p.config.max_txs p h)
        (λ _ next. limit_bytes-keeps next.config.max_bytes size next) (λ q k. k)

  limit_orphans-keeps : (o : Option ℕ) (p : MempoolV2) → P p → P ((limit_orphans o p).0)
  unfolding limit_orphans
  limit_orphans-keeps none p h = h
  limit_orphans-keeps (some max) p h = evict_orphans-keeps (suc (length p.orphans)) max p h

  pub ensure_orphan_capacity-keeps : (p : MempoolV2) → P p → P ((ensure_orphan_capacity p).0)
  unfolding ensure_orphan_capacity
  ensure_orphan_capacity-keeps p h = limit_orphans-keeps p.config.max_orphans p h

  pub prune_orphans-keeps : (p : MempoolV2) → P p → P (prune_orphans p)
  unfolding prune_orphans
  prune_orphans-keeps p h = elim (Option-cases p.config.max_orphans) [
    | inl e ↦ rw (e, prune_orphans) h
    | inr (max, e) ↦ rw (e, prune_orphans) (prune_loop-keeps (length p.orphans) max p h)
  ]
