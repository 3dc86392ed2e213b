-- ===== src/Mempool/Invariant.antt =====
-- Every operation keeps the invariant of the pool, also where it ends in an error.
use kovanica_node.Common.{
  ℕ, ◌≡◌, refl, Option, none, some, List, [], ◌∷◌, ltb, leb, length, inl, inr, Option-cases,
  List-cases, Bool-cases,
}
use kovanica_node.Common.Map
use kovanica_node.Common.Map.{Map, IsMap}
use kovanica_node.Crypto.{Crypto}
use kovanica_node.Ledger
use kovanica_node.Tx.{TxId, OutPoint, Transaction, is_coinbase}
use kovanica_node.Tx.Encode.{encode}
use kovanica_node.Utxo.{UtxoSet}
use kovanica_node.Mempool.{MempoolEntry, MempoolV2, tx_id_key, missing, fee_rate_with_utxo}
use kovanica_node.Mempool.Evict.{
  remove_pending, remove_orphan, ensure_capacity, ensure_orphan_capacity, prune_orphans,
}
use kovanica_node.Mempool.Pool.{
  insert_orphan, add_orphan, add_priced, add_new, add, to_orphan, move_to_orphans,
  revalidate_with_utxo, to_promote, promote_entry, promote, on_new_block, or_zero, remove_all,
}
use kovanica_node.Mempool.Room.{
  bind-keeps, ensure_capacity-keeps, ensure_orphan_capacity-keeps, prune_orphans-keeps,
}
use kovanica_node.Mempool.Keeps.{
  IsPool, Fresh, remove_pending-IsPool, remove_orphan-IsPool, remove_pending-Fresh,
  remove_orphan-Fresh, forget_orphan, forget_pending, insert_pending-IsPool, insert_orphan-IsPool,
}

module _ (crypto : Crypto) where
  add_orphan-IsPool :
      (tx : Transaction) (waits : List OutPoint) (p : MempoolV2)
      → Fresh crypto (Ledger.id crypto tx) p
      → IsPool crypto ((add_orphan (Ledger.id crypto tx) tx waits p).0)
  unfolding add_orphan
  add_orphan-IsPool tx waits p f =
      let id = Ledger.id crypto tx in
      bind-keeps (Fresh crypto id) (IsPool crypto) (ensure_orphan_capacity p) _
        (ensure_orphan_capacity-keeps (Fresh crypto id) (λ j q. remove_pending-Fresh crypto j id q)
          (λ j q. remove_orphan-Fresh crypto j id q) p f)
        (λ _ q g. insert_orphan-IsPool crypto id tx (length (encode tx)) waits q g refl)
        (λ q g. g.is_pool)

  add_priced-IsPool :
      (tx : Transaction) (rate : Option ℕ) (p : MempoolV2)
      → Fresh crypto (Ledger.id crypto tx) p
      → IsPool crypto ((add_priced (Ledger.id crypto tx) tx rate p).0)
  unfolding add_priced
  add_priced-IsPool tx none p f = f.is_pool
  add_priced-IsPool tx (some rate) p f =
      let id = Ledger.id crypto tx in
      elim (Bool-cases (ltb rate p.config.min_fee_rate)) [
        | inl below ↦ rw (below, add_priced) f.is_pool
        | inr enough ↦
            rw (enough, add_priced)
              (bind-keeps (Fresh crypto id) (IsPool crypto) (ensure_capacity (length (encode tx)) p)
                _
                (ensure_capacity-keeps (Fresh crypto id) (λ j q. remove_pending-Fresh crypto j id q)
                  (λ j q. remove_orphan-Fresh crypto j id q) (length (encode tx)) p f)
                (λ _ q g. insert_pending-IsPool crypto id _ q g refl) (λ q g. g.is_pool))
      ]

  add_new-IsPool :
      (tx : Transaction) (utxo : UtxoSet) (p : MempoolV2)
      → Fresh crypto (Ledger.id crypto tx) p
      → IsPool crypto ((add_new (Ledger.id crypto tx) tx utxo p).0)
  unfolding add_new
  add_new-IsPool tx utxo p f = elim (Bool-cases (is_coinbase tx)) [
    | inl coinbase ↦ rw (coinbase, add_new) f.is_pool
    | inr regular ↦ elim (List-cases (missing utxo tx.inputs)) [
      | inl e ↦ rw (regular, e, add_new) (add_priced-IsPool tx (fee_rate_with_utxo tx utxo) p f)
      | inr (outpoint, waits, e) ↦
          rw (regular, e, add_new) (add_orphan-IsPool tx (outpoint ∷ waits) p f)
    ]
  ]

  pub add-IsPool :
      (tx : Transaction) (utxo : UtxoSet) (p : MempoolV2)
      → IsPool crypto p
      → IsPool crypto ((add crypto tx utxo p).0)
  unfolding add
  add-IsPool tx utxo p h = elim (Option-cases (Map.get (Ledger.id crypto tx) p.pending)) [
    | inl e ↦
        rw (e, add)
          (add_new-IsPool tx utxo (remove_orphan (Ledger.id crypto tx) p)
            (forget_orphan crypto (Ledger.id crypto tx) p h e))
    | inr (entry, e) ↦ rw (e, add) h
  ]

  move_to_orphans-IsPool :
      (moves : List (TxId × List OutPoint)) (p : MempoolV2)
      → IsPool crypto p
      → IsPool crypto ((move_to_orphans moves p).0)
  unfolding move_to_orphans
  move_to_orphans-IsPool [] p h = h
  move_to_orphans-IsPool ((id, waits) ∷ moves) p h = elim (Option-cases (Map.get id p.pending)) [
    | inl e ↦ rw (e, move_to_orphans) (move_to_orphans-IsPool moves p h)
    | inr (entry, e) ↦
        rw (e, move_to_orphans)
          (move_to_orphans-IsPool moves
            (insert_orphan id entry.tx entry.size waits (remove_pending id p))
            (insert_orphan-IsPool crypto id entry.tx entry.size waits (remove_pending id p)
              (forget_pending crypto id entry p h e) (h.pending_named id entry e)))
  ]

  prune_orphans-IsPool : (p : MempoolV2) → IsPool crypto p → IsPool crypto (prune_orphans p)
  prune_orphans-IsPool p h =
      prune_orphans-keeps (IsPool crypto) (λ j q. remove_pending-IsPool crypto j q)
        (λ j q. remove_orphan-IsPool crypto j q) p h

  pub revalidate_with_utxo-IsPool :
      (utxo : UtxoSet) (p : MempoolV2)
      → IsPool crypto p
      → IsPool crypto ((revalidate_with_utxo utxo p).0)
  unfolding revalidate_with_utxo
  revalidate_with_utxo-IsPool utxo p h =
      prune_orphans-IsPool ((move_to_orphans (to_orphan utxo p.pending) p).0)
        (move_to_orphans-IsPool (to_orphan utxo p.pending) p h)

  promote_entry-IsPool :
      (utxo : UtxoSet) (id : TxId) (entry : MempoolEntry) (p : MempoolV2)
      → Fresh crypto id p
      → Ledger.id crypto entry.tx ≡ id
      → IsPool crypto ((promote_entry utxo id entry p).0)
  unfolding promote_entry
  promote_entry-IsPool utxo id entry p f e =
      elim (Bool-cases (leb p.config.min_fee_rate (or_zero (fee_rate_with_utxo entry.tx utxo)))) [
        | inl paid ↦ rw (paid, promote_entry) (insert_pending-IsPool crypto id _ p f e)
        | inr cheap ↦ rw (cheap, promote_entry) f.is_pool
      ]

  promote-IsPool :
      (utxo : UtxoSet) (ids : List TxId) (p : MempoolV2)
      → IsPool crypto p
      → IsPool crypto ((promote utxo ids p).0)
  unfolding promote
  promote-IsPool utxo [] p h = h
  promote-IsPool utxo (id ∷ ids) p h = elim (Option-cases (Map.get id p.orphans)) [
    | inl e ↦ rw (e, promote) (promote-IsPool utxo ids p h)
    | inr (entry, e) ↦
        rw (e, promote)
          (promote-IsPool utxo ids ((promote_entry utxo id entry (remove_orphan id p)).0) (
            promote_entry-IsPool utxo id entry (remove_orphan id p)
              (forget_orphan crypto id p h (h.apart id entry e)) (h.orphans_named id entry e)))
  ]

  pub on_new_block-IsPool :
      (utxo : UtxoSet) (height : ℕ) (p : MempoolV2)
      → IsPool crypto p
      → IsPool crypto ((on_new_block utxo height p).0)
  unfolding on_new_block
  on_new_block-IsPool utxo height p h =
      let q : MempoolV2 = record p { current_height = height } in
      prune_orphans-IsPool ((promote utxo (to_promote utxo p.orphans) q).0) (
        promote-IsPool utxo (to_promote utxo p.orphans) q (record {
          pending_map = h.pending_map;
          orphans_map = h.orphans_map;
          apart = h.apart;
          pending_named = h.pending_named;
          orphans_named = h.orphans_named;
          counted = h.counted;
        }))

  pub remove_all-IsPool :
      (ids : List TxId) (p : MempoolV2) → IsPool crypto p → IsPool crypto (remove_all ids p)
  unfolding remove_all
  remove_all-IsPool [] p h = h
  remove_all-IsPool (id ∷ ids) p h =
      remove_all-IsPool ids (remove_orphan id (remove_pending id p))
        (remove_orphan-IsPool crypto id (remove_pending id p) (remove_pending-IsPool crypto id p h))
