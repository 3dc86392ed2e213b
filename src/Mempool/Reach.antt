-- ===== src/Mempool/Reach.antt =====
-- Replacement by fee keeps the invariant, and so does every sequence of operations.
use kovanica_node.Common.{
  ℕ, ◌≡◌, refl, some, List, [], ◌∷◌, ltb, inl, inr, Option-cases, Bool-cases, arith,
}
use kovanica_node.Common.Map
use kovanica_node.Common.Map.{Map, IsMap}
use kovanica_node.Common.Words.{u64_max, saturating_add}
use kovanica_node.Crypto.{Crypto}
use kovanica_node.Ledger
use kovanica_node.Tx.{TxId, TxInput, Transaction, is_coinbase}
use kovanica_node.Utxo.{UtxoSet}
use kovanica_node.Mempool.{
  MempoolConfig, MempoolEntry, MempoolV2, tx_id_key, new, fee_rate_with_utxo,
}
use kovanica_node.Mempool.Evict.{remove_pending, remove_orphan}
use kovanica_node.Mempool.Pool.{
  add, revalidate_with_utxo, on_new_block, replaced_by, conflicts, remove_each, remove_all,
  replace_entry, replace_new, replace_by_fee,
}
use kovanica_node.Mempool.Keeps.{
  IsPool, Fresh, remove_pending-IsPool, forget_orphan, forget_pending, insert_pending-IsPool,
}
use kovanica_node.Mempool.Invariant.{
  add-IsPool, revalidate_with_utxo-IsPool, on_new_block-IsPool, remove_all-IsPool,
}

-- The entry that is found is that of its identity.
replaced_by-get :
    (inputs : List TxInput) (entries : Map TxId MempoolEntry) (id : TxId) (entry : MempoolEntry)
    → IsMap entries
    → replaced_by inputs entries ≡ some (id, entry)
    → Map.get id entries ≡ some entry
unfolding replaced_by Map.get
replaced_by-get inputs [] id entry m h = cc
replaced_by-get inputs ((j, first) ∷ entries) id entry (new, m) h =
    ground (arith, new, h, replaced_by-get inputs entries id entry m, tx_id_key.beq_iff j id)

module _ (crypto : Crypto) where
  remove_each-IsPool :
      (ids : List TxId) (p : MempoolV2) → IsPool crypto p → IsPool crypto (remove_each ids p)
  unfolding remove_each
  remove_each-IsPool [] p h = h
  remove_each-IsPool (id ∷ ids) p h =
      remove_each-IsPool ids (remove_pending id p) (remove_pending-IsPool crypto id p h)

  replace_entry-IsPool :
      (tx : Transaction) (utxo : UtxoSet) (bump rate : ℕ) (id : TxId) (replaced : MempoolEntry)
      (p : MempoolV2)
      → Fresh crypto id p
      → Ledger.id crypto replaced.tx ≡ id
      → IsPool crypto ((replace_entry crypto tx utxo bump rate replaced p).0)
  unfolding replace_entry
  replace_entry-IsPool tx utxo bump rate id replaced p f e =
      elim (Bool-cases (ltb rate (saturating_add u64_max replaced.fee_rate bump))) [
        | inl low ↦ rw (low, replace_entry) (rw e (insert_pending-IsPool crypto id replaced p f e))
        | inr enough ↦
            rw (enough, replace_entry)
              (add-IsPool crypto tx utxo (remove_each (conflicts tx.inputs p.pending) p)
                (remove_each-IsPool (conflicts tx.inputs p.pending) p f.is_pool))
      ]

  replace_new-IsPool :
      (tx : Transaction) (utxo : UtxoSet) (bump : ℕ) (p : MempoolV2)
      → IsPool crypto p
      → IsPool crypto ((replace_new crypto tx utxo bump p).0)
  unfolding replace_new
  replace_new-IsPool tx utxo bump p h = elim (Option-cases (fee_rate_with_utxo tx utxo)) [
    | inl e ↦ rw (e, replace_new) h
    | inr (rate, e) ↦ elim (Option-cases (replaced_by tx.inputs p.pending)) [
      | inl n ↦ rw (e, n, replace_new) h
      | inr ((id, replaced), n) ↦
          let here = replaced_by-get tx.inputs p.pending id replaced h.pending_map n in
          rw (e, n, replace_new)
            (replace_entry-IsPool tx utxo bump rate id replaced (remove_pending id p)
              (forget_pending crypto id replaced p h here) (h.pending_named id replaced here))
    ]
  ]

  replace_by_fee-IsPool :
      (tx : Transaction) (utxo : UtxoSet) (bump : ℕ) (p : MempoolV2)
      → IsPool crypto p
      → IsPool crypto ((replace_by_fee crypto tx utxo bump p).0)
  unfolding replace_by_fee
  replace_by_fee-IsPool tx utxo bump p h = elim (Bool-cases (is_coinbase tx)) [
    | inl coinbase ↦ rw (coinbase, replace_by_fee) h
    | inr regular ↦ elim (Option-cases (Map.get (Ledger.id crypto tx) p.pending)) [
      | inl e ↦
          let f = forget_orphan crypto (Ledger.id crypto tx) p h e in
          rw (regular, e, replace_by_fee)
            (replace_new-IsPool tx utxo bump (remove_orphan (Ledger.id crypto tx) p) f.is_pool)
      | inr (entry, e) ↦ rw (regular, e, replace_by_fee) h
    ]
  ]

  -- The pools that operations lead to from an empty one, whether they succeed or fail. Each comes
  -- with the unspent outputs of its time.
  pub data Reachable (config : MempoolConfig) : MempoolV2 → Type 0 where
    start : Reachable config (new config)
    adds :
        {p : MempoolV2} (tx : Transaction) (utxo : UtxoSet)
        → Reachable config p
        → Reachable config ((add crypto tx utxo p).0)
    replaces :
        {p : MempoolV2} (tx : Transaction) (utxo : UtxoSet) (bump : ℕ)
        → Reachable config p
        → Reachable config ((replace_by_fee crypto tx utxo bump p).0)
    revalidates :
        {p : MempoolV2} (utxo : UtxoSet)
        → Reachable config p
        → Reachable config ((revalidate_with_utxo utxo p).0)
    advances :
        {p : MempoolV2} (utxo : UtxoSet) (height : ℕ)
        → Reachable config p
        → Reachable config ((on_new_block utxo height p).0)
    removes :
        {p : MempoolV2} (ids : List TxId) → Reachable config p → Reachable config (remove_all ids p)

  new-IsPool : (config : MempoolConfig) → IsPool crypto (new config)
  unfolding new Map.get Map.total
  new-IsPool config = record {
    pending_map = tt;
    orphans_map = tt;
    apart = λ id entry h. refl;
    pending_named = λ id entry h. cc;
    orphans_named = λ id entry h. cc;
    counted = omega arith;
  }

  -- In every pool that operations lead to from an empty one, successful or not, no identity is both
  -- pending and an orphan, every entry stands once, under the identity of its transaction, and
  -- `total_bytes` is the sum of the sizes of the pending transactions, as a word of 64 bits.
  pub Reachable-IsPool :
      (config : MempoolConfig) (p : MempoolV2) → Reachable config p → IsPool crypto p
  Reachable-IsPool config _ start = new-IsPool config
  Reachable-IsPool config _ (adds {p} tx utxo r) =
      add-IsPool crypto tx utxo p (Reachable-IsPool config p r)
  Reachable-IsPool config _ (replaces {p} tx utxo bump r) =
      replace_by_fee-IsPool tx utxo bump p (Reachable-IsPool config p r)
  Reachable-IsPool config _ (revalidates {p} utxo r) =
      revalidate_with_utxo-IsPool crypto utxo p (Reachable-IsPool config p r)
  Reachable-IsPool config _ (advances {p} utxo height r) =
      on_new_block-IsPool crypto utxo height p (Reachable-IsPool config p r)
  Reachable-IsPool config _ (removes {p} ids r) =
      remove_all-IsPool crypto ids p (Reachable-IsPool config p r)
