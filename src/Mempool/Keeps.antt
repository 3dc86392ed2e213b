-- ===== src/Mempool/Keeps.antt =====
-- The invariant of the pool, and that the removals and insertions keep it.
use kovanica_node.Common.{
  ℕ, ◌%◌, ◌^◌, ◌≡◌, ◌≢◌, sym, ap, ◌∙◌, Option, none, some, List, inl, inr, Option-cases, Bool-cases,
  arith,
}
use kovanica_node.Common.Map
use kovanica_node.Common.Map.{
  Map, IsMap, total, at_key, get-remove, get-insert, remove-IsMap, insert-IsMap, total-remove,
  total-insert, beq_refl,
}
use kovanica_node.Crypto.{Crypto}
use kovanica_node.Ledger
use kovanica_node.Tx.{TxId, OutPoint, Transaction}
use kovanica_node.Mempool.{MempoolEntry, MempoolV2, tx_id_key}
use kovanica_node.Mempool.Evict.{remove_pending, remove_orphan}
use kovanica_node.Mempool.Pool.{insert_pending, insert_orphan}
use kovanica_node.Mempool.Removals.{
  remove_pending-some, remove_pending-none, sub_bytes-total, add_bytes-total, remove_orphan-some,
  remove_orphan-none, remove_orphan-keeps, remove_orphan-gone, remove_pending-gone,
  remove_pending-keeps,
}

abbrev pub size_of : TxId → MempoolEntry → ℕ
size_of id entry = entry.size

-- An entry stands under the identity of its transaction.
abbrev pub Named : Crypto → Map TxId MempoolEntry → Type 0
Named crypto entries =
    (id : TxId) (entry : MempoolEntry)
    → Map.get id entries ≡ some entry
    → Ledger.id crypto entry.tx ≡ id

none-ne-some : (entry : MempoolEntry) → ◌≢◌ {A = Option MempoolEntry} none (some entry)
none-ne-some entry e = cc

module _ (crypto : Crypto) where
  -- No identity is pending and an orphan, and the bytes are those of the pending transactions.
  pub record IsPool (pool : MempoolV2) : Type 0 where
    pub pending_map : IsMap pool.pending
    pub orphans_map : IsMap pool.orphans
    pub apart :
        (id : TxId) (entry : MempoolEntry)
        → Map.get id pool.orphans ≡ some entry
        → Map.get id pool.pending ≡ none
    pub pending_named : Named crypto pool.pending
    pub orphans_named : Named crypto pool.orphans
    pub counted : pool.total_bytes ≡ total size_of pool.pending % 2 ^ 64

  -- The identity is not in the pool.
  pub record Fresh (id : TxId) (pool : MempoolV2) : Type 0 where
    pub is_pool : IsPool pool
    pub not_pending : Map.get id pool.pending ≡ none
    pub not_orphan : Map.get id pool.orphans ≡ none

  Named-remove :
      (id : TxId) (entries : Map TxId MempoolEntry)
      → Named crypto entries
      → Named crypto (Map.remove id entries)
  Named-remove id entries named j entry h =
      named j entry (ground (arith, h, get-remove j id entries))

  Named-insert :
      (id : TxId) (new : MempoolEntry) (entries : Map TxId MempoolEntry)
      → Ledger.id crypto new.tx ≡ id
      → Named crypto entries
      → Named crypto (Map.insert id new entries)
  Named-insert id new entries e named j entry h = elim (Bool-cases (tx_id_key.beq id j)) [
    | inl same ↦ ground (arith, e, same, h, get-insert j id new entries, tx_id_key.beq_iff id j)
    | inr other ↦ named j entry (ground (arith, other, h, get-insert j id new entries))
  ]

  pub remove_pending-IsPool :
      (id : TxId) (pool : MempoolV2) → IsPool pool → IsPool (remove_pending id pool)
  remove_pending-IsPool id pool p = elim (Option-cases (Map.get id pool.pending)) [
    | inl gone ↦ rw (remove_pending-none id pool gone) p
    | inr (entry, here) ↦ rw (remove_pending-some id entry pool here) (record {
      pending_map = remove-IsMap id pool.pending p.pending_map;
      orphans_map = p.orphans_map;
      apart = λ j e h. ground (arith, p.apart j e h, get-remove j id pool.pending);
      pending_named = Named-remove id pool.pending p.pending_named;
      orphans_named = p.orphans_named;
      counted =
          sub_bytes-total pool.total_bytes (total size_of pool.pending)
            (total size_of (Map.remove id pool.pending)) entry.size p.counted
            (ground (arith, here, total-remove size_of id pool.pending p.pending_map));
    })
  ]

  pub remove_orphan-IsPool :
      (id : TxId) (pool : MempoolV2) → IsPool pool → IsPool (remove_orphan id pool)
  remove_orphan-IsPool id pool p = elim (Option-cases (Map.get id pool.orphans)) [
    | inl gone ↦ rw (remove_orphan-none id pool gone) p
    | inr (entry, here) ↦ rw (remove_orphan-some id entry pool here) (record {
      pending_map = p.pending_map;
      orphans_map = remove-IsMap id pool.orphans p.orphans_map;
      apart = λ j e h. p.apart j e (ground (arith, h, get-remove j id pool.orphans));
      pending_named = p.pending_named;
      orphans_named = Named-remove id pool.orphans p.orphans_named;
      counted = p.counted;
    })
  ]

  pub remove_pending-Fresh :
      (id j : TxId) (pool : MempoolV2) → Fresh j pool → Fresh j (remove_pending id pool)
  remove_pending-Fresh id j pool f = record {
    is_pool = remove_pending-IsPool id pool f.is_pool;
    not_pending = remove_pending-gone id j pool (inl f.not_pending);
    not_orphan = rw ((remove_pending-keeps id pool).0) f.not_orphan;
  }

  pub remove_orphan-Fresh :
      (id j : TxId) (pool : MempoolV2) → Fresh j pool → Fresh j (remove_orphan id pool)
  remove_orphan-Fresh id j pool f = record {
    is_pool = remove_orphan-IsPool id pool f.is_pool;
    not_pending = rw ((remove_orphan-keeps id pool).0) f.not_pending;
    not_orphan = remove_orphan-gone id j pool (inl f.not_orphan);
  }

  -- An identity that is not pending is fresh without its orphan.
  pub forget_orphan :
      (id : TxId) (pool : MempoolV2)
      → IsPool pool
      → Map.get id pool.pending ≡ none
      → Fresh id (remove_orphan id pool)
  forget_orphan id pool p h = record {
    is_pool = remove_orphan-IsPool id pool p;
    not_pending = rw ((remove_orphan-keeps id pool).0) h;
    not_orphan = remove_orphan-gone id id pool (inr (beq_refl id));
  }

  -- A pending identity is fresh without its entry.
  pub forget_pending :
      (id : TxId) (entry : MempoolEntry) (pool : MempoolV2)
      → IsPool pool
      → Map.get id pool.pending ≡ some entry
      → Fresh id (remove_pending id pool)
  forget_pending id entry pool p h = record {
    is_pool = remove_pending-IsPool id pool p;
    not_pending = remove_pending-gone id id pool (inr (beq_refl id));
    not_orphan =
        rw ((remove_pending-keeps id pool).0) (elim (Option-cases (Map.get id pool.orphans)) [
          | inl gone ↦ gone
          | inr (e, here) ↦ absurd (none-ne-some entry (sym (p.apart id e here) ∙ h))
        ]);
  }

  pub insert_pending-IsPool :
      (id : TxId) (entry : MempoolEntry) (pool : MempoolV2)
      → Fresh id pool
      → Ledger.id crypto entry.tx ≡ id
      → IsPool (insert_pending id entry pool)
  unfolding insert_pending
  insert_pending-IsPool id entry pool f e =
      let p = f.is_pool in
      record {
        pending_map = insert-IsMap id entry pool.pending p.pending_map;
        orphans_map = p.orphans_map;
        apart = λ j o h. ground (
          arith,
          h,
          p.apart j o h,
          f.not_orphan,
          get-insert j id entry pool.pending,
          tx_id_key.beq_iff id j,
        );
        pending_named = Named-insert id entry pool.pending e p.pending_named;
        orphans_named = p.orphans_named;
        counted =
            add_bytes-total pool.total_bytes (total size_of pool.pending) entry.size p.counted
            ∙ ap (λ n. n % 2 ^ 64)
                (ground
                  (arith, f.not_pending, total-insert size_of id entry pool.pending p.pending_map));
      }

  pub insert_orphan-IsPool :
      (id : TxId) (tx : Transaction) (size : ℕ) (waits : List OutPoint) (pool : MempoolV2)
      → Fresh id pool
      → Ledger.id crypto tx ≡ id
      → IsPool (insert_orphan id tx size waits pool)
  unfolding insert_orphan
  insert_orphan-IsPool id tx size waits pool f e =
      let p = f.is_pool in
      let entry : MempoolEntry = record { tx = tx; size = size; fee_rate = 0 } in
      record {
        pending_map = p.pending_map;
        orphans_map = insert-IsMap id entry pool.orphans p.orphans_map;
        apart = λ j o h. elim (Bool-cases (tx_id_key.beq id j)) [
          | inl same ↦ ground (arith, same, f.not_pending, tx_id_key.beq_iff id j)
          | inr other ↦ p.apart j o (ground (arith, other, h, get-insert j id entry pool.orphans))
        ];
        pending_named = p.pending_named;
        orphans_named = Named-insert id entry pool.orphans e p.orphans_named;
        counted = p.counted;
      }
