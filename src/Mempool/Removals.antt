-- ===== src/Mempool/Removals.antt =====
-- What a removal does to the entries and the bytes of the pool.
use kovanica_node.Common.{
  ℕ, ◌+◌, ◌%◌, ◌^◌, ◌≡◌, refl, true, none, some, ◌⊎◌, inl, inr, Option-cases, arith,
}
use kovanica_node.Common.Map
use kovanica_node.Common.Map.{
  Map, IsMap, total, at_key, get-remove, get-insert, remove-IsMap, insert-IsMap, total-remove,
  total-insert, beq_refl,
}
use kovanica_node.Tx.{TxId}
use kovanica_node.Mempool.{MempoolEntry, MempoolV2, tx_id_key, add_bytes, sub_bytes}
use kovanica_node.Mempool.Evict.{remove_pending, remove_orphan, unindex}

pub remove_pending-some :
    (id : TxId) (entry : MempoolEntry) (pool : MempoolV2)
    → Map.get id pool.pending ≡ some entry
    → remove_pending id pool ≡ record pool {
      pending = Map.remove id pool.pending;
      total_bytes = sub_bytes pool.total_bytes entry.size;
    }
unfolding remove_pending
remove_pending-some id entry pool h = rw (h, remove_pending) refl

pub remove_pending-none :
    (id : TxId) (pool : MempoolV2) → Map.get id pool.pending ≡ none → remove_pending id pool ≡ pool
unfolding remove_pending
remove_pending-none id pool h = rw (h, remove_pending) refl

pub sub_bytes-total :
    (bytes sum rest size : ℕ)
    → bytes ≡ sum % 2 ^ 64
    → rest + size ≡ sum
    → sub_bytes bytes size ≡ rest % 2 ^ 64
unfolding sub_bytes
sub_bytes-total bytes sum rest size e f = omega (arith, e, f)

pub add_bytes-total :
    (bytes sum size : ℕ) → bytes ≡ sum % 2 ^ 64 → add_bytes bytes size ≡ (sum + size) % 2 ^ 64
unfolding add_bytes
add_bytes-total bytes sum size e = omega (arith, e)

pub remove_orphan-some :
    (id : TxId) (entry : MempoolEntry) (pool : MempoolV2)
    → Map.get id pool.orphans ≡ some entry
    → remove_orphan id pool ≡ record pool {
      orphans = Map.remove id pool.orphans;
      orphans_by_missing = unindex id entry.tx.inputs pool.orphans_by_missing;
    }
unfolding remove_orphan
remove_orphan-some id entry pool h = rw (h, remove_orphan) refl

pub remove_orphan-none :
    (id : TxId) (pool : MempoolV2) → Map.get id pool.orphans ≡ none → remove_orphan id pool ≡ pool
unfolding remove_orphan
remove_orphan-none id pool h = rw (h, remove_orphan) refl

-- What a removal leaves absent.
pub remove_orphan-keeps :
    (id : TxId) (pool : MempoolV2)
    → ((remove_orphan id pool).pending ≡ pool.pending)
      × ((remove_orphan id pool).config ≡ pool.config)
      × ((remove_orphan id pool).total_bytes ≡ pool.total_bytes)
unfolding remove_orphan
remove_orphan-keeps id pool = (ground arith, ground arith, ground arith)

pub remove_orphan-gone :
    (id j : TxId) (pool : MempoolV2)
    → (Map.get j pool.orphans ≡ none) ⊎ (tx_id_key.beq id j ≡ true)
    → Map.get j (remove_orphan id pool).orphans ≡ none
remove_orphan-gone id j pool h = elim (Option-cases (Map.get id pool.orphans)) [
  | inl gone ↦
      rw (remove_orphan-none id pool gone) (ground (arith, gone, h, tx_id_key.beq_iff id j))
  | inr (entry, here) ↦
      rw (remove_orphan-some id entry pool here) (ground (arith, h, get-remove j id pool.orphans))
]

pub remove_pending-gone :
    (id j : TxId) (pool : MempoolV2)
    → (Map.get j pool.pending ≡ none) ⊎ (tx_id_key.beq id j ≡ true)
    → Map.get j (remove_pending id pool).pending ≡ none
remove_pending-gone id j pool h = elim (Option-cases (Map.get id pool.pending)) [
  | inl gone ↦
      rw (remove_pending-none id pool gone) (ground (arith, gone, h, tx_id_key.beq_iff id j))
  | inr (entry, here) ↦
      rw (remove_pending-some id entry pool here) (ground (arith, h, get-remove j id pool.pending))
]

pub remove_pending-keeps :
    (id : TxId) (pool : MempoolV2)
    → ((remove_pending id pool).orphans ≡ pool.orphans)
      × ((remove_pending id pool).config ≡ pool.config)
unfolding remove_pending
remove_pending-keeps id pool = (ground arith, ground arith)
