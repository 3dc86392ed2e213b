-- ===== src/Mempool/Evict.antt =====
-- mempool_v2.rs: the removals and the loops that make room. The loops run on the number of entries.
use kovanica_node.Common.{
  ℕ, zero, suc, true, false, Option, none, some, List, [], ◌∷◌, ok, err, ltb, leb, ◌==◌,
  if◌then◌else◌, length,
}
use kovanica_node.Common.Map
use kovanica_node.Common.Map.{Map}
use kovanica_node.Tx.{TxId, OutPoint, TxInput}
use kovanica_node.Utxo.{outpoint_key}
use kovanica_node.Mempool.{
  MempoolEntry, MempoolV2, capacity_exceeded, out_of_fuel, Outcome, ◌>>=◌, tx_id_key, add_bytes,
  sub_bytes, set_remove, set_insert,
}

unfoldable pub remove_pending : TxId → MempoolV2 → MempoolV2
remove_pending id pool = elim (Map.get id pool.pending) [
  | none ↦ pool
  | some entry ↦ record pool {
    pending = Map.remove id pool.pending;
    total_bytes = sub_bytes pool.total_bytes entry.size;
  }
]

abbrev pub Index : Type 0
Index = Map OutPoint (List TxId)

-- An empty set leaves the index.
unfoldable pub put_set : OutPoint → List TxId → Index → Index
put_set outpoint [] index = Map.remove outpoint index
put_set outpoint (id ∷ set) index = Map.insert outpoint (id ∷ set) index

unfoldable pub drop_waiting : TxId → OutPoint → Index → Index
drop_waiting id outpoint index = elim (Map.get outpoint index) [
  | none ↦ index
  | some set ↦ put_set outpoint (set_remove id set) index
]

unfoldable pub unindex : TxId → List TxInput → Index → Index
unindex id [] index = index
unindex id (input ∷ inputs) index = unindex id inputs (drop_waiting id input.outpoint index)

unfoldable pub add_waiting : TxId → OutPoint → Index → Index
add_waiting id outpoint index = elim (Map.get outpoint index) [
  | none ↦ Map.insert outpoint (id ∷ []) index
  | some set ↦ Map.insert outpoint (set_insert id set) index
]

unfoldable pub index_missing : TxId → List OutPoint → Index → Index
index_missing id [] index = index
index_missing id (outpoint ∷ missing) index =
    index_missing id missing (add_waiting id outpoint index)

unfoldable pub remove_orphan : TxId → MempoolV2 → MempoolV2
remove_orphan id pool = elim (Map.get id pool.orphans) [
  | none ↦ pool
  | some entry ↦ record pool {
    orphans = Map.remove id pool.orphans;
    orphans_by_missing = unindex id entry.tx.inputs pool.orphans_by_missing;
  }
]

-- `min_by_key`: the first entry with the lowest rate.
unfoldable pub lowest : Map TxId MempoolEntry → Option (TxId × ℕ)
lowest [] = none
lowest ((id, entry) ∷ pending) = elim (lowest pending) [
  | none ↦ some (id, entry.fee_rate)
  | some (other, rate) ↦
      if leb entry.fee_rate rate then some (id, entry.fee_rate) else some (other, rate)
]

unfoldable pub evict_lowest_fee_rate : MempoolV2 → Outcome (Unit {0})
evict_lowest_fee_rate pool = elim (lowest pool.pending) [
  | none ↦ (pool, err capacity_exceeded)
  | some (id, rate) ↦ (remove_pending id pool, ok tt)
]

unfoldable pub first_key : Map TxId MempoolEntry → Option TxId
first_key [] = none
first_key ((id, entry) ∷ entries) = some id

unfoldable pub evict_oldest_orphan : MempoolV2 → Outcome (Unit {0})
evict_oldest_orphan pool = elim (first_key pool.orphans) [
  | none ↦ (pool, err capacity_exceeded)
  | some id ↦ (remove_orphan id pool, ok tt)
]

-- `while self.pending.len() >= max`
unfoldable pub evict_count : ℕ → ℕ → MempoolV2 → Outcome (Unit {0})
evict_count zero max pool = (pool, err out_of_fuel)
evict_count (suc fuel) max pool = elim (leb max (length pool.pending)) [
  | false ↦ (pool, ok tt)
  | true ↦ evict_lowest_fee_rate pool >>= λ _ next. evict_count fuel max next
]

unfoldable pub fail_if_empty : MempoolV2 → Outcome (Unit {0})
fail_if_empty pool =
    if length pool.pending == 0 then (pool, err capacity_exceeded) else (pool, ok tt)

-- `while self.total_bytes + new_size > max`
unfoldable pub evict_bytes : ℕ → ℕ → ℕ → MempoolV2 → Outcome (Unit {0})
evict_bytes zero max size pool = (pool, err out_of_fuel)
evict_bytes (suc fuel) max size pool = elim (ltb max (add_bytes pool.total_bytes size)) [
  | false ↦ (pool, ok tt)
  | true ↦ evict_lowest_fee_rate pool >>= λ _ next.
      fail_if_empty next >>= λ _ last. evict_bytes fuel max size last
]

unfoldable pub limit_count : Option ℕ → MempoolV2 → Outcome (Unit {0})
limit_count none pool = (pool, ok tt)
limit_count (some max) pool = evict_count (suc (length pool.pending)) max pool

unfoldable pub limit_bytes : Option ℕ → ℕ → MempoolV2 → Outcome (Unit {0})
limit_bytes none size pool = (pool, ok tt)
limit_bytes (some max) size pool = evict_bytes (suc (length pool.pending)) max size pool

unfoldable pub ensure_capacity : ℕ → MempoolV2 → Outcome (Unit {0})
ensure_capacity size pool =
    limit_count pool.config.max_txs pool >>= λ _ next. limit_bytes next.config.max_bytes size next

-- `while self.orphans.len() >= max`
unfoldable pub evict_orphans : ℕ → ℕ → MempoolV2 → Outcome (Unit {0})
evict_orphans zero max pool = (pool, err out_of_fuel)
evict_orphans (suc fuel) max pool = elim (leb max (length pool.orphans)) [
  | false ↦ (pool, ok tt)
  | true ↦ evict_oldest_orphan pool >>= λ _ next. evict_orphans fuel max next
]

unfoldable pub limit_orphans : Option ℕ → MempoolV2 → Outcome (Unit {0})
limit_orphans none pool = (pool, ok tt)
limit_orphans (some max) pool = evict_orphans (suc (length pool.orphans)) max pool

unfoldable pub ensure_orphan_capacity : MempoolV2 → Outcome (Unit {0})
ensure_orphan_capacity pool = limit_orphans pool.config.max_orphans pool

-- `while self.orphans.len() > max`, which removes the first orphan in each round.
unfoldable pub prune_loop : ℕ → ℕ → MempoolV2 → MempoolV2
prune_loop zero max pool = pool
prune_loop (suc fuel) max pool = elim (ltb max (length pool.orphans)) [
  | false ↦ pool
  | true ↦ elim (first_key pool.orphans) [
    | none ↦ prune_loop fuel max pool
    | some id ↦ prune_loop fuel max (remove_orphan id pool)
  ]
]

unfoldable pub prune_orphans : MempoolV2 → MempoolV2
prune_orphans pool = elim pool.config.max_orphans [
  | none ↦ pool
  | some max ↦ prune_loop (length pool.orphans) max pool
]
