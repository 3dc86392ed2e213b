-- ===== src/Mempool/Pool.antt =====
-- mempool_v2.rs: the operations of `MempoolV2`.
use kovanica_node.Common.{
  ℕ, ◌+◌, ◌-◌, ◌*◌, ◌/◌, Bool, true, false, not, ◌||◌, Option, none, some, List, [], ◌∷◌, ok, err,
  ltb, leb, ◌==◌, if◌then◌else◌, length, get_elem?, min, max,
}
use kovanica_node.Common.Map
use kovanica_node.Common.Map.{Map}
use kovanica_node.Common.Words.{u64_max, saturating_add}
use kovanica_node.Crypto.{Crypto}
use kovanica_node.Ledger
use kovanica_node.Tx.{TxId, OutPoint, TxInput, Transaction, is_coinbase, outpoint_eq}
use kovanica_node.Tx.Encode.{encode}
use kovanica_node.Utxo.{UtxoSet}
use kovanica_node.Mempool.{
  MempoolEntry, MempoolV2, Added, pending, orphan, duplicate, coinbase_rejected, missing_inputs,
  no_replacement_target, below_min_fee_rate, insufficient_fee_bump, Outcome, ◌>>=◌, tx_id_key,
  add_bytes, missing, fee_rate_with_utxo,
}
use kovanica_node.Mempool.Evict.{
  remove_pending, remove_orphan, index_missing, ensure_capacity, ensure_orphan_capacity,
  prune_orphans,
}

unfoldable pub insert_pending : TxId → MempoolEntry → MempoolV2 → MempoolV2
insert_pending id entry pool = record pool {
  pending = Map.insert id entry pool.pending;
  total_bytes = add_bytes pool.total_bytes entry.size;
}

unfoldable pub insert_orphan : TxId → Transaction → ℕ → List OutPoint → MempoolV2 → MempoolV2
insert_orphan id tx size waits pool = record pool {
  orphans = Map.insert id (record { tx = tx; size = size; fee_rate = 0 }) pool.orphans;
  orphans_by_missing = index_missing id waits pool.orphans_by_missing;
}

-- The branch of `add` for a transaction with missing inputs.
unfoldable pub add_orphan : TxId → Transaction → List OutPoint → MempoolV2 → Outcome Added
add_orphan id tx waits pool = ensure_orphan_capacity pool >>= λ _ next.
    (insert_orphan id tx (length (encode tx)) waits next, ok orphan)

-- The branch of `add` for a transaction with all its inputs.
unfoldable pub add_priced : TxId → Transaction → Option ℕ → MempoolV2 → Outcome Added
add_priced id tx none pool = (pool, err missing_inputs)
add_priced id tx (some rate) pool =
    if ltb rate pool.config.min_fee_rate
    then (pool, err (below_min_fee_rate rate pool.config.min_fee_rate))
    else ensure_capacity (length (encode tx)) pool >>= λ _ next. (
      insert_pending id (record { tx = tx; size = length (encode tx); fee_rate = rate }) next,
      ok pending,
    )

unfoldable pub add_new : TxId → Transaction → UtxoSet → MempoolV2 → Outcome Added
add_new id tx utxo pool =
    if is_coinbase tx then (pool, err coinbase_rejected) else elim (missing utxo tx.inputs) [
      | [] ↦ add_priced id tx (fee_rate_with_utxo tx utxo) pool
      | outpoint ∷ waits ↦ add_orphan id tx (outpoint ∷ waits) pool
    ]

-- `revalidate_with_utxo`: the entries that miss inputs.
unfoldable pub to_orphan : UtxoSet → Map TxId MempoolEntry → List (TxId × List OutPoint)
to_orphan utxo [] = []
to_orphan utxo ((id, entry) ∷ entries) = elim (missing utxo entry.tx.inputs) [
  | [] ↦ to_orphan utxo entries
  | outpoint ∷ waits ↦ (id, outpoint ∷ waits) ∷ to_orphan utxo entries
]

unfoldable pub move_to_orphans : List (TxId × List OutPoint) → MempoolV2 → MempoolV2 × ℕ
move_to_orphans [] pool = (pool, 0)
move_to_orphans ((id, waits) ∷ moves) pool = elim (Map.get id pool.pending) [
  | none ↦ move_to_orphans moves pool
  | some entry ↦
      let (next, moved) =
        move_to_orphans moves
          (insert_orphan id entry.tx entry.size waits (remove_pending id pool)) in
      (next, moved + 1)
]

unfoldable pub revalidate_with_utxo : UtxoSet → MempoolV2 → MempoolV2 × ℕ
revalidate_with_utxo utxo pool =
    let (next, moved) = move_to_orphans (to_orphan utxo pool.pending) pool in
    (prune_orphans next, moved)

-- `on_new_block`: the orphans that miss no input.
unfoldable pub to_promote : UtxoSet → Map TxId MempoolEntry → List TxId
to_promote utxo [] = []
to_promote utxo ((id, entry) ∷ entries) = elim (missing utxo entry.tx.inputs) [
  | [] ↦ id ∷ to_promote utxo entries
  | outpoint ∷ waits ↦ to_promote utxo entries
]

abbrev pub or_zero : Option ℕ → ℕ
or_zero none = 0
or_zero (some n) = n

unfoldable pub promote_entry : UtxoSet → TxId → MempoolEntry → MempoolV2 → MempoolV2 × ℕ
promote_entry utxo id entry pool =
    let rate = or_zero (fee_rate_with_utxo entry.tx utxo) in
    if leb pool.config.min_fee_rate rate
    then (insert_pending id (record { tx = entry.tx; size = entry.size; fee_rate = rate }) pool, 1)
    else (pool, 0)

unfoldable pub promote : UtxoSet → List TxId → MempoolV2 → MempoolV2 × ℕ
promote utxo [] pool = (pool, 0)
promote utxo (id ∷ ids) pool = elim (Map.get id pool.orphans) [
  | none ↦ promote utxo ids pool
  | some entry ↦
      let (next, one) = promote_entry utxo id entry (remove_orphan id pool) in
      let (last, promoted) = promote utxo ids next in (last, promoted + one)
]

unfoldable pub on_new_block : UtxoSet → ℕ → MempoolV2 → MempoolV2 × ℕ
on_new_block utxo new_block_height pool =
    let (next, promoted) =
      promote utxo (to_promote utxo pool.orphans)
        (record pool { current_height = new_block_height }) in
    (prune_orphans next, promoted)

unfoldable pub spends : List TxInput → OutPoint → Bool
spends [] outpoint = false
spends (input ∷ inputs) outpoint =
    if outpoint_eq input.outpoint outpoint then true else spends inputs outpoint

-- Whether a transaction with the first inputs conflicts with one with the second.
unfoldable pub conflicts_with : List TxInput → List TxInput → Bool
conflicts_with inputs [] = false
conflicts_with inputs (input ∷ others) =
    if spends inputs input.outpoint then true else conflicts_with inputs others

unfoldable pub conflicts : List TxInput → Map TxId MempoolEntry → List TxId
conflicts inputs [] = []
conflicts inputs ((id, entry) ∷ entries) =
    let rest = conflicts inputs entries in
    if conflicts_with inputs entry.tx.inputs then id ∷ rest else rest

-- The first conflicting entry.
unfoldable pub replaced_by : List TxInput → Map TxId MempoolEntry → Option (TxId × MempoolEntry)
replaced_by inputs [] = none
replaced_by inputs ((id, entry) ∷ entries) =
    if conflicts_with inputs entry.tx.inputs then some (id, entry) else replaced_by inputs entries

unfoldable pub remove_each : List TxId → MempoolV2 → MempoolV2
remove_each [] pool = pool
remove_each (id ∷ ids) pool = remove_each ids (remove_pending id pool)

unfoldable pub remove_all : List TxId → MempoolV2 → MempoolV2
remove_all [] pool = pool
remove_all (id ∷ ids) pool = remove_all ids (remove_orphan id (remove_pending id pool))

unfoldable pub rates : Map TxId MempoolEntry → List ℕ
rates [] = []
rates ((id, entry) ∷ entries) = entry.fee_rate ∷ rates entries

-- `sort_unstable`
unfoldable pub insert_rate : ℕ → List ℕ → List ℕ
insert_rate rate [] = rate ∷ []
insert_rate rate (r ∷ sorted) =
    if leb rate r then rate ∷ r ∷ sorted else r ∷ insert_rate rate sorted

unfoldable pub sort_rates : List ℕ → List ℕ
sort_rates [] = []
sort_rates (rate ∷ rest) = insert_rate rate (sort_rates rest)

abbrev pub reaches : Option ℕ → ℕ → Bool
reaches none n = false
reaches (some limit) n = leb limit n

unfoldable pub fee_estimate : MempoolV2 → ℕ
fee_estimate pool =
    let floor = pool.config.min_fee_rate in
    let count = length pool.pending in
    if count == 0
    then floor
    else if not
        (reaches pool.config.max_txs count || reaches pool.config.max_bytes pool.total_bytes)
    then floor
    else max
        (or_zero (get_elem? (sort_rates (rates pool.pending)) (min (count * 3 / 4) (count - 1))))
        floor

module _ (crypto : Crypto) where
  unfoldable pub add : Transaction → UtxoSet → MempoolV2 → Outcome Added
  add tx utxo pool = elim (Map.get (Ledger.id crypto tx) pool.pending) [
    | some _ ↦ (pool, err (duplicate (Ledger.id crypto tx)))
    | none ↦ add_new (Ledger.id crypto tx) tx utxo (remove_orphan (Ledger.id crypto tx) pool)
  ]

  -- The replaced entry is out of the pool.
  unfoldable pub replace_entry :
      Transaction → UtxoSet → ℕ → ℕ → MempoolEntry → MempoolV2 → Outcome Added
  replace_entry tx utxo min_fee_bump new_fee_rate replaced pool =
      let required = saturating_add u64_max replaced.fee_rate min_fee_bump in
      if ltb new_fee_rate required
      then (
        insert_pending (Ledger.id crypto replaced.tx) replaced pool,
        err (insufficient_fee_bump replaced.fee_rate new_fee_rate required),
      )
      else add tx utxo (remove_each (conflicts tx.inputs pool.pending) pool)

  unfoldable pub replace_new : Transaction → UtxoSet → ℕ → MempoolV2 → Outcome Added
  replace_new tx utxo min_fee_bump pool = elim (fee_rate_with_utxo tx utxo) [
    | none ↦ (pool, err missing_inputs)
    | some new_fee_rate ↦ elim (replaced_by tx.inputs pool.pending) [
      | none ↦ (pool, err no_replacement_target)
      | some (id, replaced) ↦
          replace_entry tx utxo min_fee_bump new_fee_rate replaced (remove_pending id pool)
    ]
  ]

  unfoldable pub replace_by_fee : Transaction → UtxoSet → ℕ → MempoolV2 → Outcome Added
  replace_by_fee tx utxo min_fee_bump pool =
      if is_coinbase tx
      then (pool, err coinbase_rejected)
      else elim (Map.get (Ledger.id crypto tx) pool.pending) [
        | some _ ↦ (pool, err (duplicate (Ledger.id crypto tx)))
        | none ↦ replace_new tx utxo min_fee_bump (remove_orphan (Ledger.id crypto tx) pool)
      ]
