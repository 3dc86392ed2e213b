-- ===== src/Ledger/Issuance.antt =====
-- The supply of the native asset under a block: the fees leave it, and the coinbase adds to it.
use kovanica_node.Common.{
  ℕ, suc, ◌+◌, ◌*◌, ◌/◌, ◌≡◌, refl, subst, true, Option, none, some, List, [], ◌∷◌, ok, arith,
  Bool-cases, Option-cases, Result-cases, inl, inr,
}
use kovanica_node.Common.Map.{IsMap}
use kovanica_node.Common.Words.{u64_max, checked_add}
use kovanica_node.Crypto.{Crypto}
use kovanica_node.Tx.{Transaction, is_coinbase}
use kovanica_node.Utxo.{UtxoSet, outpoint_key}
use kovanica_node.Stake.{StakeState}
use kovanica_node.Ledger.{fee_producer_num, fee_producer_den, Ledger, ◌>>=◌, Activation, id}
use kovanica_node.Ledger.Apply.{BlockSummary, apply_regular, apply_coinbase}
use kovanica_node.Ledger.Block.{Staged, apply_txs, finish_block, apply_block_inner}
use kovanica_node.Ledger.Conservation.{bind-ok}
use kovanica_node.Ledger.Coinbase.{apply_coinbase-parts}
use kovanica_node.Ledger.Supply.{supply, add_outputs-supply, apply_regular-supply}

module _ (c : Crypto) (height blue_score : ℕ) (act : Activation) where
  apply_txs-supply :
      (txs : List Transaction) (i : ℕ) (s : Staged) (registry : Option StakeState) (after : Staged)
      → IsMap s.utxo
      → (apply_txs c height blue_score act i txs s registry).1 ≡ ok after
      → IsMap after.utxo × (supply none after.utxo + after.fees ≡ supply none s.utxo + s.fees)
  unfolding apply_txs
  apply_txs-supply [] i s registry after m e =
      let same : s ≡ after = cc in
      subst
        (λ (t : Staged). IsMap t.utxo × (supply none t.utxo + t.fees ≡ supply none s.utxo + s.fees))
        same (m, refl)
  apply_txs-supply (tx ∷ txs) i s registry after m e = elim (Bool-cases (is_coinbase tx)) [
    | inl cb ↦
        apply_txs-supply txs (suc i) (record { utxo = s.utxo; coinbase = some tx; fees = s.fees })
          registry after m (ground (arith, e, cb))
    | inr regular ↦ elim (Result-cases (apply_regular c height blue_score act tx s.utxo registry)) [
      | inl (a, p) ↦
          let (am, fee, others) =
            apply_regular-supply c height blue_score act tx s.utxo registry a m p in
          elim (Option-cases (checked_add u64_max s.fees a.fee)) [
            | inl over ↦ ground (arith, e, regular, p, over)
            | inr (fees, q) ↦
                let rest =
                  apply_txs-supply txs (suc i)
                    (record { utxo = a.utxo; coinbase = s.coinbase; fees = fees }) a.registry after
                    am (ground (arith, e, regular, p, q)) in
                (rest.0, ground (arith, rest.1, fee, q))
          ]
      | inr (failure, p) ↦ ground (arith, e, regular, p)
    ]
  ]

  -- The block keeps the fees, and adds what it mints to the set.
  abbrev Issues : Staged → UtxoSet × BlockSummary → Type 0
  Issues s r =
      IsMap (r.0) × (supply none (r.0) ≡ supply none s.utxo + (r.1).minted) × ((r.1).fees ≡ s.fees)

  ok-pair :
      {x y : UtxoSet × BlockSummary}
      → ◌≡◌ {A = Ledger (UtxoSet × BlockSummary)} (ok x) (ok y)
      → x ≡ y
  ok-pair e = cc

  finish_block-supply :
      (subsidy cumulative_minted : ℕ) (s : Staged) (after : UtxoSet) (summary : BlockSummary)
      → IsMap s.utxo
      → finish_block c height blue_score act subsidy cumulative_minted s ≡ ok (after, summary)
      → IsMap after
        × (supply none after ≡ supply none s.utxo + summary.minted)
        × (summary.fees ≡ s.fees)
  unfolding finish_block
  finish_block-supply subsidy cumulative_minted s after summary m e =
      elim (Option-cases
        (checked_add u64_max subsidy (s.fees / fee_producer_den * fee_producer_num))) [
          | inl none_allowed ↦ ground (arith, none_allowed, e)
          | inr (allowed, p) ↦ elim (Option-cases s.coinbase) [
            | inl no_coinbase ↦
                let e' : ◌≡◌ {A = Ledger (UtxoSet × BlockSummary)}
                    (ok (s.utxo, record { fees = s.fees; minted = 0 })) (ok (after, summary)) =
                  ground (arith, p, no_coinbase, e) in
                subst (Issues s) (ok-pair e') (m, omega arith, refl)
            | inr (cb, q) ↦
                let tail : UtxoSet × ℕ → Ledger (UtxoSet × BlockSummary) =
                  λ r. ok (r.0, record { fees = s.fees; minted = r.1 }) in
                let paid =
                  apply_coinbase c height blue_score act cb allowed cumulative_minted s.utxo in
                let e' : (paid >>= tail) ≡ ok (after, summary) = ground (arith, p, q, e) in
                let (r, (made, n)) = bind-ok paid tail e' in
                let (sum, (bounded, (capped, (positive, effect)))) =
                  apply_coinbase-parts c height blue_score act cb allowed cumulative_minted s.utxo
                    r.0 r.1 made in
                let (rm, total) =
                  add_outputs-supply none (id c cb) 0 cb.outputs height true s.utxo r.0 m effect in
                subst (Issues s) (ok-pair n) (rm, omega (arith, total, sum), refl)
          ]
        ]

  -- An accepted block takes its fees from the supply of the native asset in the set of unspent
  -- outputs and adds what it mints, and nothing else.
  pub apply_block_inner-supply :
      (utxo : UtxoSet) (registry : Option StakeState) (txs : List Transaction)
      (subsidy cumulative_minted : ℕ) (summary : BlockSummary)
      → IsMap utxo
      → (apply_block_inner c height blue_score act utxo registry txs subsidy
          cumulative_minted).answer
        ≡ ok summary
      → supply none
            (apply_block_inner c height blue_score act utxo registry txs subsidy
              cumulative_minted).utxo
          + summary.fees
        ≡ supply none utxo + summary.minted
  unfolding apply_block_inner
  apply_block_inner-supply utxo registry txs subsidy cumulative_minted summary m e =
      let start : Staged = record { utxo = utxo; coinbase = none; fees = 0 } in
      let staged = (apply_txs c height blue_score act 0 txs start registry).1 in
      elim (Result-cases
        (staged >>= finish_block c height blue_score act subsidy cumulative_minted)) [
          | inl ((after, other), p) ↦
              let (s, (q, f)) = bind-ok staged _ p in
              let (sm, total) = apply_txs-supply txs 0 start registry s m q in
              let (am, minted, fees) =
                finish_block-supply subsidy cumulative_minted s after other sm f in
              ground (arith, p, e, total, minted, fees)
          | inr (failure, p) ↦ ground (arith, p, e)
        ]
