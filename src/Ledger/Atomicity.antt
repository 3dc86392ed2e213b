-- ===== src/Ledger/Atomicity.antt =====
-- What a block leaves behind when it is accepted and when it fails.
use kovanica_node.Common.{
  ℕ, ◌+◌, ◌*◌, ◌/◌, ◌≤◌, ◌≡◌, ap, ◌∙◌, Option, none, List, ok, arith, Option-cases, Result-cases,
  inl, inr,
}
use kovanica_node.Common.Words.{u64_max, checked_add}
use kovanica_node.Crypto.{Crypto}
use kovanica_node.Tx.{Transaction}
use kovanica_node.Utxo.{UtxoSet}
use kovanica_node.Stake.{StakeState}
use kovanica_node.Ledger.{max_supply, fee_producer_num, fee_producer_den, Ledger, ◌>>=◌, Activation}
use kovanica_node.Ledger.Apply.{BlockSummary, apply_coinbase}
use kovanica_node.Ledger.Block.{Staged, apply_txs, finish_block, apply_block_inner}
use kovanica_node.Ledger.Conservation.{bind-ok}
use kovanica_node.Ledger.Coinbase.{apply_coinbase-bounds}

module _ (c : Crypto) (height blue_score : ℕ) (act : Activation) where
  finish_block-bounds :
      (subsidy cumulative_minted : ℕ) (s : Staged) (after : UtxoSet) (summary : BlockSummary)
      → finish_block c height blue_score act subsidy cumulative_minted s ≡ ok (after, summary)
      → cumulative_minted ≤ max_supply
      → (summary.minted ≤ subsidy + summary.fees / 4)
        × (cumulative_minted + summary.minted ≤ max_supply)
  unfolding finish_block
  finish_block-bounds subsidy cumulative_minted s after summary e capped =
      elim (Option-cases
        (checked_add u64_max subsidy (s.fees / fee_producer_den * fee_producer_num))) [
          | inl none_allowed ↦ ground (arith, none_allowed)
          | inr (allowed, p) ↦ elim (Option-cases s.coinbase) [
            | inl no_coinbase ↦ ground (arith, p, no_coinbase)
            | inr (cb, q) ↦
                let tail : UtxoSet × ℕ → Ledger (UtxoSet × BlockSummary) =
                  λ r. ok (r.0, record { fees = s.fees; minted = r.1 }) in
                let paid =
                  apply_coinbase c height blue_score act cb allowed cumulative_minted s.utxo in
                let e' : (paid >>= tail) ≡ ok (after, summary) = ground (arith, p, q) in
                let (r, (m, n)) = bind-ok paid tail e' in
                let bounds =
                  apply_coinbase-bounds c height blue_score act cb allowed cumulative_minted s.utxo
                    r.0 r.1 m in
                ground (arith, p, n, bounds.1.0, bounds.1.1.0)
          ]
        ]

  -- An accepted block mints at most the subsidy and a quarter of its fees, and keeps the total
  -- issuance within the supply cap, if it was within it before.
  pub apply_block_inner-bounds :
      (utxo : UtxoSet) (registry : Option StakeState) (txs : List Transaction)
      (subsidy cumulative_minted : ℕ) (summary : BlockSummary)
      → (apply_block_inner c height blue_score act utxo registry txs subsidy
          cumulative_minted).answer
        ≡ ok summary
      → cumulative_minted ≤ max_supply
      → (summary.minted ≤ subsidy + summary.fees / 4)
        × (cumulative_minted + summary.minted ≤ max_supply)
  unfolding apply_block_inner
  apply_block_inner-bounds utxo registry txs subsidy cumulative_minted summary e capped =
      let staged =
        (apply_txs c height blue_score act 0 txs (record { utxo = utxo; coinbase = none; fees = 0 })
          registry).1 in
      elim (Result-cases
        (staged >>= finish_block c height blue_score act subsidy cumulative_minted)) [
          | inl ((after, other), p) ↦
              let (s, (_, q)) = bind-ok staged _ p in
              let same : other ≡ summary = ground (arith, p) in
              finish_block-bounds subsidy cumulative_minted s after summary
                (q ∙ ap (λ (x : BlockSummary). ok (after, x)) same) capped
          | inr (err', p) ↦ ground (arith, p)
        ]
