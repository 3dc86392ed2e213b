-- ===== src/Ledger/Coinbase.antt =====
-- The bounds of what a coinbase mints.
use kovanica_node.Common.{
  ℕ, ◌+◌, ◌≤◌, ◌≡◌, true, not, ◌&&◌, none, List, [], ◌∷◌, All, ok, ltb, arith, Option-cases, inl,
  inr,
}
use kovanica_node.Common.Words.{u64_max, checked_add}
use kovanica_node.Crypto.{Crypto}
use kovanica_node.Tx.{TxOutput, Transaction, is_p2sh}
use kovanica_node.Utxo.{UtxoSet, asset_eq}
use kovanica_node.Ledger.{
  max_supply, fail_if, Activation, id, pre_activation_multisig, coinbase_overspend,
  supply_cap_exceeded,
}
use kovanica_node.Ledger.Inputs.{any}
use kovanica_node.Ledger.Apply.{add_outputs, claimed_native, exceeds, apply_coinbase}
use kovanica_node.Ledger.Conservation.{bind-ok, sum_of}

abbrev pub IsPositive : TxOutput → Type 0
IsPositive o = 1 ≤ o.value

module _ (c : Crypto) (height blue_score : ℕ) (act : Activation) where
  claimed_native-ok :
      (cb : Transaction) (outputs : List TxOutput) (sum total : ℕ)
      → claimed_native c height blue_score act cb outputs sum ≡ ok total
      → (total ≡ sum + sum_of none outputs) × All IsPositive outputs
  unfolding claimed_native sum_of asset_eq
  claimed_native-ok cb [] sum total e = (ground arith, tt)
  claimed_native-ok cb (o ∷ outputs) sum total e = elim (Option-cases o.asset_id) [
    | inl native ↦
        let rest = claimed_native-ok cb outputs (sum + o.value) total (ground (arith, native)) in
        (ground (arith, native, rest.0), (ground arith, rest.1))
    | inr (a, token) ↦
        let rest = claimed_native-ok cb outputs sum total (ground (arith, token)) in
        (ground (arith, token, rest.0), (ground arith, rest.1))
  ]

  pub apply_coinbase-parts :
      (cb : Transaction) (allowed cumulative_minted : ℕ) (staging after : UtxoSet) (minted : ℕ)
      → apply_coinbase c height blue_score act cb allowed cumulative_minted staging
        ≡ ok (after, minted)
      → (minted ≡ sum_of none cb.outputs)
        × ((minted ≤ allowed)
            × ((cumulative_minted + minted ≤ max_supply)
                × (All IsPositive cb.outputs
                    × (add_outputs (id c cb) 0 cb.outputs height true staging ≡ ok after))))
  unfolding apply_coinbase
  apply_coinbase-parts cb allowed cumulative_minted staging after minted e =
      let (_, (_, e1)) =
        bind-ok
          (fail_if
            (not (ltb act.multisig_score blue_score) && any (λ o. is_p2sh o.owner) cb.outputs)
            (pre_activation_multisig (id c cb) blue_score act.multisig_score))
          _ e in
      let (claimed, (p, e2)) =
        bind-ok (claimed_native c height blue_score act cb cb.outputs 0) _ e1 in
      let (_, (q, e3)) =
        bind-ok (fail_if (ltb allowed claimed) (coinbase_overspend claimed allowed)) _ e2 in
      let (_, (r, e4)) =
        bind-ok
          (fail_if (exceeds (checked_add u64_max cumulative_minted claimed))
            (supply_cap_exceeded claimed cumulative_minted max_supply))
          _ e3 in
      let (utxo, (u, e5)) = bind-ok (add_outputs (id c cb) 0 cb.outputs height true staging) _ e4 in
      let same : claimed ≡ minted = cc in
      let effect : add_outputs (id c cb) 0 cb.outputs height true staging ≡ ok after = cc in
      let sums = claimed_native-ok cb cb.outputs 0 claimed p in
      (
        omega (arith, same, sums.0),
        (ground (arith, q, same), (ground (arith, r, same), (sums.1, effect))),
      )

  -- A coinbase that is applied mints its native outputs, no more than is allowed, the total issuance
  -- stays within the supply cap, and no output of any asset is 0.
  pub apply_coinbase-bounds :
      (cb : Transaction) (allowed cumulative_minted : ℕ) (staging after : UtxoSet) (minted : ℕ)
      → apply_coinbase c height blue_score act cb allowed cumulative_minted staging
        ≡ ok (after, minted)
      → (minted ≡ sum_of none cb.outputs)
        × ((minted ≤ allowed)
            × ((cumulative_minted + minted ≤ max_supply) × All IsPositive cb.outputs))
  apply_coinbase-bounds cb allowed cumulative_minted staging after minted e =
      let (sum, (bounded, (capped, (positive, effect)))) =
        apply_coinbase-parts cb allowed cumulative_minted staging after minted e in
      (sum, (bounded, (capped, positive)))
