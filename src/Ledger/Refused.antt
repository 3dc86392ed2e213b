-- ===== src/Ledger/Refused.antt =====
-- What a refused block leaves behind: the set is staged, the registry is not.
use kovanica_node.Common.{
  ℕ, suc, ◌+◌, ◌≡◌, refl, ap, ◌∙◌, sym, subst, Option, none, some, List, [], ◌∷◌, ◌==◌, err, arith,
  Bool-cases, Option-cases, Result-cases, inl, inr,
}
use kovanica_node.Common.Words.{u64_max, checked_add}
use kovanica_node.Crypto.{Crypto}
use kovanica_node.Tx.{Transaction, is_coinbase}
use kovanica_node.Utxo.{UtxoSet}
use kovanica_node.Stake.{StakeState}
use kovanica_node.Ledger.{
  LedgerError, value_overflow, misplaced_coinbase, Ledger, ◌>>=◌, Activation, id,
}
use kovanica_node.Ledger.Apply.{apply_regular}
use kovanica_node.Ledger.Block.{Transition, Staged, apply_txs, finish_block, apply_block_inner}
use kovanica_node.Ledger.Runs.{
  Stopped, StopReason, completed, refused, misplaced, StopReason-Stopped, after_coinbase,
  after_regular, overflowed,
}

module _ (c : Crypto) (height blue_score : ℕ) (act : Activation) where
  apply_txs-Stopped :
      (i : ℕ) (txs : List Transaction) (s : Staged) (registry : Option StakeState) (e : LedgerError)
      → ((x : LedgerError) → (apply_txs c height blue_score act i txs s registry).1 ≡ err x → x ≡ e)
      → Stopped c height blue_score act i s.fees txs s.utxo registry
          (apply_txs c height blue_score act i txs s registry).0
          e
  unfolding apply_txs
  apply_txs-Stopped i [] s registry e h =
      StopReason-Stopped c height blue_score act i s.fees [] s.utxo registry e completed
  apply_txs-Stopped i (tx ∷ txs) s registry e h =
      let run = apply_txs c height blue_score act in
      let here : Option StakeState × Ledger Staged = run i (tx ∷ txs) s registry in
      let goal : Option StakeState × Ledger Staged → Type 0 =
        λ r. Stopped c height blue_score act i s.fees (tx ∷ txs) s.utxo registry (r.0) e in
      let why : (r : Option StakeState × Ledger Staged)
          → here ≡ r
          → (x : LedgerError) → r.1 ≡ err x
          → x ≡ e =
        λ r same x p. h x (ap (λ (q : Option StakeState × Ledger Staged). q.1) same ∙ p) in
      elim (Bool-cases (is_coinbase tx)) [
        | inl cb ↦ elim (Bool-cases (i == 0)) [
          | inl first ↦
              let s' : Staged = record { utxo = s.utxo; coinbase = some tx; fees = s.fees } in
              let same : here ≡ run (suc i) txs s' registry = ground (arith, cb, first) in
              subst goal (sym same) (
                after_coinbase c height blue_score act i s.fees tx txs s.utxo registry
                  (run (suc i) txs s' registry).0 e cb
                  (apply_txs-Stopped (suc i) txs s' registry e (why _ same)))
          | inr later ↦
              let same : here ≡ (registry, err (misplaced_coinbase (id c tx))) =
                ground (arith, cb, later) in
              subst goal (sym same) (
                StopReason-Stopped c height blue_score act i s.fees (tx ∷ txs) s.utxo registry e (
                  subst
                    (λ x. StopReason c height blue_score act s.utxo registry i s.fees x (tx ∷ txs))
                    (why _ same _ refl) (misplaced cb (ground (arith, later)))))
        ]
        | inr not_cb ↦
            elim (Result-cases (apply_regular c height blue_score act tx s.utxo registry)) [
              | inr (x, p) ↦
                  let same : here ≡ (registry, err x) = ground (arith, not_cb, p) in
                  subst goal (sym same) (
                    StopReason-Stopped c height blue_score act i s.fees (tx ∷ txs) s.utxo registry e
                      (subst
                        (λ y.
                          StopReason c height blue_score act s.utxo registry i s.fees y (tx ∷ txs))
                        (why _ same _ refl) (refused not_cb p)))
              | inl (a, p) ↦ elim (Option-cases (checked_add u64_max s.fees a.fee)) [
                | inl over ↦
                    let same : here ≡ (a.registry, err value_overflow) =
                      ground (arith, not_cb, p, over) in
                    subst goal (sym same) (
                      subst
                        (λ y.
                          Stopped c height blue_score act i s.fees (tx ∷ txs) s.utxo registry
                            a.registry y)
                        (why _ same _ refl)
                        (overflowed c height blue_score act i s.fees tx txs s.utxo registry a not_cb
                          p (ground (arith, over))))
                | inr (fees, q) ↦
                    let s' : Staged = record {
                      utxo = a.utxo;
                      coinbase = s.coinbase;
                      fees = fees;
                    } in
                    let same : here ≡ run (suc i) txs s' a.registry =
                      ground (arith, not_cb, p, q) in
                    let sum : fees ≡ s.fees + a.fee = ground (arith, q) in
                    subst goal (sym same) (
                      after_regular c height blue_score act i s.fees tx txs s.utxo registry
                        (run (suc i) txs s' a.registry).0 e a not_cb p
                        (subst
                          (λ n.
                            Stopped c height blue_score act (suc i) n txs a.utxo a.registry
                              (run (suc i) txs s' a.registry).0 e)
                          sum (apply_txs-Stopped (suc i) txs s' a.registry e (why _ same))))
              ]
            ]
      ]

  -- If a block is refused, the set of unspent outputs is as before it. The registry is the one that
  -- the transactions before the failure leave, each applied to what the one before leaves; then
  -- comes the end of the block, a transaction refused with the same error, a coinbase that is not
  -- the first, or the fees exceed 64 bits.
  pub apply_block_inner-Stopped :
      (utxo : UtxoSet) (registry : Option StakeState) (txs : List Transaction)
      (subsidy cumulative_minted : ℕ) (e : LedgerError)
      → (apply_block_inner c height blue_score act utxo registry txs subsidy
          cumulative_minted).answer
        ≡ err e
      → ((apply_block_inner c height blue_score act utxo registry txs subsidy
            cumulative_minted).utxo
          ≡ utxo)
        × Stopped c height blue_score act 0 0 txs utxo registry
            (apply_block_inner c height blue_score act utxo registry txs subsidy
              cumulative_minted).registry
            e
  unfolding apply_block_inner
  apply_block_inner-Stopped utxo registry txs subsidy cumulative_minted e h =
      let s : Staged = record { utxo = utxo; coinbase = none; fees = 0 } in
      let run = apply_txs c height blue_score act 0 txs s registry in
      let finish = finish_block c height blue_score act subsidy cumulative_minted in
      elim (Result-cases (run.1 >>= finish)) [
        | inl (r, p) ↦ ground (arith, p, h)
        | inr (x, p) ↦
            let left : Transition = record { utxo = utxo; registry = run.0; answer = err x } in
            let same : apply_block_inner c height blue_score act utxo registry txs subsidy
                  cumulative_minted
                ≡ left =
              ground (arith, p) in
            let given : x ≡ e = ground (arith, p, h) in
            let loop : (y : LedgerError) → run.1 ≡ err y → y ≡ e =
              λ y q. ground (arith, p, q, given) in
            subst
              (λ (t : Transition).
                (t.utxo ≡ utxo)
                × Stopped c height blue_score act 0 0 txs utxo registry t.registry e)
              (sym same) (refl, apply_txs-Stopped 0 txs s registry e loop)
      ]
