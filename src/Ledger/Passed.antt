-- ===== src/Ledger/Passed.antt =====
-- The checks of `apply_regular`, read off an applied transaction.
use kovanica_node.Common.{
  ℕ, suc, ◌≤◌, ◌≡◌, subst, Bool, true, false, ◌||◌, Option, none, some, List, [], ◌∷◌, ok, err, ltb,
  arith, Option-cases, inl, inr,
}
use kovanica_node.Common.Words.{u64_max, checked_add}
use kovanica_node.Crypto.{Crypto}
use kovanica_node.Tx.{OutPoint, TxInput, Transaction}
use kovanica_node.Utxo.{UtxoEntry, UtxoSet, get_entry, is_spendable_at}
use kovanica_node.Validation.{contains}
use kovanica_node.Stake.{StakeState}
use kovanica_node.Stake.Tags.{parse_bond_tag, is_unbond_tag}
use kovanica_node.Ledger.{
  LedgerError, Ledger, ◌>>=◌, fail_if, Activation, id, empty_transaction, non_final_transaction,
}
use kovanica_node.Ledger.Authorise.{authorise}
use kovanica_node.Ledger.Inputs.{
  Sums, gate_outputs, gate_spend, check_maturity, check_sequence, check_frozen, check_owner,
  check_input, check_inputs,
}
use kovanica_node.Ledger.Assets.{conserve}
use kovanica_node.Ledger.Apply.{
  Applied, is_some, is_empty, add_outputs, remove_inputs, check_stake_shape, update_stake,
  apply_regular,
}
use kovanica_node.Ledger.Conservation.{bind-ok, IsConserved, conserve-IsConserved}

module _ (c : Crypto) (tx : Transaction) (height : ℕ) (staging : UtxoSet) where
  -- The input at index `i` spends a mature entry of the set, with its authorisation.
  pub record IsSpend (i : ℕ) (input : TxInput) : Type 0 where
    pub entry : UtxoEntry
    pub present : get_entry input.outpoint staging ≡ some entry
    pub mature : is_spendable_at entry height ≡ true
    pub authorised : authorise c tx i height entry input.witness ≡ ok tt

  -- Every input is a spend, of an outpoint that no input before it spends.
  unfoldable pub Spends : List OutPoint → ℕ → List TxInput → Type 0
  Spends seen i [] = Unit
  Spends seen i (input ∷ inputs) =
      (contains seen input.outpoint ≡ false)
      × (IsSpend i input × Spends (input.outpoint ∷ seen) (suc i) inputs)

  module _ (blue_score : ℕ) (act : Activation) (view : Option StakeState) (bond unbond : Bool) where
    maturity-ok :
        (outpoint : OutPoint) (entry : UtxoEntry)
        → check_maturity c tx height blue_score act outpoint entry ≡ ok tt
        → is_spendable_at entry height ≡ true
    unfolding check_maturity is_spendable_at
    maturity-ok outpoint entry e = ground arith

    check_input-ok :
        (seen : List OutPoint) (i : ℕ) (sums next : Sums) (input : TxInput)
        → check_input c tx height blue_score act view bond unbond staging seen i sums input
          ≡ ok next
        → (contains seen input.outpoint ≡ false) × IsSpend i input
    unfolding check_input
    check_input-ok seen i sums next input e =
        elim (Option-cases (get_entry input.outpoint staging)) [
          | inl p ↦ ground (arith, p)
          | inr (entry, p) ↦
              let new : contains seen input.outpoint ≡ false = ground arith in
              let (m, a) = passed entry (ground (arith, p, new)) in
              (new, record { entry = entry; present = p; mature = m; authorised = a })
        ]
      where
        tail : UtxoEntry → Ledger Sums
        tail entry = check_maturity c tx height blue_score act input.outpoint entry >>= λ _.
            gate_spend c tx height blue_score act entry.output input >>= λ _.
            check_sequence c tx height blue_score act input.outpoint entry >>= λ _.
            authorise c tx i height entry input.witness >>= λ _.
            check_frozen c tx height blue_score act view bond unbond input.outpoint >>= λ _.
            check_owner c tx height blue_score act view bond unbond entry.output.owner
              sums.first_owner
            >>= λ first. elim (checked_add u64_max sums.sum_in entry.output.value) [
              | none ↦ err LedgerError.value_overflow
              | some sum ↦ ok (record { sum_in = sum; first_owner = first })
            ]

        passed :
            (entry : UtxoEntry)
            → tail entry ≡ ok next
            → (is_spendable_at entry height ≡ true)
              × (authorise c tx i height entry input.witness ≡ ok tt)
        passed entry h =
            let (_, (m, h1)) =
              bind-ok (check_maturity c tx height blue_score act input.outpoint entry) _ h in
            let (_, (_, h2)) =
              bind-ok (gate_spend c tx height blue_score act entry.output input) _ h1 in
            let (_, (_, h3)) =
              bind-ok (check_sequence c tx height blue_score act input.outpoint entry) _ h2 in
            let (_, (a, _)) = bind-ok (authorise c tx i height entry input.witness) _ h3 in
            (maturity-ok input.outpoint entry m, a)

    check_inputs-Spends :
        (seen : List OutPoint) (i : ℕ) (sums next : Sums) (inputs : List TxInput)
        → check_inputs c tx height blue_score act view bond unbond staging seen i sums inputs
          ≡ ok next
        → Spends seen i inputs
    unfolding check_inputs Spends
    check_inputs-Spends seen i sums next [] e = tt
    check_inputs-Spends seen i sums next (input ∷ inputs) e =
        let (mid, (p, q)) =
          bind-ok
            (check_input c tx height blue_score act view bond unbond staging seen i sums input) _
            e in
        let (new, spend) = check_input-ok seen i sums mid input p in
        (new, (spend, check_inputs-Spends (input.outpoint ∷ seen) (suc i) mid next inputs q))

-- The checks that the transaction has passed, and the steps that gave the set.
pub record HasPassed (c : Crypto) (tx : Transaction) (height : ℕ) (staging : UtxoSet) (a : Applied)
    : Type 0 where
  pub final : tx.n_lock_time ≤ height
  pub spends : Spends c tx height staging [] 0 tx.inputs
  pub conserved : IsConserved c tx staging a.fee
  pub effect :
      add_outputs (id c tx) 0 tx.outputs height false (remove_inputs tx.inputs staging) ≡ ok a.utxo

ok_inj : (x y : Applied) → ◌≡◌ {A = Ledger Applied} (ok x) (ok y) → x ≡ y
ok_inj x y e = cc

pub apply_regular-HasPassed :
    (c : Crypto) (height blue_score : ℕ) (act : Activation) (tx : Transaction) (staging : UtxoSet)
    (registry : Option StakeState) (a : Applied)
    → apply_regular c height blue_score act tx staging registry ≡ ok a
    → HasPassed c tx height staging a
unfolding apply_regular
apply_regular-HasPassed c height blue_score act tx staging registry a e =
    let bond = is_some (parse_bond_tag tx.tag) in
    let unbond = is_unbond_tag tx.tag in
    let (_, (_, e1)) =
      bind-ok (fail_if (is_empty tx.inputs || is_empty tx.outputs) (empty_transaction (id c tx))) _
        e in
    let (_, (f, e2)) =
      bind-ok
        (fail_if (ltb height tx.n_lock_time)
          (non_final_transaction (id c tx) tx.n_lock_time height))
        _ e1 in
    let (_, (_, e3)) = bind-ok (gate_outputs c tx height blue_score act) _ e2 in
    let (sums, (s, e4)) =
      bind-ok
        (check_inputs c tx height blue_score act registry bond unbond staging [] 0
          (record { sum_in = 0; first_owner = none }) tx.inputs)
        _ e3 in
    let (fee, (v, e5)) = bind-ok (conserve c tx staging) _ e4 in
    let (_, (_, e6)) =
      bind-ok (check_stake_shape c height blue_score act tx registry sums.first_owner) _ e5 in
    let (utxo, (u, e7)) =
      bind-ok (add_outputs (id c tx) 0 tx.outputs height false (remove_inputs tx.inputs staging)) _
        e6 in
    let (next, (_, e8)) = bind-ok (update_stake c height blue_score act tx registry) _ e7 in
    let same = ok_inj _ a e8 in
    record {
      final = ground (arith, f);
      spends =
          check_inputs-Spends c tx height staging blue_score act registry bond unbond [] 0 _ sums
            tx.inputs s;
      conserved =
          subst (λ (x : Applied). IsConserved c tx staging x.fee) same
            (conserve-IsConserved c tx staging fee v);
      effect =
          subst
            (λ (x : Applied).
              add_outputs (id c tx) 0 tx.outputs height false (remove_inputs tx.inputs staging)
              ≡ ok x.utxo)
            same u;
    }
