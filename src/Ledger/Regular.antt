-- ===== src/Ledger/Regular.antt =====
-- What an applied transaction is, and what it does to the set of unspent outputs.
use kovanica_node.Common.{
  ℕ, ◌+◌, arith, subst, ◌≤◌, ◌≡◌, ◌∙◌, false, Option, none, some, [], ok, get_elem?,
}
use kovanica_node.Common.Map
use kovanica_node.Crypto.{Crypto}
use kovanica_node.Tx.{OutPoint, TxInput, TxOutput, Transaction}
use kovanica_node.Utxo.{UtxoSet, outpoint_key}
use kovanica_node.Stake.{StakeState}
use kovanica_node.Ledger.{Activation, id}
use kovanica_node.Ledger.Apply.{Applied, remove_inputs, apply_regular}
use kovanica_node.Ledger.Conservation.{IsConserved}
use kovanica_node.Ledger.Passed.{Spends, apply_regular-HasPassed}
use kovanica_node.Ledger.Effect.{
  created_at, IsNoOutput, IsNoInput, entry_of, add_outputs-created, add_outputs-kept,
  remove_inputs-kept, remove_inputs-spent,
}

pub record IsApplied (c : Crypto) (tx : Transaction) (height : ℕ) (staging : UtxoSet) (a : Applied)
    : Type 0 where
  pub final : tx.n_lock_time ≤ height
  pub spends : Spends c tx height staging [] 0 tx.inputs
  pub conserved : IsConserved c tx staging a.fee
  pub created :
      (j : ℕ) (output : TxOutput)
      → get_elem? tx.outputs j ≡ some output
      → Map.get (created_at (id c tx) j) a.utxo
        ≡ some (record { output = output; creation_height = height; is_coinbase = false })
  pub spent :
      (j : ℕ) (input : TxInput)
      → get_elem? tx.inputs j ≡ some input
      → IsNoOutput (id c tx) 0 tx.outputs input.outpoint
      → Map.get input.outpoint a.utxo ≡ none
  pub kept :
      (o : OutPoint)
      → IsNoInput tx.inputs o
      → IsNoOutput (id c tx) 0 tx.outputs o
      → Map.get o a.utxo ≡ Map.get o staging

zero_add : (j : ℕ) → 0 + j ≡ j
zero_add j = omega arith

-- A transaction that is applied is final at its height, each input spends a different, mature entry
-- of the set with its authorisation, and every asset is conserved with the returned fee. In the set
-- afterwards each output stands under the transaction's identity and the output's index, with the
-- height; a spent outpoint that is not one of these has no entry; every other outpoint has the
-- entry that it had before.
pub apply_regular-IsApplied :
    (c : Crypto) (height blue_score : ℕ) (act : Activation) (tx : Transaction) (staging : UtxoSet)
    (registry : Option StakeState) (a : Applied)
    → apply_regular c height blue_score act tx staging registry ≡ ok a
    → IsApplied c tx height staging a
apply_regular-IsApplied c height blue_score act tx staging registry a e =
    let p = apply_regular-HasPassed c height blue_score act tx staging registry a e in
    let less = remove_inputs tx.inputs staging in
    let kept = add_outputs-kept (id c tx) height false 0 tx.outputs less a.utxo in
    record {
      final = p.final;
      spends = p.spends;
      conserved = p.conserved;
      created = λ j output at.
          subst
            (λ n.
              Map.get (created_at (id c tx) n) a.utxo
              ≡ some (entry_of (id c tx) height false output))
            (zero_add j)
            (add_outputs-created (id c tx) height false 0 tx.outputs less a.utxo j output p.effect
              at);
      spent = λ j input at other.
          kept input.outpoint p.effect other ∙ remove_inputs-spent tx.inputs staging j input at;
      kept =
          λ o unspent other. kept o p.effect other ∙ remove_inputs-kept tx.inputs staging o unspent;
    }
