-- ===== src/Ledger/Block.antt =====
-- `apply_block_inner` and its two callers.
use kovanica_node.Common.{
  ℕ, suc, ◌*◌, ◌/◌, Option, none, some, List, [], ◌∷◌, ok, err, ◌==◌, if◌then◌else◌,
}
use kovanica_node.Common.Words.{u64_max, checked_add}
use kovanica_node.Crypto.{Crypto}
use kovanica_node.Tx.{Transaction, is_coinbase}
use kovanica_node.Utxo.{UtxoSet}
use kovanica_node.Stake.{StakeState}
use kovanica_node.Ledger.{
  fee_producer_num, fee_producer_den, value_overflow, misplaced_coinbase, Ledger, ◌>>=◌, Activation,
  id,
}
use kovanica_node.Ledger.Apply.{BlockSummary, apply_regular, apply_coinbase}

-- The result of a block: the two states that the caller holds afterwards, and the answer.
pub record Transition : Type 0 where
  pub utxo : UtxoSet
  pub registry : Option StakeState
  pub answer : Ledger BlockSummary

-- What the loop over the transactions leaves when it completes.
pub record Staged : Type 0 where
  pub utxo : UtxoSet
  pub coinbase : Option Transaction
  pub fees : ℕ

module _ (c : Crypto) (height blue_score : ℕ) (act : Activation) where
  -- The registry afterwards stands apart from the answer: an error does not undo it.
  unfoldable pub apply_txs :
      ℕ → List Transaction → Staged → Option StakeState → Option StakeState × Ledger Staged
  apply_txs i [] s registry = (registry, ok s)
  apply_txs i (tx ∷ txs) s registry =
      let as_coinbase =
        apply_txs (suc i) txs (record { utxo = s.utxo; coinbase = some tx; fees = s.fees })
          registry in
      let as_regular : Option StakeState × Ledger Staged =
        elim (apply_regular c height blue_score act tx s.utxo registry) [
          | err e ↦ (registry, err e)
          | ok a ↦ elim (checked_add u64_max s.fees a.fee) [
            | none ↦ (a.registry, err value_overflow)
            | some fees ↦
                apply_txs (suc i) txs (record { utxo = a.utxo; coinbase = s.coinbase; fees = fees })
                  a.registry
          ]
        ] in
      if is_coinbase tx
      then (if i == 0 then as_coinbase else (registry, err (misplaced_coinbase (id c tx))))
      else as_regular

  -- The coinbase comes last, when the fees are known.
  unfoldable pub finish_block : ℕ → ℕ → Staged → Ledger (UtxoSet × BlockSummary)
  finish_block subsidy cumulative_minted s =
      elim (checked_add u64_max subsidy (s.fees / fee_producer_den * fee_producer_num)) [
        | none ↦ err value_overflow
        | some allowed ↦ elim s.coinbase [
          | none ↦ ok (s.utxo, record { fees = s.fees; minted = 0 })
          | some cb ↦
              apply_coinbase c height blue_score act cb allowed cumulative_minted s.utxo >>= λ r.
              ok (r.0, record { fees = s.fees; minted = r.1 })
        ]
      ]

  unfoldable pub apply_block_inner :
      UtxoSet → Option StakeState → List Transaction → ℕ → ℕ → Transition
  apply_block_inner utxo registry txs subsidy cumulative_minted =
      let (next, staged) =
        apply_txs 0 txs (record { utxo = utxo; coinbase = none; fees = 0 }) registry in
      elim (staged >>= finish_block subsidy cumulative_minted) [
        | ok (after, summary) ↦ record { utxo = after; registry = next; answer = ok summary }
        | err e ↦ record { utxo = utxo; registry = next; answer = err e }
      ]

-- The activation scores of the release: all 0.
abbrev pub default_activation : Activation
default_activation = record {
  multisig_score = 0;
  native_token_score = 0;
  stealth_score = 0;
  script_v2_score = 0;
  htlc_score = 0;
  vault_score = 0;
}

-- `apply_block` keeps no registry.
unfoldable pub apply_block : Crypto → UtxoSet → List Transaction → ℕ → Transition
apply_block c utxo txs subsidy =
    apply_block_inner c 0 u64_max default_activation utxo none txs subsidy 0

unfoldable pub apply_block_with_stake :
    Crypto → UtxoSet → StakeState → List Transaction → ℕ → ℕ → Transition
apply_block_with_stake c utxo registry txs subsidy height =
    apply_block_inner c height u64_max default_activation utxo (some registry) txs subsidy 0
