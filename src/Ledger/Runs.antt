-- ===== src/Ledger/Runs.antt =====
-- How far the transactions of a block run, and why they stop.
use kovanica_node.Common.{
  ℕ, suc, ◌+◌, ◌<◌, ◌≡◌, refl, ap, subst, true, false, Option, List, [], ◌∷◌, ◌++◌, ok, err, arith,
  length,
}
use kovanica_node.Common.Words.{u64_max}
use kovanica_node.Crypto.{Crypto}
use kovanica_node.Tx.{Transaction, is_coinbase}
use kovanica_node.Utxo.{UtxoSet}
use kovanica_node.Stake.{StakeState}
use kovanica_node.Ledger.{LedgerError, value_overflow, misplaced_coinbase, Activation, id}
use kovanica_node.Ledger.Apply.{Applied, apply_regular}

module _ (c : Crypto) (height blue_score : ℕ) (act : Activation) where
  -- The transactions in turn, each on the set and the registry that the one before leaves, and the
  -- sum of their fees. A coinbase leaves both.
  pub data Runs
      : List Transaction
        → UtxoSet
        → Option StakeState
        → UtxoSet
        → Option StakeState
        → ℕ
        → Type 0 where
    none_left :
        {utxo : UtxoSet} {registry : Option StakeState} → Runs [] utxo registry utxo registry 0
    coinbase :
        {tx : Transaction} {txs : List Transaction} {utxo after : UtxoSet}
        {registry next : Option StakeState} {fees : ℕ}
        → is_coinbase tx ≡ true
        → Runs txs utxo registry after next fees
        → Runs (tx ∷ txs) utxo registry after next fees
    regular :
        {tx : Transaction} {txs : List Transaction} {utxo after : UtxoSet}
        {registry next : Option StakeState} {fees : ℕ} (a : Applied)
        → is_coinbase tx ≡ false
        → apply_regular c height blue_score act tx utxo registry ≡ ok a
        → Runs txs a.utxo a.registry after next fees
        → Runs (tx ∷ txs) utxo registry after next (a.fee + fees)

  -- Why no transaction runs after `count` of them, with so many fees: there is none, the next one is
  -- refused, it is a coinbase that is not the first, or the fees exceed a word.
  pub data StopReason (staged : UtxoSet) (next : Option StakeState) (count fees : ℕ)
      : LedgerError → List Transaction → Type 0 where
    completed : {e : LedgerError} → StopReason staged next count fees e []
    refused :
        {e : LedgerError} {tx : Transaction} {txs : List Transaction}
        → is_coinbase tx ≡ false
        → apply_regular c height blue_score act tx staged next ≡ err e
        → StopReason staged next count fees e (tx ∷ txs)
    misplaced :
        {tx : Transaction} {txs : List Transaction}
        → is_coinbase tx ≡ true
        → 0 < count
        → StopReason staged next count fees (misplaced_coinbase (id c tx)) (tx ∷ txs)
    overflow :
        {txs : List Transaction}
        → u64_max < fees
        → StopReason staged next count fees value_overflow txs

  pub record Stopped (i fees : ℕ) (txs : List Transaction) (utxo : UtxoSet)
      (registry next : Option StakeState) (e : LedgerError) : Type 0 where
    pub applied : List Transaction
    pub skipped : List Transaction
    pub whole : txs ≡ applied ++ skipped
    pub staged : UtxoSet
    pub paid : ℕ
    pub runs : Runs applied utxo registry staged next paid
    pub reason : StopReason staged next (i + length applied) (fees + paid) e skipped

  pub StopReason-Stopped :
      (i fees : ℕ) (txs : List Transaction) (utxo : UtxoSet) (registry : Option StakeState)
      (e : LedgerError)
      → StopReason utxo registry i fees e txs
      → Stopped i fees txs utxo registry registry e
  StopReason-Stopped i fees txs utxo registry e r = record {
    applied = [];
    skipped = txs;
    whole = refl;
    staged = utxo;
    paid = 0;
    runs = none_left;
    reason =
        subst (λ n. StopReason utxo registry n (fees + 0) e txs) (omega arith)
          (subst (λ n. StopReason utxo registry i n e txs) (omega arith) r);
  }

  pub after_coinbase :
      (i fees : ℕ) (tx : Transaction) (txs : List Transaction) (utxo : UtxoSet)
      (registry next : Option StakeState) (e : LedgerError)
      → is_coinbase tx ≡ true
      → Stopped (suc i) fees txs utxo registry next e
      → Stopped i fees (tx ∷ txs) utxo registry next e
  after_coinbase i fees tx txs utxo registry next e cb s = record {
    applied = tx ∷ s.applied;
    skipped = s.skipped;
    whole = ap (λ l. tx ∷ l) s.whole;
    staged = s.staged;
    paid = s.paid;
    runs = coinbase cb s.runs;
    reason =
        subst (λ n. StopReason s.staged next n (fees + s.paid) e s.skipped) (omega arith) s.reason;
  }

  pub after_regular :
      (i fees : ℕ) (tx : Transaction) (txs : List Transaction) (utxo : UtxoSet)
      (registry next : Option StakeState) (e : LedgerError) (a : Applied)
      → is_coinbase tx ≡ false
      → apply_regular c height blue_score act tx utxo registry ≡ ok a
      → Stopped (suc i) (fees + a.fee) txs a.utxo a.registry next e
      → Stopped i fees (tx ∷ txs) utxo registry next e
  after_regular i fees tx txs utxo registry next e a not_cb p s = record {
    applied = tx ∷ s.applied;
    skipped = s.skipped;
    whole = ap (λ l. tx ∷ l) s.whole;
    staged = s.staged;
    paid = a.fee + s.paid;
    runs = regular a not_cb p s.runs;
    reason =
        subst (λ n. StopReason s.staged next n (fees + (a.fee + s.paid)) e s.skipped) (omega arith)
          (subst (λ n. StopReason s.staged next (suc i + length s.applied) n e s.skipped)
            (omega arith) s.reason);
  }

  pub overflowed :
      (i fees : ℕ) (tx : Transaction) (txs : List Transaction) (utxo : UtxoSet)
      (registry : Option StakeState) (a : Applied)
      → is_coinbase tx ≡ false
      → apply_regular c height blue_score act tx utxo registry ≡ ok a
      → u64_max < fees + a.fee
      → Stopped i fees (tx ∷ txs) utxo registry a.registry value_overflow
  overflowed i fees tx txs utxo registry a not_cb p large =
      after_regular i fees tx txs utxo registry a.registry value_overflow a not_cb p (
        StopReason-Stopped (suc i) (fees + a.fee) txs a.utxo a.registry value_overflow
          (overflow large))
