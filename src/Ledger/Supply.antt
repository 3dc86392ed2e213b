-- ===== src/Ledger/Supply.antt =====
-- The total of an asset in the set of unspent outputs, under transactions and blocks.
use kovanica_node.Common.{
  ℕ, suc, ◌+◌, ◌%◌, ◌^◌, ◌≤◌, ◌≡◌, refl, ap, subst, Bool, true, false, Option, none, List, [], ◌∷◌,
  ok, arith, Option-cases, inl, inr,
}
use kovanica_node.Common.Map
use kovanica_node.Common.Map.{IsMap, insert-IsMap, remove-IsMap, get-remove}
use kovanica_node.Crypto.{Crypto}
use kovanica_node.Tx.{
  AssetId, TxId, OutPoint, TxInput, TxOutput, Transaction, outpoint_eq, outpoint_eq_iff,
}
use kovanica_node.Utxo
use kovanica_node.Utxo.{
  UtxoSet, UtxoEntry, outpoint_key, sum_outputs, insert_with_height, insert_coinbase, insert_entry,
}
use kovanica_node.Utxo.Totals.{value_of, sum_outputs-remove, sum_outputs-insert}
use kovanica_node.Validation.{contains}
use kovanica_node.Stake.{StakeState}
use kovanica_node.Ledger.{Ledger, Activation, id}
use kovanica_node.Ledger.Apply.{Applied, add_outputs, remove_inputs, apply_regular}
use kovanica_node.Ledger.Conservation.{value_in, sum_of, sum_spent, spent_value}
use kovanica_node.Ledger.Passed.{Spends, apply_regular-HasPassed}
use kovanica_node.Ledger.Effect.{add_outputs-step}

-- What the set holds of an asset.
abbrev pub supply : Option AssetId → UtxoSet → ℕ
supply asset = sum_outputs (value_in asset)

spent-value_of :
    (asset : Option AssetId) (o : OutPoint) (s : UtxoSet)
    → spent_value asset (Utxo.get o s) ≡ value_of (value_in asset) (Map.get o s)
unfolding spent_value Utxo.get Utxo.get_entry
spent-value_of asset o s = elim (Option-cases (Map.get o s)) [
  | inl p ↦ ground (arith, p)
  | inr (entry, p) ↦ ground (arith, p)
]

module _ (asset : Option AssetId) where
  pub add_outputs-supply :
      (txid : TxId) (i : ℕ) (outputs : List TxOutput) (height : ℕ) (coinbase : Bool)
      (s after : UtxoSet)
      → IsMap s
      → add_outputs txid i outputs height coinbase s ≡ ok after
      → IsMap after × (supply asset after ≡ supply asset s + sum_of asset outputs)
  unfolding sum_of
  add_outputs-supply txid i [] height coinbase s after m e =
      let same : ◌≡◌ {A = Ledger UtxoSet} (ok s) (ok after) = unfold add_outputs in e in
      let same' : s ≡ after = cc in
      (subst IsMap same' m, omega (arith, ap (λ t. supply asset t) same'))
  add_outputs-supply txid i (o ∷ outputs) height coinbase s after m e =
      let outpoint : OutPoint = record { tx = txid; index = i % 2 ^ 32 } in
      let entry : UtxoEntry = record {
        output = o;
        creation_height = height;
        is_coinbase = coinbase;
      } in
      let (free, e') = add_outputs-step txid i o outputs height coinbase s after e in
      let added = sum_outputs-insert (value_in asset) outpoint entry s m in
      let none_before : value_of (value_in asset) (Map.get outpoint s) ≡ 0 =
        ap (value_of (value_in asset)) free in
      let (map, rest) =
        add_outputs-supply txid (suc i) outputs height coinbase (Map.insert outpoint entry s) after
          (insert-IsMap outpoint entry s m) e' in
      (map, omega (arith, rest, added, none_before))

  -- An outpoint that is spent before no longer matters to the inputs after it.
  sum_spent-remove :
      (c : Crypto) (tx : Transaction) (height : ℕ) (staging s : UtxoSet) (o : OutPoint)
      (seen : List OutPoint) (i : ℕ) (inputs : List TxInput)
      → Spends c tx height staging seen i inputs
      → contains seen o ≡ true
      → sum_spent (Utxo.remove o s) asset inputs ≡ sum_spent s asset inputs
  unfolding Spends sum_spent contains Utxo.remove Utxo.get Utxo.get_entry
  sum_spent-remove c tx height staging s o seen i [] d h = refl
  sum_spent-remove c tx height staging s o seen i (input ∷ inputs) (new, (spend, d)) h =
      let apart : outpoint_eq o input.outpoint ≡ false =
        grind (arith, new, h, outpoint_eq_iff o input.outpoint) in
      let rest =
        sum_spent-remove c tx height staging s o (input.outpoint ∷ seen) (suc i) inputs d
          (ground (arith, h)) in
      ground (arith, rest, apart, get-remove input.outpoint o s)

  remove_inputs-supply :
      (c : Crypto) (tx : Transaction) (height : ℕ) (staging s : UtxoSet) (seen : List OutPoint)
      (i : ℕ) (inputs : List TxInput)
      → IsMap s
      → Spends c tx height staging seen i inputs
      → IsMap (remove_inputs inputs s)
        × (supply asset (remove_inputs inputs s) + sum_spent s asset inputs ≡ supply asset s)
  unfolding Spends sum_spent remove_inputs spent_value Utxo.remove Utxo.get Utxo.get_entry
  remove_inputs-supply c tx height staging s seen i [] m d = (m, omega arith)
  remove_inputs-supply c tx height staging s seen i (input ∷ inputs) m (new, (spend, d)) =
      let o = input.outpoint in
      let here : contains (o ∷ seen) o ≡ true =
        unfold contains in ground (arith, outpoint_eq_iff o o) in
      let rest =
        remove_inputs-supply c tx height staging (Map.remove o s) (o ∷ seen) (suc i) inputs
          (remove-IsMap o s m) d in
      let kept = sum_spent-remove c tx height staging s o (o ∷ seen) (suc i) inputs d here in
      let less = sum_outputs-remove (value_in asset) o s m in
      let value : spent_value asset (Utxo.get o s) ≡ value_of (value_in asset) (Map.get o s) =
        spent-value_of asset o s in
      (rest.0, omega (arith, rest.1, kept, less, value))

module _ (c : Crypto) (height blue_score : ℕ) (act : Activation) where
  -- An applied transaction takes its fee from the supply of the native asset, and adds to no asset.
  pub apply_regular-supply :
      (tx : Transaction) (staging : UtxoSet) (registry : Option StakeState) (a : Applied)
      → IsMap staging
      → apply_regular c height blue_score act tx staging registry ≡ ok a
      → IsMap a.utxo
        × (supply none a.utxo + a.fee ≡ supply none staging)
        × ((asset : Option AssetId) → supply asset a.utxo ≤ supply asset staging)
  apply_regular-supply tx staging registry a m e =
      let h = apply_regular-HasPassed c height blue_score act tx staging registry a e in
      let spent = remove_inputs tx.inputs staging in
      let out : (asset : Option AssetId)
          → IsMap spent
            × (supply asset spent + sum_spent staging asset tx.inputs ≡ supply asset staging) =
        λ asset. remove_inputs-supply asset c tx height staging staging [] 0 tx.inputs m h.spends in
      let back : (asset : Option AssetId)
          → IsMap a.utxo × (supply asset a.utxo ≡ supply asset spent + sum_of asset tx.outputs) =
        λ asset.
          add_outputs-supply asset (id c tx) 0 tx.outputs height false spent a.utxo (out asset).0
            h.effect in
      (
        (back none).0,
        omega (arith, (out none).1, (back none).1, h.conserved.balanced),
        λ asset. omega (arith, (out asset).1, (back asset).1, h.conserved.bounded asset),
      )
