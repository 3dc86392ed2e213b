-- ===== src/Ledger/Conservation.antt =====
-- The amounts that `conserve` compares, and the sums over the inputs and the outputs.
use kovanica_node.Common.{
  ℕ, ◌+◌, ◌≤◌, ◌≡◌, refl, true, false, Option, none, some, List, [], ◌∷◌, ok, err, if◌then◌else◌,
  arith, Option-cases, Bool-cases, inl, inr,
}
use kovanica_node.Common.Map
use kovanica_node.Common.Map.{Map, get-insert}
use kovanica_node.Crypto.{Crypto}
use kovanica_node.Tx.{AssetId, TxInput, TxOutput, Transaction}
use kovanica_node.Utxo
use kovanica_node.Utxo.{UtxoSet, asset_eq, asset_eq_iff}
use kovanica_node.Stake.State.{or_zero}
use kovanica_node.Ledger.{Ledger, ◌>>=◌}
use kovanica_node.Ledger.Assets.{
  asset_key, Amounts, add_amount, input_amounts, output_amounts, check_spent, check_created,
  native_fee, conserve, absent,
}

-- The value of an output in the units of `asset`.
abbrev pub value_in : Option AssetId → TxOutput → ℕ
value_in asset o = if asset_eq o.asset_id asset then o.value else 0

unfoldable pub sum_of : Option AssetId → List TxOutput → ℕ
sum_of asset [] = 0
sum_of asset (o ∷ outputs) = value_in asset o + sum_of asset outputs

unfoldable pub spent_value : Option AssetId → Option TxOutput → ℕ
spent_value asset none = 0
spent_value asset (some o) = value_in asset o

-- What the inputs spend of `asset`.
unfoldable pub sum_spent : UtxoSet → Option AssetId → List TxInput → ℕ
sum_spent staging asset [] = 0
sum_spent staging asset (input ∷ inputs) =
    spent_value asset (Utxo.get input.outpoint staging) + sum_spent staging asset inputs

pub bind-ok :
    {A B : Type 0} (m : Ledger A) (f : A → Ledger B) {b : B}
    → (m >>= f) ≡ ok b
    → (a : A) × ((m ≡ ok a) × (f a ≡ ok b))
bind-ok (ok a) f h = (a, (refl, h))
bind-ok (err e) f h = cc

add_amount-ok :
    (asset other : Option AssetId) (value : ℕ) (m n : Amounts)
    → add_amount asset value m ≡ ok n
    → or_zero (Map.get other n)
      ≡ or_zero (Map.get other m) + (if asset_eq asset other then value else 0)
unfolding add_amount
add_amount-ok asset other value m n e =
    grind (
      arith,
      get-insert other asset (or_zero (Map.get asset m) + value) m,
      asset_eq_iff asset other,
    )

input_amounts-ok :
    (staging : UtxoSet) (asset : Option AssetId) (inputs : List TxInput) (m n : Amounts)
    → input_amounts staging inputs m ≡ ok n
    → or_zero (Map.get asset n) ≡ or_zero (Map.get asset m) + sum_spent staging asset inputs
unfolding input_amounts sum_spent spent_value
input_amounts-ok staging asset [] m n e = ground arith
input_amounts-ok staging asset (input ∷ inputs) m n e =
    elim (Option-cases (Utxo.get input.outpoint staging)) [
      | inl p ↦ ground (arith, p)
      | inr (prev, p) ↦
          let e' : (add_amount prev.asset_id prev.value m >>= λ next.
          input_amounts staging inputs next)
              ≡ ok n =
            ground (arith, p) in
          let (mid, (q, r)) = bind-ok (add_amount prev.asset_id prev.value m) _ e' in
          ground (
            arith,
            p,
            input_amounts-ok staging asset inputs mid n r,
            add_amount-ok prev.asset_id asset prev.value m mid q,
          )
    ]

module _ (c : Crypto) (tx : Transaction) where
  output_amounts-ok :
      (asset : Option AssetId) (outputs : List TxOutput) (m n : Amounts)
      → output_amounts c tx outputs m ≡ ok n
      → or_zero (Map.get asset n) ≡ or_zero (Map.get asset m) + sum_of asset outputs
  unfolding output_amounts sum_of
  output_amounts-ok asset [] m n e = ground arith
  output_amounts-ok asset (o ∷ outputs) m n e =
      let e' : (add_amount o.asset_id o.value m >>= λ next. output_amounts c tx outputs next)
          ≡ ok n =
        ground arith in
      let (mid, (q, r)) = bind-ok (add_amount o.asset_id o.value m) _ e' in
      omega (
        arith,
        output_amounts-ok asset outputs mid n r,
        add_amount-ok o.asset_id asset o.value m mid q,
      )

  check_spent-ok :
      (asset : Option AssetId) (outs ins : Amounts)
      → check_spent c tx outs ins ≡ ok tt
      → absent (Map.get asset ins) ≡ false
      → or_zero (Map.get asset outs) ≤ or_zero (Map.get asset ins)
  unfolding check_spent Map.get
  check_spent-ok asset outs [] e p = ground arith
  check_spent-ok asset outs ((a, v) ∷ ins) e p =
      ground (arith, check_spent-ok asset outs ins, asset_eq_iff a asset)

  check_created-ok :
      (asset : Option AssetId) (ins outs : Amounts)
      → check_created c tx ins outs ≡ ok tt
      → absent (Map.get asset ins) ≡ true
      → or_zero (Map.get asset outs) ≡ 0
  unfolding check_created Map.get
  check_created-ok asset ins [] e p = refl
  check_created-ok asset ins ((a, v) ∷ outs) e p =
      ground (arith, check_created-ok asset ins outs, asset_eq_iff a asset)

  module _ (staging : UtxoSet) where
    pub record IsConserved (fee : ℕ) : Type 0 where
      pub bounded :
          (asset : Option AssetId) → sum_of asset tx.outputs ≤ sum_spent staging asset tx.inputs
      pub balanced : sum_of none tx.outputs + fee ≡ sum_spent staging none tx.inputs

    conserve-parts :
        (fee : ℕ)
        → conserve c tx staging ≡ ok fee
        → (ins : Amounts) × ((outs : Amounts) × ((input_amounts staging tx.inputs [] ≡ ok ins)
              × ((output_amounts c tx tx.outputs [] ≡ ok outs)
                  × ((check_spent c tx outs ins ≡ ok tt)
                      × ((check_created c tx ins outs ≡ ok tt)
                          × (native_fee c tx ins outs ≡ ok fee))))))
    unfolding conserve
    conserve-parts fee e =
        let (ins, (p, e1)) = bind-ok (input_amounts staging tx.inputs []) _ e in
        let (outs, (q, e2)) = bind-ok (output_amounts c tx tx.outputs []) _ e1 in
        let (_, (r, e3)) = bind-ok (check_spent c tx outs ins) _ e2 in
        let (_, (s, e4)) = bind-ok (check_created c tx ins outs) _ e3 in
        (ins, (outs, (p, (q, (r, (s, e4))))))

    -- If the amounts are conserved with a fee, no asset has more in the outputs than the inputs spend,
    -- and what the inputs spend of the native asset is what its outputs hold and the fee.
    pub conserve-IsConserved : (fee : ℕ) → conserve c tx staging ≡ ok fee → IsConserved fee
    unfolding native_fee Map.get
    conserve-IsConserved fee e =
        let (ins, (outs, (p, (q, (r, (s, f)))))) = conserve-parts fee e in
        record {
          bounded = λ asset.
              let spent = input_amounts-ok staging asset tx.inputs [] ins p in
              let held = output_amounts-ok asset tx.outputs [] outs q in
              elim (Bool-cases (absent (Map.get asset ins))) [
                | inl new ↦ omega (arith, spent, held, check_created-ok asset ins outs s new)
                | inr old ↦ omega (arith, spent, held, check_spent-ok asset outs ins r old)
              ];
          balanced = ground (
            arith,
            f,
            input_amounts-ok staging none tx.inputs [] ins p,
            output_amounts-ok none tx.outputs [] outs q,
          );
        }
