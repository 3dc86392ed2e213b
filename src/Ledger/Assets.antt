-- ===== src/Ledger/Assets.antt =====
-- The conservation of every asset, and the fee.
use kovanica_node.Common.{
  ℕ, ◌-◌, Bool, true, false, ◌&&◌, Option, none, some, List, [], ◌∷◌, ok, err, ltb, ◌==◌,
  if◌then◌else◌,
}
use kovanica_node.Common.Words.{u64_max, checked_add}
use kovanica_node.Common.Map
use kovanica_node.Common.Map.{Map, Eq}
use kovanica_node.Crypto.{Crypto}
use kovanica_node.Tx.{AssetId, TxInput, TxOutput, Transaction}
use kovanica_node.Utxo
use kovanica_node.Utxo.{UtxoSet, asset_eq, asset_eq_iff}
use kovanica_node.Stake.State.{or_zero}
use kovanica_node.Ledger.{
  missing_input, value_overflow, zero_value_output, asset_not_conserved, Ledger, ◌>>=◌, id,
}
use kovanica_node.Ledger.Authorise.{Done}

instance abbrev pub asset_key : Eq (Option AssetId)
asset_key = record { beq = asset_eq; beq_iff = asset_eq_iff }

abbrev pub Amounts : Type 0
Amounts = Map (Option AssetId) ℕ

-- `*entry(asset_id).or_insert(0) += value`, checked.
unfoldable pub add_amount : Option AssetId → ℕ → Amounts → Ledger Amounts
add_amount asset value m = elim (checked_add u64_max (or_zero (Map.get asset m)) value) [
  | none ↦ err value_overflow
  | some sum ↦ ok (Map.insert asset sum m)
]

unfoldable pub input_amounts : UtxoSet → List TxInput → Amounts → Ledger Amounts
input_amounts staging [] m = ok m
input_amounts staging (input ∷ inputs) m = elim (Utxo.get input.outpoint staging) [
  | none ↦ err (missing_input input.outpoint)
  | some prev ↦ add_amount prev.asset_id prev.value m >>= λ next. input_amounts staging inputs next
]

abbrev pub absent : Option ℕ → Bool
absent none = true
absent (some _) = false

module _ (c : Crypto) (tx : Transaction) where
  unfoldable pub output_amounts : List TxOutput → Amounts → Ledger Amounts
  output_amounts [] m = ok m
  output_amounts (output ∷ outputs) m =
      let rest =
        add_amount output.asset_id output.value m >>= λ next. output_amounts outputs next in
      if output.value == 0 then err (zero_value_output (id c tx)) else rest

  -- The loop over the assets of the inputs.
  unfoldable pub check_spent : Amounts → Amounts → Done
  check_spent outs [] = ok tt
  check_spent outs ((asset, in_val) ∷ ins) =
      let rest = check_spent outs ins in
      let out_val = or_zero (Map.get asset outs) in
      if ltb in_val out_val then err (asset_not_conserved (id c tx) asset in_val out_val) else rest

  -- The loop over the assets of the outputs.
  unfoldable pub check_created : Amounts → Amounts → Done
  check_created ins [] = ok tt
  check_created ins ((asset, out_val) ∷ outs) =
      let rest = check_created ins outs in
      if absent (Map.get asset ins) && ltb 0 out_val
      then err (asset_not_conserved (id c tx) asset 0 out_val)
      else rest

  unfoldable pub native_fee : Amounts → Amounts → Ledger ℕ
  native_fee ins outs =
      let native_in = or_zero (Map.get none ins) in
      let native_out = or_zero (Map.get none outs) in
      if ltb native_in native_out
      then err (asset_not_conserved (id c tx) none native_in native_out)
      else ok (native_in - native_out)

  unfoldable pub conserve : UtxoSet → Ledger ℕ
  conserve staging = do
    ins ← input_amounts staging tx.inputs []
    outs ← output_amounts tx.outputs []
    _ ← check_spent outs ins
    _ ← check_created ins outs
    native_fee ins outs
