-- ===== src/Ledger/Effect.antt =====
-- The set of unspent outputs after `remove_inputs` and `add_outputs`, look-up by look-up.
use kovanica_node.Common.{
  ℕ, zero, suc, ◌+◌, ◌%◌, ◌^◌, ◌≡◌, refl, sym, ap, subst, Bool, true, false, none, some, List, [],
  ◌∷◌, ok, arith, get_elem?, Option-cases, inl, inr,
}
use kovanica_node.Common.Map
use kovanica_node.Common.Map.{get-insert, get-remove}
use kovanica_node.Tx.{TxId, OutPoint, TxInput, TxOutput, outpoint_eq, outpoint_eq_iff}
use kovanica_node.Utxo
use kovanica_node.Utxo.{
  UtxoSet, UtxoEntry, outpoint_key, insert_with_height, insert_coinbase, insert_entry,
}
use kovanica_node.Ledger.{Ledger}
use kovanica_node.Ledger.Apply.{add_outputs, remove_inputs}

pub add_outputs-step :
    (txid : TxId) (i : ℕ) (o : TxOutput) (outputs : List TxOutput) (height : ℕ) (coinbase : Bool)
    (s after : UtxoSet)
    → add_outputs txid i (o ∷ outputs) height coinbase s ≡ ok after
    → (Map.get (record { tx = txid; index = i % 2 ^ 32 }) s ≡ none)
      × (add_outputs txid (suc i) outputs height coinbase (
            Map.insert
              (record { tx = txid; index = i % 2 ^ 32 })
              (record { output = o; creation_height = height; is_coinbase = coinbase })
              s)
          ≡ ok after)
unfolding add_outputs insert_with_height insert_coinbase insert_entry
add_outputs-step txid i o outputs height true s after e =
    elim (Option-cases (Map.get (record { tx = txid; index = i % 2 ^ 32 }) s)) [
      | inl free ↦ ground (arith, e, free)
      | inr (old, taken) ↦ ground (arith, e, taken)
    ]
add_outputs-step txid i o outputs height false s after e =
    elim (Option-cases (Map.get (record { tx = txid; index = i % 2 ^ 32 }) s)) [
      | inl free ↦ ground (arith, e, free)
      | inr (old, taken) ↦ ground (arith, e, taken)
    ]

-- The outpoint of an output, and that it is none of them.
abbrev pub created_at : TxId → ℕ → OutPoint
created_at txid i = record { tx = txid; index = i % 2 ^ 32 }

abbrev pub IsNoOutput : TxId → ℕ → List TxOutput → OutPoint → Type 0
IsNoOutput txid i outputs o =
    (j : ℕ) (output : TxOutput)
    → get_elem? outputs j ≡ some output
    → outpoint_eq (created_at txid (i + j)) o ≡ false

abbrev pub IsNoInput : List TxInput → OutPoint → Type 0
IsNoInput inputs o =
    (j : ℕ) (input : TxInput)
    → get_elem? inputs j ≡ some input
    → outpoint_eq input.outpoint o ≡ false

module _ (txid : TxId) (height : ℕ) (coinbase : Bool) where
  abbrev pub entry_of : TxOutput → UtxoEntry
  entry_of output = record { output = output; creation_height = height; is_coinbase = coinbase }

  same_set : {s t : UtxoSet} → ◌≡◌ {A = Ledger UtxoSet} (ok s) (ok t) → s ≡ t
  same_set e = cc

  nothing_added :
      (i : ℕ) (s after : UtxoSet) → add_outputs txid i [] height coinbase s ≡ ok after → s ≡ after
  unfolding add_outputs
  nothing_added i s after h = same_set h

  add_outputs-stays :
      (i : ℕ) (outputs : List TxOutput) (s after : UtxoSet) (o : OutPoint) (e : UtxoEntry)
      → add_outputs txid i outputs height coinbase s ≡ ok after
      → Map.get o s ≡ some e
      → Map.get o after ≡ some e
  add_outputs-stays i [] s after o e h here =
      subst (λ t. Map.get o t ≡ some e) (nothing_added i s after h) here
  add_outputs-stays i (output ∷ outputs) s after o e h here =
      let p = created_at txid i in
      let (free, h') = add_outputs-step txid i output outputs height coinbase s after h in
      add_outputs-stays (suc i) outputs (Map.insert p (entry_of output) s) after o e h'
        (grind (arith, free, here, get-insert o p (entry_of output) s, outpoint_eq_iff p o))

  pub add_outputs-created :
      (i : ℕ) (outputs : List TxOutput) (s after : UtxoSet) (j : ℕ) (output : TxOutput)
      → add_outputs txid i outputs height coinbase s ≡ ok after
      → get_elem? outputs j ≡ some output
      → Map.get (created_at txid (i + j)) after ≡ some (entry_of output)
  add_outputs-created i [] s after j output h at = ground (arith, at)
  add_outputs-created i (x ∷ outputs) s after zero output h at =
      let p = created_at txid i in
      let (free, h') = add_outputs-step txid i x outputs height coinbase s after h in
      let same : x ≡ output = ground (arith, at) in
      let first : Map.get p (Map.insert p (entry_of x) s) ≡ some (entry_of output) =
        ground (arith, get-insert p p (entry_of x) s, outpoint_eq_iff p p, same) in
      let kept =
        add_outputs-stays (suc i) outputs (Map.insert p (entry_of x) s) after p (entry_of output) h'
          first in
      subst (λ n. Map.get (created_at txid n) after ≡ some (entry_of output)) (omega arith) kept
  add_outputs-created i (x ∷ outputs) s after (suc j) output h at =
      let (_, h') = add_outputs-step txid i x outputs height coinbase s after h in
      let rest =
        add_outputs-created (suc i) outputs (Map.insert (created_at txid i) (entry_of x) s) after j
          output h' at in
      subst (λ n. Map.get (created_at txid n) after ≡ some (entry_of output)) (omega arith) rest

  pub add_outputs-kept :
      (i : ℕ) (outputs : List TxOutput) (s after : UtxoSet) (o : OutPoint)
      → add_outputs txid i outputs height coinbase s ≡ ok after
      → IsNoOutput txid i outputs o
      → Map.get o after ≡ Map.get o s
  add_outputs-kept i [] s after o h other = ap (Map.get o) (sym (nothing_added i s after h))
  add_outputs-kept i (x ∷ outputs) s after o h other =
      let p = created_at txid i in
      let (_, h') = add_outputs-step txid i x outputs height coinbase s after h in
      let first : outpoint_eq p o ≡ false =
        subst (λ n. outpoint_eq (created_at txid n) o ≡ false) (omega arith) (other 0 x refl) in
      let later : IsNoOutput txid (suc i) outputs o = λ j output at.
        subst (λ n. outpoint_eq (created_at txid n) o ≡ false) (omega arith)
          (other (suc j) output at) in
      ground (
        arith,
        add_outputs-kept (suc i) outputs (Map.insert p (entry_of x) s) after o h' later,
        get-insert o p (entry_of x) s,
        first,
      )

pub remove_inputs-kept :
    (inputs : List TxInput) (s : UtxoSet) (o : OutPoint)
    → IsNoInput inputs o
    → Map.get o (remove_inputs inputs s) ≡ Map.get o s
unfolding remove_inputs Utxo.remove
remove_inputs-kept [] s o other = refl
remove_inputs-kept (input ∷ inputs) s o other = ground (
  arith,
  remove_inputs-kept inputs (Map.remove input.outpoint s) o (λ j. other (suc j)),
  other 0 input refl,
  get-remove o input.outpoint s,
)

remove_inputs-gone :
    (inputs : List TxInput) (s : UtxoSet) (o : OutPoint)
    → Map.get o s ≡ none
    → Map.get o (remove_inputs inputs s) ≡ none
unfolding remove_inputs Utxo.remove
remove_inputs-gone [] s o h = h
remove_inputs-gone (input ∷ inputs) s o h =
    remove_inputs-gone inputs (Map.remove input.outpoint s) o
      (ground (arith, h, get-remove o input.outpoint s))

pub remove_inputs-spent :
    (inputs : List TxInput) (s : UtxoSet) (j : ℕ) (input : TxInput)
    → get_elem? inputs j ≡ some input
    → Map.get input.outpoint (remove_inputs inputs s) ≡ none
unfolding remove_inputs Utxo.remove
remove_inputs-spent [] s j input at = ground (arith, at)
remove_inputs-spent (x ∷ inputs) s zero input at =
    let same : x ≡ input = ground (arith, at) in
    remove_inputs-gone inputs (Map.remove x.outpoint s) input.outpoint (
      ground (
        arith,
        same,
        get-remove input.outpoint x.outpoint s,
        outpoint_eq_iff x.outpoint input.outpoint,
      ))
remove_inputs-spent (x ∷ inputs) s (suc j) input at =
    remove_inputs-spent inputs (Map.remove x.outpoint s) j input at
