-- ===== src/Validation/Accepts.antt =====
-- Exactly which transactions and payloads pass the structural checks.
use kovanica_node.Common.{
  ℕ, suc, ◌+◌, ◌^◌, ◌≤◌, ◌<◌, ◌≡◌, ◌≢◌, ◌↔◌, refl, true, false, List, [], ◌∷◌, arith, ok, length,
  All, All-zip, All-unzip, Bool-cases, inl, inr, Result-cases,
}
use kovanica_node.Tx.{
  OutPoint, TxInput, TxOutput, Transaction, outpoint_eq_iff, is_stealth, is_coinbase, has_stealth,
}
use kovanica_node.Tx.Encode.{encode}
use kovanica_node.Tx.Decode.{decode_block_payload}
use kovanica_node.Validation.{
  pass, max_tx_size, contains, check_inputs, check_stealth, check_outputs, check_role,
  validate_tx_structure, validate_txs, validate_block_payload, max_block_payload_size,
  max_txs_per_block,
}

-- No two inputs spend the same outpoint.
abbrev pub DistinctInputs : List TxInput → Type 0
DistinctInputs [] = Unit
DistinctInputs (i ∷ inputs) =
    All (λ (j : TxInput). i.outpoint ≢ j.outpoint) inputs × DistinctInputs inputs

abbrev pub total : List TxOutput → ℕ
total [] = 0
total (o ∷ outputs) = o.value + total outputs

-- An output holds value, and has a stealth extension exactly if its owner is a stealth address.
abbrev pub IsSoundOutput : TxOutput → Type 0
IsSoundOutput o = (0 < o.value) × (is_stealth o.owner ≡ has_stealth o)

abbrev pub FreshFrom : List OutPoint → OutPoint → Type 0
FreshFrom seen o = All (λ x. x ≢ o) seen

contains-FreshFrom :
    (seen : List OutPoint) (o : OutPoint) → (contains seen o ≡ false) ↔ FreshFrom seen o
unfolding contains
contains-FreshFrom [] o = (λ h. tt, λ h. refl)
contains-FreshFrom (x ∷ seen) o = (
  λ h. (
    λ e. ground (arith, outpoint_eq_iff x o),
    (contains-FreshFrom seen o).0 (ground (arith, outpoint_eq_iff x o)),
  ),
  λ h. ground (arith, outpoint_eq_iff x o, contains-FreshFrom seen o),
)

check_inputs-pass :
    (index : ℕ) (seen : List OutPoint) (inputs : List TxInput)
    → (check_inputs index seen inputs ≡ pass)
      ↔ (All (λ (i : TxInput). FreshFrom seen i.outpoint) inputs × DistinctInputs inputs)
unfolding check_inputs
check_inputs-pass index seen [] = (λ h. (tt, tt), λ h. refl)
check_inputs-pass index seen (i ∷ inputs) =
    let (to, from) = check_inputs-pass index (i.outpoint ∷ seen) inputs in
    let (old, new) = contains-FreshFrom seen i.outpoint in
    elim (Bool-cases (contains seen i.outpoint)) [
      | inl e ↦ rw e (λ h. cc, λ h. cc (e, new h.0.0))
      | inr e ↦ rw e (
        λ h.
            let (fresh, distinct) = to h in
            let (ne, rest) = All-unzip _ _ inputs fresh in ((old e, rest), (ne, distinct)),
        λ h. from (All-zip _ _ inputs h.1.0 h.0.1, h.1.1),
      )
    ]

check_outputs-pass :
    (index j sum : ℕ) (outputs : List TxOutput)
    → sum < 2 ^ 64
    → (check_outputs index j sum outputs ≡ pass)
      ↔ (All IsSoundOutput outputs × (sum + total outputs < 2 ^ 64))
unfolding check_outputs check_stealth
check_outputs-pass index j sum [] b = (λ h. (tt, omega arith), λ h. refl)
check_outputs-pass index j sum (o ∷ outputs) b = (
  λ h. ground (arith, check_outputs-pass index (j + 1) (sum + o.value) outputs),
  λ h. ground (arith, check_outputs-pass index (j + 1) (sum + o.value) outputs),
)

-- What a transaction at position `index` has to satisfy.
pub record IsSoundTx (index : ℕ) (tx : Transaction) : Type 0 where
  pub size : length (encode tx) ≤ max_tx_size
  pub coinbase_first : is_coinbase tx ≡ true → index ≡ 0
  pub has_outputs : is_coinbase tx ≡ false → 0 < length tx.outputs
  pub distinct : DistinctInputs tx.inputs
  pub outputs : All IsSoundOutput tx.outputs
  pub no_overflow : total tx.outputs < 2 ^ 64

All-always : (inputs : List TxInput) → All (λ (i : TxInput). FreshFrom [] i.outpoint) inputs
All-always [] = tt
All-always (i ∷ inputs) = (tt, All-always inputs)

-- A transaction passes the structural checks exactly if it is small enough, a coinbase stands first
-- only, any other has an output, no outpoint is spent twice, every output holds value and carries a
-- stealth extension exactly if its owner is a stealth address, and the values sum below 2^64.
pub validate_tx_structure-pass :
    (index : ℕ) (tx : Transaction) → (validate_tx_structure index tx ≡ pass) ↔ IsSoundTx index tx
unfolding validate_tx_structure check_role
validate_tx_structure-pass index tx =
    let (in_to, in_from) = check_inputs-pass index [] tx.inputs in
    let (out_to, out_from) = check_outputs-pass index 0 0 tx.outputs (omega arith) in
    (
      λ h.
          let ins : check_inputs index [] tx.inputs ≡ pass = ground arith in
          let outs : check_outputs index 0 0 tx.outputs ≡ pass = ground arith in
          record {
            size = ground arith;
            coinbase_first = λ c. ground arith;
            has_outputs = λ c. ground arith;
            distinct = (in_to ins).1;
            outputs = (out_to outs).0;
            no_overflow = omega (arith, (out_to outs).1);
          },
      λ h.
          let ins : check_inputs index [] tx.inputs ≡ pass =
            in_from (All-always tx.inputs, h.distinct) in
          let outs : check_outputs index 0 0 tx.outputs ≡ pass =
            out_from (h.outputs, omega (arith, h.no_overflow)) in
          ground (arith, h.size, h.coinbase_first, h.has_outputs),
    )

abbrev pub AllSoundFrom : ℕ → List Transaction → Type 0
AllSoundFrom index [] = Unit
AllSoundFrom index (tx ∷ txs) = IsSoundTx index tx × AllSoundFrom (suc index) txs

validate_txs-pass :
    (index : ℕ) (txs : List Transaction) → (validate_txs index txs ≡ pass) ↔ AllSoundFrom index txs
unfolding validate_txs
validate_txs-pass index [] = (λ h. tt, λ h. refl)
validate_txs-pass index (tx ∷ txs) =
    let (to, from) = validate_tx_structure-pass index tx in
    let (tos, froms) = validate_txs-pass (suc index) txs in
    (
      λ h. (to (ground arith), tos (ground arith)),
      λ h. let e = from h.0 in let es = froms h.1 in ground arith,
    )

-- A payload that is well formed by itself: within the size limits, decodable, each transaction sound.
abbrev pub IsSoundPayload : List ℕ → Type 0
IsSoundPayload bytes =
    (length bytes ≤ max_block_payload_size)
    × ((txs : List Transaction) × (decode_block_payload bytes ≡ ok txs)
        × (length txs ≤ max_txs_per_block)
        × AllSoundFrom 0 txs)

-- The payload check accepts exactly the payloads of at most 1,000,000 bytes that decode to at most
-- 1000 transactions, each of which is structurally sound at its position in the block.
pub validate_block_payload-pass :
    (bytes : List ℕ) → (validate_block_payload bytes ≡ pass) ↔ IsSoundPayload bytes
unfolding validate_block_payload
validate_block_payload-pass bytes = (accepted, accepts)
  where
    accepted : validate_block_payload bytes ≡ pass → IsSoundPayload bytes
    accepted h = elim (Result-cases (decode_block_payload bytes)) [
      | inl (txs, e) ↦
          (ground arith, (txs, e, ground arith, (validate_txs-pass 0 txs).0 (ground arith)))
      | inr (x, e) ↦ absurd (ground arith)
    ]

    accepts : IsSoundPayload bytes → validate_block_payload bytes ≡ pass
    accepts (small, (txs, e, few, sound)) =
        let valid = (validate_txs-pass 0 txs).1 sound in ground arith
