-- ===== src/Ledger/Unbond.antt =====
-- The unbond loop of `apply_regular`, which calls `expect` on inputs that were checked before it.
use kovanica_node.Common.{
  ℕ, ◌≡◌, refl, true, false, List, [], ◌∷◌, All, ok, arith, Option-cases, inl, inr,
}
use kovanica_node.Common.Map
use kovanica_node.Common.Map.{get-remove}
use kovanica_node.Crypto.{Crypto}
use kovanica_node.Tx.{OutPoint, TxInput, Transaction, outpoint_eq, outpoint_eq_iff}
use kovanica_node.Utxo.{outpoint_key}
use kovanica_node.Validation.{contains}
use kovanica_node.Stake.{StakeKey, StakeState, stake_key}
use kovanica_node.Stake.State.{check_unbond, unlock, unfreeze_spend}
use kovanica_node.Ledger.{Activation}
use kovanica_node.Ledger.Apply.{unfreeze_all, check_unbonds}

-- The checks of two registries agree on an outpoint that both hold alike.
check_unbond-same :
    (outpoint : OutPoint) (height : ℕ) (s t : StakeState)
    → Map.get outpoint s.frozen ≡ Map.get outpoint t.frozen
    → check_unbond outpoint height s ≡ check_unbond outpoint height t
unfolding check_unbond
check_unbond-same outpoint height s t e = ground (arith, e)

unfreeze_spend-checked :
    (outpoint : OutPoint) (height : ℕ) (s : StakeState)
    → check_unbond outpoint height s ≡ ok tt
    → (t : StakeState) × ((value : ℕ) × ((unfreeze_spend outpoint height s ≡ ok (t, value))
          × ((other : OutPoint)
              → outpoint_eq outpoint other ≡ false
              → Map.get other t.frozen ≡ Map.get other s.frozen)))
unfolding unfreeze_spend check_unbond
unfreeze_spend-checked outpoint height s e = elim (Option-cases (Map.get outpoint s.frozen)) [
  | inl p ↦ absurd (ground (arith, p, e))
  | inr (fr, p) ↦
      let key : StakeKey = record { asset_id = fr.asset_id; vrf_pk = fr.vrf_pk } in
      let t : StakeState = record {
        frozen = Map.remove outpoint s.frozen;
        locked = unlock key fr.value s.locked;
      } in
      (
        t,
        (
          fr.value,
          (grind (arith, p, e), λ other ne. ground (arith, ne, get-remove other outpoint s.frozen)),
        ),
      )
]

contains-cons :
    (x y : OutPoint) (seen : List OutPoint) → contains seen x ≡ true → contains (y ∷ seen) x ≡ true
unfolding contains
contains-cons x y seen h = ground (arith, h)

contains_head : (x : OutPoint) (seen : List OutPoint) → contains (x ∷ seen) x ≡ true
unfolding contains
contains_head x seen = ground (arith, outpoint_eq_iff x x)

differs :
    (x y : OutPoint) (seen : List OutPoint)
    → contains seen x ≡ true
    → contains seen y ≡ false
    → outpoint_eq x y ≡ false
differs x y seen h k = grind (arith, outpoint_eq_iff x y)

-- No input spends an outpoint of the list or one that an input before it spends.
abbrev pub Distinct : List OutPoint → List TxInput → Type 0
Distinct seen [] = Unit
Distinct seen (input ∷ inputs) =
    (contains seen input.outpoint ≡ false) × Distinct (input.outpoint ∷ seen) inputs

module _ (c : Crypto) (height blue_score : ℕ) (act : Activation) (tx : Transaction) where
  apart :
      (x : OutPoint) (seen : List OutPoint) (inputs : List TxInput)
      → Distinct seen inputs
      → contains seen x ≡ true
      → All (λ (input : TxInput). outpoint_eq x input.outpoint ≡ false) inputs
  apart x seen [] s h = tt
  apart x seen (input ∷ inputs) (new, s) h = (
    differs x input.outpoint seen h new,
    apart x (input.outpoint ∷ seen) inputs s (contains-cons x input.outpoint seen h),
  )

  check_unbonds-same :
      (s t : StakeState) (x : OutPoint) (inputs : List TxInput)
      → ((other : OutPoint)
          → outpoint_eq x other ≡ false
          → Map.get other t.frozen ≡ Map.get other s.frozen)
      → All (λ (input : TxInput). outpoint_eq x input.outpoint ≡ false) inputs
      → check_unbonds c height blue_score act tx s inputs ≡ ok tt
      → check_unbonds c height blue_score act tx t inputs ≡ ok tt
  unfolding check_unbonds
  check_unbonds-same s t x [] same a e = refl
  check_unbonds-same s t x (input ∷ inputs) same (ne, a) e = grind (
    arith,
    check_unbonds-same s t x inputs same a,
    check_unbond-same input.outpoint height t s (same input.outpoint ne),
  )

  unfreeze_from :
      (seen : List OutPoint) (inputs : List TxInput) (st : StakeState)
      → Distinct seen inputs
      → check_unbonds c height blue_score act tx st inputs ≡ ok tt
      → (next : StakeState) × (unfreeze_all height inputs st ≡ ok next)
  unfolding unfreeze_all check_unbonds
  unfreeze_from seen [] st s e = (st, refl)
  unfreeze_from seen (input ∷ inputs) st (new, s) e =
      let first : check_unbond input.outpoint height st ≡ ok tt = grind arith in
      let (t, (value, (p, same))) = unfreeze_spend-checked input.outpoint height st first in
      let others =
        apart input.outpoint (input.outpoint ∷ seen) inputs s (contains_head input.outpoint seen) in
      let rest = check_unbonds-same st t input.outpoint inputs same others (grind (arith, first)) in
      let (next, q) = unfreeze_from (input.outpoint ∷ seen) inputs t s rest in
      (next, ground (arith, p, q))

  -- If every input passes the check of an unbond against the registry and no outpoint is spent
  -- twice, the loop that frees the bonds one after the other completes.
  pub unfreeze_all-total :
      (inputs : List TxInput) (st : StakeState)
      → Distinct [] inputs
      → check_unbonds c height blue_score act tx st inputs ≡ ok tt
      → (next : StakeState) × (unfreeze_all height inputs st ≡ ok next)
  unfreeze_all-total = unfreeze_from []
