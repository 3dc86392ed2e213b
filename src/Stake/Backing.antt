-- ===== src/Stake/Backing.antt =====
-- The locks of the keys against the frozen bonds.
use kovanica_node.Common.{
  ℕ, ◌+◌, ◌-◌, ◌<◌, ◌^◌, ◌%◌, ◌≡◌, refl, sym, ap, ◌∙◌, subst, none, some, List, if◌then◌else◌, ok,
  arith, inl, inr, ◌≤◌, Option-cases,
}
use kovanica_node.Common.Words.{u64_max, saturating_add}
use kovanica_node.Common.Map
use kovanica_node.Common.Map.{Map, IsMap, total-insert, total-remove, get-insert, get-remove}
use kovanica_node.Tx.{OutPoint, AssetId}
use kovanica_node.Utxo.{outpoint_key}
use kovanica_node.Stake.{
  Freeze, StakeKey, StakeState, unbond_maturity, stake_key, key_eq, key_eq_iff,
}
use kovanica_node.Stake.State.{
  or_zero, empty, stake_of, freeze, check_unbond, unlock, unfreeze_spend,
}

-- What a bond adds to the lock of `key`.
abbrev pub bonded : StakeKey → OutPoint → Freeze → ℕ
bonded key op fr =
    if key_eq (record { asset_id = fr.asset_id; vrf_pk = fr.vrf_pk }) key then fr.value else 0

pub record IsBacked (s : StakeState) : Type 0 where
  pub frozen : IsMap s.frozen
  pub locked : IsMap s.locked
  pub backed : (key : StakeKey) → or_zero (Map.get key s.locked) ≡ Map.total (bonded key) s.frozen

-- A freeze of an outpoint that is not frozen keeps every lock equal to the sum of its bonds, if the
-- new lock fits in 64 bits.
pub freeze-IsBacked :
    (outpoint : OutPoint) (asset_id : AssetId) (vrf_pk : List ℕ) (value height : ℕ) (s : StakeState)
    → IsBacked s
    → Map.get outpoint s.frozen ≡ none
    → stake_of asset_id vrf_pk s + value < 2 ^ 64
    → IsBacked (freeze outpoint asset_id vrf_pk value height s)
unfolding freeze stake_of
freeze-IsBacked outpoint asset_id vrf_pk value height s b new fits =
    let key : StakeKey = record { asset_id = asset_id; vrf_pk = vrf_pk } in
    let fr : Freeze = record {
      asset_id = asset_id;
      vrf_pk = vrf_pk;
      bond_height = height;
      value = value;
    } in
    record {
      frozen = Map.insert-IsMap outpoint fr s.frozen b.frozen;
      locked = Map.insert-IsMap key _ s.locked b.locked;
      backed = λ k. ground (
        arith,
        get-insert k key ((or_zero (Map.get key s.locked) + value) % 2 ^ 64) s.locked,
        total-insert (bonded k) outpoint fr s.frozen b.frozen,
        b.backed k,
        b.backed key,
        key_eq_iff key k,
      );
    }

unlock-get :
    (key k : StakeKey) (value : ℕ) (locked : Map StakeKey ℕ)
    → or_zero (Map.get k (unlock key value locked))
      ≡ (if key_eq key k then or_zero (Map.get key locked) - value else or_zero (Map.get k locked))
unfolding unlock
unlock-get key k value locked =
    ground (
      arith,
      get-insert k key (or_zero (Map.get key locked) - value) locked,
      get-remove k key locked,
    )

unlock-IsMap :
    (key : StakeKey) (value : ℕ) (locked : Map StakeKey ℕ)
    → IsMap locked
    → IsMap (unlock key value locked)
unfolding unlock
unlock-IsMap key value locked m = ground (
  arith,
  Map.insert-IsMap key (or_zero (Map.get key locked) - value) locked m,
  Map.remove-IsMap key locked m,
)

-- What a spent bond leaves behind.
spent : OutPoint → Freeze → StakeState → StakeState
spent outpoint fr s = record {
  frozen = Map.remove outpoint s.frozen;
  locked = unlock (record { asset_id = fr.asset_id; vrf_pk = fr.vrf_pk }) fr.value s.locked;
}

spent-IsBacked :
    (outpoint : OutPoint) (fr : Freeze) (s : StakeState)
    → IsBacked s
    → Map.get outpoint s.frozen ≡ some fr
    → IsBacked (spent outpoint fr s)
unfolding spent
spent-IsBacked outpoint fr s b here =
    let key : StakeKey = record { asset_id = fr.asset_id; vrf_pk = fr.vrf_pk } in
    record {
      frozen = Map.remove-IsMap outpoint s.frozen b.frozen;
      locked = unlock-IsMap key fr.value s.locked b.locked;
      backed = λ k. ground (
        arith,
        unlock-get key k fr.value s.locked,
        total-remove (bonded k) outpoint s.frozen b.frozen,
        b.backed k,
        b.backed key,
        key_eq_iff key k,
      );
    }

unfreeze_spend-ok :
    (outpoint : OutPoint) (height value : ℕ) (s t : StakeState)
    → unfreeze_spend outpoint height s ≡ ok (t, value)
    → (fr : Freeze) × ((Map.get outpoint s.frozen ≡ some fr)
        × ((t ≡ spent outpoint fr s) × (value ≡ fr.value)))
unfolding unfreeze_spend spent
unfreeze_spend-ok outpoint height value s t e = elim (Option-cases (Map.get outpoint s.frozen)) [
  | inl p ↦ grind (arith, p)
  | inr (fr, p) ↦ (fr, (p, (grind (arith, p), grind (arith, p))))
]

-- A spent unbond was frozen and mature, its value is returned, it is no longer frozen, and every
-- other outpoint's bond is as before.
pub unfreeze_spend_releases :
    (outpoint : OutPoint) (height value : ℕ) (s t : StakeState)
    → unfreeze_spend outpoint height s ≡ ok (t, value)
    → (fr : Freeze) × ((Map.get outpoint s.frozen ≡ some fr)
        × ((saturating_add u64_max fr.bond_height unbond_maturity ≤ height)
            × ((value ≡ fr.value)
                × ((other : OutPoint)
                    → Map.get other t.frozen ≡ (
                        if outpoint_key.beq outpoint other
                        then none
                        else Map.get other s.frozen)))))
unfolding spent unfreeze_spend check_unbond
unfreeze_spend_releases outpoint height value s t e =
    let (fr, (p, (q, v))) = unfreeze_spend-ok outpoint height value s t e in
    (
      fr,
      (
        p,
        (
          grind (arith, p),
          (
            v,
            λ other.
                ap (λ (x : StakeState). Map.get other x.frozen) q
                ∙ get-remove other outpoint s.frozen,
          ),
        ),
      ),
    )

pub data Reachable : StakeState → Type 0 where
  start : Reachable empty
  bond :
      (outpoint : OutPoint) (asset_id : AssetId) (vrf_pk : List ℕ) (value height : ℕ)
      (s : StakeState)
      → Reachable s
      → Map.get outpoint s.frozen ≡ none
      → stake_of asset_id vrf_pk s + value < 2 ^ 64
      → Reachable (freeze outpoint asset_id vrf_pk value height s)
  unbond :
      (outpoint : OutPoint) (height value : ℕ) (s t : StakeState)
      → Reachable s
      → unfreeze_spend outpoint height s ≡ ok (t, value)
      → Reachable t

-- In every state that bonds of new outpoints and accepted unbonds lead to, each key's lock is the
-- sum of its frozen bonds, if no lock reaches 2 ^ 64.
pub Reachable-IsBacked : (s : StakeState) → Reachable s → IsBacked s
unfolding empty Map.get Map.total
Reachable-IsBacked _ start = record { frozen = tt; locked = tt; backed = λ key. refl }
Reachable-IsBacked _ (bond outpoint asset_id vrf_pk value height s r new fits) =
    freeze-IsBacked outpoint asset_id vrf_pk value height s (Reachable-IsBacked s r) new fits
Reachable-IsBacked t (unbond outpoint height value s _ r e) =
    let (fr, (p, (q, v))) = unfreeze_spend-ok outpoint height value s t e in
    subst IsBacked (sym q) (spent-IsBacked outpoint fr s (Reachable-IsBacked s r) p)
