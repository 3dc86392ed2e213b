-- ===== src/Delta/Compose.antt =====
-- Composing two deltas, as pruning does when it folds a final block into its children.
use kovanica_node.Common.{
  ◌≡◌, refl, true, false, Option, none, some, List, [], ◌∷◌, ◌++◌, arith, if◌then◌else◌,
}
use kovanica_node.Common.Map
use kovanica_node.Common.Map.{SameMap}
use kovanica_node.Tx.{OutPoint, outpoint_eq}
use kovanica_node.Utxo.{UtxoEntry, UtxoSet, outpoint_key}
use kovanica_node.Delta.{BlockDelta, apply_delta, compose_delta}
use kovanica_node.Delta.Apply.{lists, last_or, get-apply_delta}

lists-append :
    (xs ys : List (OutPoint × UtxoEntry)) (k : OutPoint)
    → lists (xs ++ ys) k ≡ (if lists xs k then true else lists ys k)
unfolding lists
lists-append [] ys k = refl
lists-append ((j, e) ∷ xs) ys k = ground (arith, lists-append xs ys k)

last_or-append :
    (xs ys : List (OutPoint × UtxoEntry)) (k : OutPoint) (d : Option UtxoEntry)
    → last_or (xs ++ ys) k d ≡ last_or ys k (last_or xs k d)
unfolding last_or
last_or-append [] ys k d = refl
last_or-append ((j, e) ∷ xs) ys k d = last_or-append xs ys k (if outpoint_eq j k then some e else d)

last_or_unlisted :
    (xs : List (OutPoint × UtxoEntry)) (k : OutPoint) (d : Option UtxoEntry)
    → lists xs k ≡ false
    → last_or xs k d ≡ d
unfolding last_or lists
last_or_unlisted [] k d h = refl
last_or_unlisted ((j, e) ∷ xs) k d h = ground (arith, last_or_unlisted xs k d)

-- No outpoint that the first delta spends is created by the second.
abbrev pub NoRecreation : BlockDelta → BlockDelta → Type 0
NoRecreation first second =
    (k : OutPoint) → lists first.spent k ≡ true → lists second.created k ≡ false

-- The composed delta has the effect of the two deltas in turn, on every set, if the second creates
-- no outpoint that the first spends.
pub compose_delta-SameMap :
    (first second : BlockDelta) (s : UtxoSet)
    → NoRecreation first second
    → SameMap
        (apply_delta (compose_delta first second) s)
        (apply_delta second (apply_delta first s))
unfolding compose_delta
compose_delta-SameMap first second s h k =
    rw
      (
        get-apply_delta (compose_delta first second) s k,
        get-apply_delta second (apply_delta first s) k,
        get-apply_delta first s k,
      )
      (ground (
        arith,
        h k,
        lists-append first.spent second.spent k,
        last_or-append first.created second.created k (Map.get k s),
        last_or_unlisted second.created k none,
      ))

-- An outpoint that the first delta spends is absent after the composed delta, whatever the second
-- creates.
pub compose_delta_drops :
    (first second : BlockDelta) (s : UtxoSet) (k : OutPoint)
    → lists first.spent k ≡ true
    → Map.get k (apply_delta (compose_delta first second) s) ≡ none
unfolding compose_delta
compose_delta_drops first second s k h =
    rw (get-apply_delta (compose_delta first second) s k)
      (ground (arith, lists-append first.spent second.spent k))
