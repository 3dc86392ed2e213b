-- ===== src/Delta/Diff.antt =====
-- The difference of two views, applied to the first.
use kovanica_node.Common.{
  ◌≡◌, ◌≢◌, refl, Bool, true, false, not, Option, none, some, [], ◌∷◌, arith, if◌then◌else◌,
}
use kovanica_node.Common.Map
use kovanica_node.Common.Map.{SameMap, IsMap}
use kovanica_node.Tx.{OutPoint, outpoint_eq_iff}
use kovanica_node.Utxo.{UtxoEntry, UtxoSet, outpoint_key, entry_eq, entry_eq_iff}
use kovanica_node.Delta.{holds, missing_from, diff_utxo, apply_delta}
use kovanica_node.Delta.Apply.{lists, last_or, get-apply_delta}

abbrev same_entry : Option UtxoEntry → Option UtxoEntry → Bool
same_entry (some a) (some b) = entry_eq b a
same_entry (some a) none = false
same_entry none b = true

abbrev pick : Option UtxoEntry → Option UtxoEntry → Option UtxoEntry → Option UtxoEntry
pick none b d = d
pick (some a) b d = if same_entry (some a) b then d else some a

lists-missing_from :
    (set other : UtxoSet) (k : OutPoint)
    → IsMap set
    → lists (missing_from set other) k ≡ not (same_entry (Map.get k set) (Map.get k other))
unfolding lists missing_from holds Map.get
lists-missing_from [] other k m = refl
lists-missing_from ((j, e) ∷ set) other k (new, m) =
    ground (arith, lists-missing_from set other k m, outpoint_eq_iff j k)

last_or-missing_from :
    (set other : UtxoSet) (k : OutPoint) (d : Option UtxoEntry)
    → IsMap set
    → last_or (missing_from set other) k d ≡ pick (Map.get k set) (Map.get k other) d
unfolding last_or missing_from holds Map.get
last_or-missing_from [] other k d m = refl
last_or-missing_from ((j, e) ∷ set) other k d (new, m) = ground (
  arith,
  last_or-missing_from set other k d m,
  last_or-missing_from set other k (some e) m,
  outpoint_eq_iff j k,
)

-- An outpoint that both views hold has the same entry in both.
abbrev pub Immutable : UtxoSet → UtxoSet → Type 0
Immutable pre post =
    (k : OutPoint) (a b : UtxoEntry) → Map.get k pre ≡ some a → Map.get k post ≡ some b → a ≡ b

get-diff :
    (pre post : UtxoSet) (k : OutPoint)
    → IsMap pre
    → IsMap post
    → Map.get k (apply_delta (diff_utxo pre post) pre) ≡ (
        if same_entry (Map.get k pre) (Map.get k post)
        then pick (Map.get k post) (Map.get k pre) (Map.get k pre)
        else none)
unfolding diff_utxo
get-diff pre post k m n =
    rw
      (
        get-apply_delta (diff_utxo pre post) pre k,
        lists-missing_from pre post k m,
        last_or-missing_from post pre k (Map.get k pre) n,
      )
      (ground arith)

-- The delta of a block, applied to the view of its selected parent, gives the block's own view, if
-- no outpoint that both views hold has changed its entry.
pub diff_utxo-apply :
    (pre post : UtxoSet)
    → IsMap pre
    → IsMap post
    → Immutable pre post
    → SameMap (apply_delta (diff_utxo pre post) pre) post
diff_utxo-apply pre post m n h k =
    rw (get-diff pre post k m n) (cases (Map.get k pre) (Map.get k post) (h k))
  where
    cases :
        (a b : Option UtxoEntry)
        → ((x y : UtxoEntry) → a ≡ some x → b ≡ some y → x ≡ y)
        → (if same_entry a b then pick b a a else none) ≡ b
    cases none none i = refl
    cases none (some y) i = refl
    cases (some x) none i = refl
    cases (some x) (some y) i = ground (arith, i x y refl refl, entry_eq_iff x y, entry_eq_iff y x)

-- An outpoint whose entry differs between the two views is lost: after the delta of the two views
-- it is absent, although the second view holds it.
pub diff_utxo_loses_changed :
    (pre post : UtxoSet) (k : OutPoint) (a b : UtxoEntry)
    → IsMap pre
    → IsMap post
    → Map.get k pre ≡ some a
    → Map.get k post ≡ some b
    → a ≢ b
    → Map.get k (apply_delta (diff_utxo pre post) pre) ≡ none
diff_utxo_loses_changed pre post k a b m n p q ne =
    rw (get-diff pre post k m n) (ground (arith, entry_eq_iff b a))
