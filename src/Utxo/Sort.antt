-- ===== src/Utxo/Sort.antt =====
-- Look-ups after sorting the entries and inserting them one by one.
use kovanica_node.Common.{
  suc, ◌≡◌, refl, Option, none, some, [], ◌∷◌, arith, if◌then◌else◌, length, All, Bool-cases, inl,
  inr,
}
use kovanica_node.Common.Map
use kovanica_node.Common.Map.{IsMap, SameMap}
use kovanica_node.Tx.{OutPoint, outpoint_eq_iff, outpoint_eq}
use kovanica_node.Utxo.{UtxoEntry, UtxoSet, outpoint_key}
use kovanica_node.Utxo.Encode.{outpoint_lt, insert_sorted, sort_by_key}
use kovanica_node.Utxo.Decode.{insert_all}

get-insert_sorted :
    (k j : OutPoint) (v : UtxoEntry) (s : UtxoSet)
    → Map.get j s ≡ none
    → Map.get k (insert_sorted (j, v) s) ≡ (if outpoint_eq j k then some v else Map.get k s)
unfolding insert_sorted Map.get
get-insert_sorted k j v [] h = refl
get-insert_sorted k j v ((i, w) ∷ s) h = ground (
  arith,
  get-insert_sorted k j v s,
  outpoint_eq_iff j k,
  outpoint_eq_iff i k,
  outpoint_eq_iff i j,
)

insert_sorted-IsMap :
    (j : OutPoint) (v : UtxoEntry) (s : UtxoSet)
    → Map.get j s ≡ none
    → IsMap s
    → IsMap (insert_sorted (j, v) s)
unfolding insert_sorted Map.get
insert_sorted-IsMap j v [] h m = (refl, tt)
insert_sorted-IsMap j v ((i, w) ∷ s) h m = ground (
  arith,
  insert_sorted-IsMap j v s,
  get-insert_sorted i j v s,
  outpoint_eq_iff i j,
  outpoint_eq_iff j i,
)

length-insert_sorted :
    (x : OutPoint × UtxoEntry) (s : UtxoSet) → length (insert_sorted x s) ≡ suc (length s)
unfolding insert_sorted
length-insert_sorted x [] = refl
length-insert_sorted x (y ∷ s) = ground (arith, length-insert_sorted x s)

All-insert_sorted :
    (P : OutPoint × UtxoEntry → Type 0) (x : OutPoint × UtxoEntry) (s : UtxoSet)
    → P x
    → All P s
    → All P (insert_sorted x s)
unfolding insert_sorted
All-insert_sorted P x [] p a = (p, tt)
All-insert_sorted P x (y ∷ s) p (q, a) = elim (Bool-cases (outpoint_lt y.0 x.0)) [
  | inl e ↦ rw e (q, All-insert_sorted P x s p a)
  | inr e ↦ rw e (p, (q, a))
]

pub length-sort_by_key : (s : UtxoSet) → length (sort_by_key s) ≡ length s
unfolding sort_by_key
length-sort_by_key [] = refl
length-sort_by_key (x ∷ s) =
    omega (arith, length-insert_sorted x (sort_by_key s), length-sort_by_key s)

pub All-sort_by_key :
    (P : OutPoint × UtxoEntry → Type 0) (s : UtxoSet) → All P s → All P (sort_by_key s)
unfolding sort_by_key
All-sort_by_key P [] a = tt
All-sort_by_key P (x ∷ s) (p, a) = All-insert_sorted P x (sort_by_key s) p (All-sort_by_key P s a)

pub get-sort_by_key : (s : UtxoSet) → IsMap s → SameMap (sort_by_key s) s
unfolding sort_by_key Map.get
get-sort_by_key [] m k = refl
get-sort_by_key ((j, v) ∷ s) (new, m) k =
    ground
      (arith, get-sort_by_key s m j, get-sort_by_key s m k, get-insert_sorted k j v (sort_by_key s))

pub sort_by_key-IsMap : (s : UtxoSet) → IsMap s → IsMap (sort_by_key s)
unfolding sort_by_key
sort_by_key-IsMap [] m = tt
sort_by_key-IsMap ((j, v) ∷ s) (new, m) =
    ground
      (arith, get-sort_by_key s m j, sort_by_key-IsMap s m, insert_sorted-IsMap j v (sort_by_key s))

abbrev or_else : Option UtxoEntry → Option UtxoEntry → Option UtxoEntry
or_else none d = d
or_else (some v) d = some v

pub get-insert_all :
    (es s : UtxoSet)
    → IsMap es
    → (k : OutPoint) → Map.get k (insert_all es s) ≡ or_else (Map.get k es) (Map.get k s)
unfolding insert_all Map.get
get-insert_all [] s m k = refl
get-insert_all ((j, v) ∷ es) s (new, m) k =
    ground
      (arith, get-insert_all es (Map.insert j v s) m k, Map.get-insert k j v s, outpoint_eq_iff j k)
