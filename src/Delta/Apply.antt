-- ===== src/Delta/Apply.antt =====
-- What a look-up finds after a delta.
use kovanica_node.Common.{
  ◌≡◌, refl, Bool, true, false, Option, none, some, List, [], ◌∷◌, arith, if◌then◌else◌,
}
use kovanica_node.Common.Map
use kovanica_node.Common.Map.{SameMap, IsMap}
use kovanica_node.Tx.{OutPoint, outpoint_eq}
use kovanica_node.Utxo.{UtxoEntry, UtxoSet, outpoint_key}
use kovanica_node.Delta.{BlockDelta, insert_created, remove_spent, apply_delta}

-- Whether the outpoint is listed.
unfoldable pub lists : List (OutPoint × UtxoEntry) → OutPoint → Bool
lists [] k = false
lists ((j, e) ∷ xs) k = if outpoint_eq j k then true else lists xs k

-- The entry listed last, or the given one.
unfoldable pub last_or :
    List (OutPoint × UtxoEntry) → OutPoint → Option UtxoEntry → Option UtxoEntry
last_or [] k d = d
last_or ((j, e) ∷ xs) k d = last_or xs k (if outpoint_eq j k then some e else d)

get-insert_created :
    (created : List (OutPoint × UtxoEntry)) (s : UtxoSet) (k : OutPoint)
    → Map.get k (insert_created created s) ≡ last_or created k (Map.get k s)
unfolding insert_created last_or
get-insert_created [] s k = refl
get-insert_created ((j, e) ∷ created) s k =
    rw (get-insert_created created (Map.insert j e s) k, Map.get-insert)

get-remove_spent :
    (spent : List (OutPoint × UtxoEntry)) (s : UtxoSet) (k : OutPoint)
    → Map.get k (remove_spent spent s) ≡ (if lists spent k then none else Map.get k s)
unfolding remove_spent lists
get-remove_spent [] s k = refl
get-remove_spent ((j, e) ∷ spent) s k =
    ground (arith, get-remove_spent spent (Map.remove j s) k, Map.get-remove k j s)

pub get-apply_delta :
    (d : BlockDelta) (s : UtxoSet) (k : OutPoint)
    → Map.get k (apply_delta d s)
      ≡ (if lists d.spent k then none else last_or d.created k (Map.get k s))
unfolding apply_delta
get-apply_delta d s k = rw (get-remove_spent, get-insert_created)

pub apply_delta-SameMap :
    (d : BlockDelta) (s t : UtxoSet) → SameMap s t → SameMap (apply_delta d s) (apply_delta d t)
apply_delta-SameMap d s t h k = rw (get-apply_delta d s k, get-apply_delta d t k, h k)
