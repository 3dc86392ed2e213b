-- ===== src/Tests/UtxoTests.antt =====
-- The set of unspent outputs, its checkpoint and its deltas.
use kovanica_node.Common.{◌≡◌, refl, [], ◌∷◌, ◌++◌, arith, ok, All, bytes_eq}
use kovanica_node.Common.Map
use kovanica_node.Common.Map.{SameMap, IsMap}
use kovanica_node.Tx.{outpoint_eq, outpoint_eq_iff}
use kovanica_node.Utxo.{UtxoSet, outpoint_key}
use kovanica_node.Utxo.Encode.{encode}
use kovanica_node.Utxo.Decode.{decode}
use kovanica_node.Utxo.RoundTrip.{IsEntry, checkpoint_roundtrip}
use kovanica_node.Delta.{BlockDelta, apply_delta, compose_delta, diff_utxo}
use kovanica_node.Delta.Apply.{lists}
use kovanica_node.Delta.Compose.{NoRecreation, compose_delta-SameMap}
use kovanica_node.Delta.Diff.{Immutable, diff_utxo-apply}
use kovanica_node.Tests.Samples.{coin, entry, utxos}

utxos-IsMap : IsMap utxos
unfolding Map.get outpoint_eq bytes_eq
utxos-IsMap = (refl, (refl, tt))

utxos-IsEntry : All IsEntry utxos
utxos-IsEntry = omega arith

checkpoint_roundtrip_example :
    (s' : UtxoSet) × (decode (encode utxos ++ 1 ∷ []) ≡ ok (s', 1 ∷ [])) × SameMap s' utxos
checkpoint_roundtrip_example =
    checkpoint_roundtrip utxos utxos-IsMap utxos-IsEntry (omega arith) (1 ∷ [])

abbrev after : UtxoSet
after = (coin 2, entry 0) ∷ (coin 4, entry 8) ∷ []

after-IsMap : IsMap after
unfolding Map.get outpoint_eq bytes_eq
after-IsMap = (refl, (refl, tt))

after-Immutable : Immutable utxos after
unfolding Map.get
after-Immutable k a b p q =
    ground
      (arith, outpoint_eq_iff (coin 7) k, outpoint_eq_iff (coin 2) k, outpoint_eq_iff (coin 4) k)

diff_utxo-apply_example : SameMap (apply_delta (diff_utxo utxos after) utxos) after
diff_utxo-apply_example = diff_utxo-apply utxos after utxos-IsMap after-IsMap after-Immutable

abbrev first : BlockDelta
first = record { spent = (coin 2, entry 0) ∷ []; created = (coin 4, entry 8) ∷ [] }

abbrev second : BlockDelta
second = record { spent = (coin 4, entry 8) ∷ []; created = (coin 5, entry 9) ∷ [] }

no_recreation : NoRecreation first second
unfolding lists
no_recreation k h = ground (arith, outpoint_eq_iff (coin 2) k, outpoint_eq_iff (coin 5) k)

compose_delta-SameMap_example :
    SameMap
      (apply_delta (compose_delta first second) utxos)
      (apply_delta second (apply_delta first utxos))
compose_delta-SameMap_example = compose_delta-SameMap first second utxos no_recreation
