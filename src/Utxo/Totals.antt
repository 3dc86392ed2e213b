-- ===== src/Utxo/Totals.antt =====
-- Sums over the set, under insertion and removal.
use kovanica_node.Common.{ℕ, ◌+◌, ◌≡◌, refl, Option, none, some, [], ◌∷◌, arith}
use kovanica_node.Common.Map
use kovanica_node.Common.Map.{IsMap}
use kovanica_node.Tx.{OutPoint, TxOutput, outpoint_eq_iff}
use kovanica_node.Utxo.{UtxoEntry, UtxoSet, outpoint_key, sum_outputs}

-- What an entry, if there is one, adds to the sum.
abbrev pub value_of : (TxOutput → ℕ) → Option UtxoEntry → ℕ
value_of f none = 0
value_of f (some e) = f e.output

module _ (f : TxOutput → ℕ) where
  remove_absent :
      (k : OutPoint) (s : UtxoSet)
      → Map.get k s ≡ none
      → sum_outputs f (Map.remove k s) ≡ sum_outputs f s
  unfolding sum_outputs Map.get Map.remove
  remove_absent k [] h = refl
  remove_absent k ((j, e) ∷ s) h = ground (arith, remove_absent k s)

  pub sum_outputs-remove :
      (k : OutPoint) (s : UtxoSet)
      → IsMap s
      → sum_outputs f (Map.remove k s) + value_of f (Map.get k s) ≡ sum_outputs f s
  unfolding sum_outputs Map.get Map.remove
  sum_outputs-remove k [] m = omega arith
  sum_outputs-remove k ((j, e) ∷ s) (new, m) =
      ground (arith, sum_outputs-remove k s m, remove_absent k s, outpoint_eq_iff j k)

  -- After an insertion every sum over the outputs, such as a balance, has grown by the new entry and
  -- shrunk by the one that it replaced.
  pub sum_outputs-insert :
      (k : OutPoint) (e : UtxoEntry) (s : UtxoSet)
      → IsMap s
      → sum_outputs f (Map.insert k e s) + value_of f (Map.get k s) ≡ sum_outputs f s + f e.output
  unfolding Map.insert sum_outputs
  sum_outputs-insert k e s m = omega (arith, sum_outputs-remove k s m)
