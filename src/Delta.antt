-- ===== src/Delta.antt =====
-- The undo log of crates/kovanica-state/src/ledger.rs: the net change of the unspent outputs that
-- one block makes (`BlockDelta`), its composition, and the reconstruction of a block's view.
pub mod Apply
pub mod Compose
pub mod Diff
use kovanica_node.Common.{
  ℕ, Bool, true, false, Option, none, some, List, [], ◌∷◌, ◌++◌, ◌==◌, ◌&&◌, if◌then◌else◌,
}
use kovanica_node.Common.Map
use kovanica_node.Tx.{OutPoint}
use kovanica_node.Utxo.{UtxoEntry, UtxoSet, outpoint_key, entry_eq}

pub record BlockDelta : Type 0 where
  pub spent : List (OutPoint × UtxoEntry)
  pub created : List (OutPoint × UtxoEntry)

-- `set.get_entry(op) == Some(entry)`
unfoldable pub holds : UtxoSet → OutPoint × UtxoEntry → Bool
holds set (op, entry) = elim (Map.get op set) [ none ↦ false | some e ↦ entry_eq e entry ]

-- The entries of the first set that the second does not hold.
unfoldable pub missing_from : UtxoSet → UtxoSet → List (OutPoint × UtxoEntry)
missing_from [] other = []
missing_from (x ∷ set) other =
    let rest = missing_from set other in if holds other x then rest else x ∷ rest

unfoldable pub diff_utxo : UtxoSet → UtxoSet → BlockDelta
diff_utxo pre post = record { spent = missing_from pre post; created = missing_from post pre }

unfoldable pub insert_created : List (OutPoint × UtxoEntry) → UtxoSet → UtxoSet
insert_created [] state = state
insert_created ((op, entry) ∷ created) state = insert_created created (Map.insert op entry state)

unfoldable pub remove_spent : List (OutPoint × UtxoEntry) → UtxoSet → UtxoSet
remove_spent [] state = state
remove_spent ((op, entry) ∷ spent) state = remove_spent spent (Map.remove op state)

unfoldable pub apply_delta : BlockDelta → UtxoSet → UtxoSet
apply_delta delta state = remove_spent delta.spent (insert_created delta.created state)

unfoldable pub compose_delta : BlockDelta → BlockDelta → BlockDelta
compose_delta first second = record {
  spent = first.spent ++ second.spent;
  created = first.created ++ second.created;
}
