-- ===== src/Common/Map.antt =====
-- Keys with a Boolean equality, and `HashMap` as the list of its entries. The order of the entries
-- is the iteration order, which the source leaves unspecified.
use Prim.Native.Nat.{ℕ, ◌+◌}
use mathlib.Core.Path.{◌≡◌, refl}
use mathlib.Core.Logic.{◌↔◌}
use mathlib.Core.Bool.{Bool, true}
use mathlib.Core.Option.{Option, none, some}
use mathlib.Core.List.{List, [], ◌∷◌}
use native.Mathlib.Omega.{arith}
use kovanica_node.Common.Tests.{◌==◌, ==_iff, if◌then◌else◌}

pub record Eq {ℓ} (A : Type ℓ) : Type ℓ where
  pub beq : A → A → Bool
  pub beq_iff : (a b : A) → (beq a b ≡ true) ↔ (a ≡ b)

instance abbrev pub nat_eq : Eq ℕ
nat_eq = record { beq = ◌==◌; beq_iff = ==_iff }

abbrev pub Map {ℓ κ} : Type ℓ → Type κ → Type (ℓ ⊔ κ)
Map K V = List (K × V)

pub beq_refl {ℓ} : {K : Type ℓ} ⦃e : Eq K⦄ (k : K) → e.beq k k ≡ true
beq_refl ⦃e⦄ k = (e.beq_iff k k).1 refl

module _ {ℓ κ} {K : Type ℓ} {V : Type κ} ⦃e : Eq K⦄ where
  unfoldable pub get : K → Map K V → Option V
  get k [] = none
  get k ((j, v) ∷ m) = if e.beq j k then some v else get k m

  unfoldable pub remove : K → Map K V → Map K V
  remove k [] = []
  remove k ((j, v) ∷ m) = let rest = remove k m in if e.beq j k then rest else (j, v) ∷ rest

  unfoldable pub insert : K → V → Map K V → Map K V
  unfolding remove
  insert k v m = (k, v) ∷ remove k m

  -- No key has two entries.
  abbrev pub IsMap : Map K V → Type κ
  IsMap [] = Unit
  IsMap ((k, v) ∷ m) = (get k m ≡ none) × IsMap m

  pub get-remove :
      (j k : K) (m : Map K V) → get j (remove k m) ≡ (if e.beq k j then none else get j m)
  unfolding get remove
  get-remove j k [] = ground arith
  get-remove j k ((i, v) ∷ m) =
      ground (arith, get-remove j k m, e.beq_iff i k, e.beq_iff i j, e.beq_iff k j)

  pub get-insert :
      (j k : K) (v : V) (m : Map K V)
      → get j (insert k v m) ≡ (if e.beq k j then some v else get j m)
  unfolding get insert
  get-insert j k v m = ground (arith, get-remove j k m)

  pub remove-IsMap : (k : K) (m : Map K V) → IsMap m → IsMap (remove k m)
  unfolding remove
  remove-IsMap k [] h = tt
  remove-IsMap k ((i, v) ∷ m) h = ground (arith, remove-IsMap k m h.1, get-remove i k m)

  pub insert-IsMap : (k : K) (v : V) (m : Map K V) → IsMap m → IsMap (insert k v m)
  unfolding insert
  insert-IsMap k v m h = ground (arith, remove-IsMap k m h, get-remove k k m, beq_refl k)

-- Two maps that a look-up does not tell apart.
abbrev pub SameMap {ℓ κ} : {K : Type ℓ} {V : Type κ} ⦃e : Eq K⦄ → Map K V → Map K V → Type (ℓ ⊔ κ)
SameMap {K} m n = (k : K) → get k m ≡ get k n

-- The sum of what `f` reads of the entries.
unfoldable pub total {ℓ κ} : {K : Type ℓ} {V : Type κ} → (K → V → ℕ) → Map K V → ℕ
total f [] = 0
total f ((k, v) ∷ m) = f k v + total f m

-- What the entry of `k`, if there is one, adds to the sum.
abbrev pub at_key {ℓ κ} : {K : Type ℓ} {V : Type κ} → (K → V → ℕ) → K → Option V → ℕ
at_key f k none = 0
at_key f k (some v) = f k v

module _ {ℓ κ} {K : Type ℓ} {V : Type κ} ⦃e : Eq K⦄ (f : K → V → ℕ) where
  total-remove_absent : (k : K) (m : Map K V) → get k m ≡ none → total f (remove k m) ≡ total f m
  unfolding total get remove
  total-remove_absent k [] h = refl
  total-remove_absent k ((j, v) ∷ m) h = ground (arith, total-remove_absent k m)

  pub total-remove :
      (k : K) (m : Map K V) → IsMap m → total f (remove k m) + at_key f k (get k m) ≡ total f m
  unfolding total get remove
  total-remove k [] m = omega arith
  total-remove k ((j, v) ∷ m) (new, h) =
      ground (arith, total-remove k m h, total-remove_absent k m, e.beq_iff j k)

  pub total-insert :
      (k : K) (v : V) (m : Map K V)
      → IsMap m
      → total f (insert k v m) + at_key f k (get k m) ≡ total f m + f k v
  unfolding insert total
  total-insert k v m h = omega (arith, total-remove k m h)
