-- ===== src/Common/Bytes.antt =====
-- Byte strings, and the little-endian encodings of the Rust standard library.
use Prim.Native.Nat.{ℕ, zero, suc, ◌+◌, ◌*◌, ◌/◌, ◌%◌, ◌^◌, ◌<◌}
use mathlib.Core.Path.{◌≡◌, refl, ap}
use mathlib.Core.Logic.{◌↔◌}
use mathlib.Core.Bool.{Bool, true, false, ◌&&◌}
use mathlib.Core.List.{List, [], ◌∷◌}
use native.Mathlib.Omega.{arith}
use native.Mathlib.Nat.{pow-suc}
use kovanica_node.Common.Tests.{◌==◌, ==_iff, ltb, if◌then◌else◌}
use kovanica_node.Common.Lists.{length, All}

abbrev pub IsBytes : List ℕ → Type 0
IsBytes = All (λ b. b < 256)

-- `to_le_bytes` of a word of `w` bytes.
unfoldable pub to_le_bytes : ℕ → ℕ → List ℕ
to_le_bytes zero v = []
to_le_bytes (suc w) v = (v % 256) ∷ to_le_bytes w (v / 256)

unfoldable pub from_le_bytes : List ℕ → ℕ
from_le_bytes [] = 0
from_le_bytes (b ∷ bs) = b + 256 * from_le_bytes bs

pub length-to_le_bytes : (w v : ℕ) → length (to_le_bytes w v) ≡ w
unfolding to_le_bytes
length-to_le_bytes zero v = refl
length-to_le_bytes (suc w) v = ap suc (length-to_le_bytes w (v / 256))

pub to_le_bytes-IsBytes : (w v : ℕ) → IsBytes (to_le_bytes w v)
unfolding to_le_bytes
to_le_bytes-IsBytes zero v = tt
to_le_bytes-IsBytes (suc w) v = (omega arith, to_le_bytes-IsBytes w (v / 256))

pub from_le_bytes-to_le_bytes : (w v : ℕ) → v < 256 ^ w → from_le_bytes (to_le_bytes w v) ≡ v
unfolding to_le_bytes from_le_bytes
from_le_bytes-to_le_bytes zero v h = omega arith
from_le_bytes-to_le_bytes (suc w) v h =
    omega (arith, from_le_bytes-to_le_bytes w (v / 256) (below (rw pow-suc at h)))
  where
    below : v < 256 ^ w * 256 → v / 256 < 256 ^ w
    below p = omega arith

-- `==` on byte arrays.
unfoldable pub bytes_eq : List ℕ → List ℕ → Bool
bytes_eq [] [] = true
bytes_eq (a ∷ as') (b ∷ bs) = (a == b) && bytes_eq as' bs
bytes_eq _ _ = false

pub bytes_eq_iff : (a b : List ℕ) → (bytes_eq a b ≡ true) ↔ (a ≡ b)
unfolding bytes_eq
bytes_eq_iff [] [] = (λ _. refl, λ _. refl)
bytes_eq_iff [] (y ∷ b) = (λ h. cc, λ h. cc)
bytes_eq_iff (x ∷ a) [] = (λ h. cc, λ h. cc)
bytes_eq_iff (x ∷ a) (y ∷ b) = grind (arith, bytes_eq_iff a b, ==_iff x y)

-- The lexicographic order of byte strings, as of derived `Ord`.
unfoldable pub bytes_lt : List ℕ → List ℕ → Bool
bytes_lt [] [] = false
bytes_lt [] (b ∷ bs) = true
bytes_lt (a ∷ as') [] = false
bytes_lt (a ∷ as') (b ∷ bs) =
    let rest = bytes_lt as' bs in if ltb a b then true else if a == b then rest else false

pub bytes_lt-asym : (a b : List ℕ) → bytes_lt a b ≡ true → bytes_lt b a ≡ false
unfolding bytes_lt
bytes_lt-asym [] [] h = ground (arith, h)
bytes_lt-asym [] (y ∷ b) h = refl
bytes_lt-asym (x ∷ a) [] h = ground (arith, h)
bytes_lt-asym (x ∷ a) (y ∷ b) h = ground (arith, h, bytes_lt-asym a b)

pub bytes_lt-cotrans :
    (a b c : List ℕ) → bytes_lt c b ≡ false → bytes_lt b a ≡ false → bytes_lt c a ≡ false
unfolding bytes_lt
bytes_lt-cotrans [] b [] h g = refl
bytes_lt-cotrans [] b (z ∷ c) h g = refl
bytes_lt-cotrans (x ∷ a) [] c h g = ground (arith, g)
bytes_lt-cotrans (x ∷ a) (y ∷ b) [] h g = ground (arith, h)
bytes_lt-cotrans (x ∷ a) (y ∷ b) (z ∷ c) h g = ground (arith, h, g, bytes_lt-cotrans a b c)
