-- ===== src/Common/Words.antt =====
-- Machine words as native numbers: the saturating and checked operations of the standard library.
use Prim.Native.Nat.{ℕ, ◌+◌, ◌*◌}
use mathlib.Core.Option.{Option, none, some}
use kovanica_node.Common.Tests.{ltb, if◌then◌else◌}

abbrev pub u64_max : ℕ
u64_max = 18446744073709551615

abbrev pub u128_max : ℕ
u128_max = 340282366920938463463374607431768211455

-- `a.saturating_add(b)` at the type whose largest value is `top`.
abbrev pub saturating_add : ℕ → ℕ → ℕ → ℕ
saturating_add top a b = if ltb top (a + b) then top else a + b

abbrev pub saturating_mul : ℕ → ℕ → ℕ → ℕ
saturating_mul top a b = if ltb top (a * b) then top else a * b

-- `a.checked_add(b)`
abbrev pub checked_add : ℕ → ℕ → ℕ → Option ℕ
checked_add top a b = if ltb top (a + b) then none else some (a + b)
