-- ===== src/Common.antt =====
-- Names that every module shares: the libraries', passed on, and those of the children.
mod Tests
mod Lists
mod Fallible
mod Bytes
pub mod Words
pub mod Map
pub mod Division
pub mod Int
pub use Tests.*
pub use Lists.*
pub use Fallible.*
unfoldable pub use Bytes.{to_le_bytes, from_le_bytes, bytes_eq, bytes_lt}
pub use Bytes.{
  length-to_le_bytes, from_le_bytes-to_le_bytes, IsBytes, to_le_bytes-IsBytes, bytes_eq_iff,
  bytes_lt-asym, bytes_lt-cotrans,
}
pub use Prim.Native.Nat.{ℕ, zero, suc, ◌+◌, ◌-◌, ◌*◌, ◌/◌, ◌%◌, ◌^◌, ◌≤◌, ◌<◌, min, max}
pub use mathlib.Core.Path.{◌≡◌, refl, sym, ap, ◌∙◌, subst}
pub use mathlib.Core.Logic.{◌≢◌, ◌↔◌, ◌⊎◌, inl, inr}
pub use mathlib.Core.Bool.{Bool, true, false, not, ◌&&◌, ◌||◌}
pub use mathlib.Core.Option.{Option, none, some}
pub use mathlib.Core.List.{List, [], ◌∷◌, ◌++◌, map}
pub use native.Mathlib.Omega.{arith}
