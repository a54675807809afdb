-- ===== src/Prelude.antt =====
-- Names that every component shares: the libraries' names, Boolean tests and conditionals on the
-- native numbers, lists measured by the native numbers, and byte strings.
mod Tests
mod Lists
mod Octets
pub mod Bits
pub mod Int
pub mod Maps
mod Utf8
pub mod BitTables
pub use Tests.*
pub use Lists.*
unfoldable pub use Utf8.{is_utf8}
pub use Octets.*
pub use Prim.Native.Nat.{ℕ, zero, suc, ◌+◌, ◌-◌, ◌*◌, ◌/◌, ◌%◌, ◌^◌, ◌≤◌, ◌<◌, min, max}
pub use mathlib.Core.Path.{◌≡◌, refl, sym, ap, ap₂, subst, ◌∙◌}
pub use mathlib.Core.Logic.{◌≢◌, ◌↔◌, ◌⊎◌, inl, inr}
pub use mathlib.Core.Bool.{Bool, true, false, not, ◌&&◌, ◌||◌}
pub use mathlib.Core.Option.{Option, none, some}
pub use mathlib.Core.List.{List, [], ◌∷◌, ◌++◌, map, append-nil, append_assoc}
pub use native.Mathlib.Omega.{arith}
unfoldable pub use native.Mathlib.Decide.{dec_lt, dec_le, ℕ_discrete}
pub use native.Mathlib.Numerals.{add-one}
