-- ===== src/Common.antt =====
-- The names, tests, lists, results and byte strings that the components share.
mod Tests
mod Lists
mod Results
mod Bytes
mod Texts
pub mod Int
pub mod Effects
pub use Tests.*
pub use Lists.*
pub use Results.*
pub use Bytes.*
pub use Texts.*
unfoldable pub use Bytes.{le_bytes, from_le, be_bytes, from_be}
unfoldable pub use Tests.{eqb}
unfoldable pub use Results.{collect}
unfoldable pub use Texts.{lower, to_ascii_lowercase, eq_ignore_ascii_case, starts_with, ends_with}
pub use Prim.Native.Nat.{bit_and, bit_or, ℕ, zero, suc, ◌+◌, ◌-◌, ◌*◌, ◌/◌, ◌%◌, ◌^◌, ◌≤◌, ◌<◌, min}
pub use mathlib.Core.Path.{◌≡◌, refl, sym, ap, ◌∙◌, subst}
pub use mathlib.Core.Logic.{◌≢◌, ◌↔◌, ◌⊎◌, inl, inr}
pub use mathlib.Core.Bool.{Bool, true, false, not, ◌&&◌, ◌||◌}
pub use mathlib.Core.Option.{Option, none, some}
pub use mathlib.Core.List.{List, [], ◌∷◌, ◌++◌, map, reverse, reverse-reverse}
pub use native.Mathlib.Omega.{arith}
