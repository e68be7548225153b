-- ===== src/Base.antt =====
-- The names that the modules share: the libraries', passed on, and those of the children: tests
-- on numbers, texts, lists over the native numbers, and maps keyed by texts.
mod Tests
mod Texts
mod Lists
pub mod Map
pub mod Entries
pub mod Int
pub mod Bits
pub mod Utf8
pub mod Order
pub mod Strings
pub mod Trim
pub mod Rows
pub use Tests.*
pub use Lists.*
pub use Texts.{Text, codes, text_eq_refl, text_eq_iff, text_eq_ne}
unfoldable pub use Texts.{text_eq, is_empty}
pub use Prim.Native.Nat.{ℕ, zero, suc, ◌+◌, ◌-◌, ◌*◌, ◌/◌, ◌%◌, ◌^◌, ◌≤◌, ◌<◌, min}
pub use mathlib.Core.Path.{◌≡◌, refl, sym, ap, ◌∙◌}
pub use mathlib.Core.Logic.{◌≢◌, ◌↔◌, ◌⊎◌, inl, inr}
pub use mathlib.Core.Bool.{Bool, true, false, ◌&&◌, ◌||◌}
pub use mathlib.Core.Option.{Option, none, some}
pub use mathlib.Core.List.{List, [], ◌∷◌, ◌++◌, map}
pub use native.Mathlib.Omega.{arith}
unfoldable pub use native.Mathlib.Decide.{dec_lt, dec_le, ℕ_discrete}
