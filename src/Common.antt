-- ===== src/Common.antt =====
-- What the modules share: the libraries' names passed on, Boolean tests, byte strings,
-- keyed tables and their laws.
mod Tests
mod Text
pub mod Bytes
pub mod Table
pub mod Numbers
pub mod Sifted
pub use Tests.*
unfoldable pub use Tests.{take}
pub use Text.{Str, lit, str_lt_asym, str_lt_total, str_lt_trans, str_eq_iff, str_eq_refl, is_empty}
unfoldable pub use Text.{str_eq, str_lt}
pub use Prim.Native.Nat.{ℕ, zero, suc, ◌+◌, ◌-◌, ◌*◌, ◌/◌, ◌%◌, ◌^◌, ◌≤◌, ◌<◌}
pub use Prim.Native.String.{String}
pub use mathlib.Core.Path.{◌≡◌, refl, sym, ap, ◌∙◌}
pub use mathlib.Core.Logic.{◌≢◌, ◌↔◌, ◌⊎◌, inl, inr}
pub use mathlib.Core.Bool.{Bool, true, false, not, ◌&&◌, ◌||◌}
pub use mathlib.Core.Option.{Option, none, some}
pub use mathlib.Core.List.{List, [], ◌∷◌, ◌++◌, map}
pub use native.Mathlib.Omega.{arith}
