-- ===== src/Prelude.antt =====
-- The names that all modules share: the libraries', passed on, and those of the children.
mod Tests
mod Lists
mod Texts
mod Int
mod Strs
mod Maps
mod Order
pub use Tests.*
pub use Lists.*
pub use Texts.*
pub use Int.*
pub use Strs.*
pub use Maps.*
pub use Order.*
unfoldable pub use Strs.{
  trim_start, trim_end, trim, strip_prefix, split, join, digits, parse_unsigned, parse_i64,
  byte_len,
}
unfoldable pub use Maps.{find, remove, insert}
unfoldable pub use Texts.{lit}
unfoldable pub use Lists.{insert_sorted, sort}
pub use Prim.Native.Nat.{ℕ, zero, suc, ◌+◌, ◌-◌, ◌*◌, ◌/◌, ◌%◌, ◌^◌, ◌≤◌, ◌<◌}
pub use Prim.Native.String.{String}
pub use mathlib.Core.Path.{◌≡◌, refl, sym, ap, ◌∙◌}
pub use mathlib.Core.Logic.{◌≢◌, ◌↔◌, ◌⊎◌, inl, inr}
pub use mathlib.Core.Bool.{Bool, true, false, not, ◌&&◌, ◌||◌}
pub use mathlib.Core.Option.{Option, none, some}
pub use mathlib.Core.List.{List, [], ◌∷◌, ◌++◌, map}
pub use native.Mathlib.Omega.{arith}
