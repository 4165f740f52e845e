-- ===== src/Prelude.antt =====
-- The names that the other modules share: the libraries', passed on, and those of the children:
-- tests and lists (Base), errors as values (Errors), Go's strings (Strings), maps (Maps),
-- signed integers (Int) and their decimals (Decimal).
mod Base
mod Errors
mod Strings
mod Maps
mod Int
mod Decimal
pub use Base.*
pub use Errors.*
unfoldable pub use Strings.{is_space, blank, trim_space, str_ltb}
pub use Maps.{Assoc, lookup-put, count-put}
unfoldable pub use Maps.{lookup, put, values}
pub use Int.*
unfoldable pub use Decimal.{join, decimal, decimal_ℤ}
pub use Prim.Native.Nat.{ℕ, zero, suc, ◌+◌, ◌-◌, ◌*◌, ◌/◌, ◌%◌, ◌^◌, ◌≤◌, ◌<◌}
pub use Prim.Native.String.{String}
pub use mathlib.Core.Path.{◌≡◌, refl, sym, ap, ◌∙◌, subst}
pub use mathlib.Core.Logic.{◌≢◌, ◌↔◌, ◌⊎◌, inl, inr}
pub use mathlib.Core.Bool.{Bool, true, false, not, ◌&&◌, ◌||◌}
pub use mathlib.Core.Option.{Option, none, some}
pub use mathlib.Core.List.{List, [], ◌∷◌, ◌++◌, map}
pub use native.Mathlib.Omega.{arith}
pub use text.Mathlib.Text.{◌==◌}
pub use text.Mathlib.TextEquality.{eq_iff}
pub use text.Mathlib.TextPositions.{eq_refl}
