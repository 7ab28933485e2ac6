-- ===== src/Base.antt =====
-- The names that the other modules share: the libraries', passed on, and those of the children.
mod Tests
mod Strings
mod StringLaws
mod Lists
mod Outcome
pub mod Action
pub mod Ensures
mod Int
mod Decimal
pub use Tests.*
pub use Strings.{Text, codes, strip, is_space, trim_right, cut_before, starts_with_char}
unfoldable pub use Strings.{
  ◌==◌, trim_left, trim_space, cut, split, has_prefix, trim_prefix, contains, to_lower, equal_fold,
  text_leb,
}
pub use StringLaws.*
pub use Lists.*
pub use Outcome.*
pub use Int.*
unfoldable pub use Decimal.{decimal, join_host_port, value, all_digits}
pub use Decimal.{value-decimal, all_digits-decimal, decimal-cons}
pub use Prim.Native.Nat.{ℕ, zero, suc, ◌+◌, ◌-◌, ◌*◌, ◌/◌, ◌%◌, ◌^◌, ◌≤◌, ◌<◌}
pub use mathlib.Core.Path.{◌≡◌, refl, sym, ap, ◌∙◌, subst}
pub use mathlib.Core.Logic.{◌≢◌, ◌↔◌, ◌⊎◌, inl, inr}
pub use mathlib.Core.Bool.{Bool, true, false, not, ◌&&◌, ◌||◌}
pub use mathlib.Core.Option.{Option, none, some}
pub use mathlib.Core.List.{List, [], ◌∷◌, ◌++◌, map, append_assoc, append-nil}
pub use native.Mathlib.Omega.{arith}
