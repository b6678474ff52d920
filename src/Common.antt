-- ===== src/Common.antt =====
-- The names that the other modules share: the libraries', passed on, and those of the children.
mod Tests
mod Lists
mod Texts
mod Sorting
mod Dicts
mod Ordering
pub use Tests.*
pub use Lists.*
pub use Texts.*
pub use Sorting.*
pub use Dicts.*
pub use Ordering.{text_lt, text_lt_trans, text_lt_cotrans, text_lt_irrefl, text_lt-nil}
unfoldable pub use Tests.{str_eq}
unfoldable pub use Lists.{any, keep, contains}
unfoldable pub use Texts.{
  trim_left, trim_right, trim_space, lower_char, to_lower, each_char, cut_at, has_prefix,
  drop_prefix, includes,
}
unfoldable pub use Sorting.{text_le, insert_by, sort_by, sort_texts}
unfoldable pub use Ordering.{text_lt}
unfoldable pub use Dicts.{lookup, assign, erase, dict_keys}
pub use Prim.Native.Nat.{ℕ, zero, suc, ◌+◌, ◌-◌, ◌*◌, ◌/◌, ◌%◌, ◌≤◌, ◌<◌}
pub use Prim.Native.String.{String}
pub use mathlib.Core.Path.{◌≡◌, refl, sym, ap, ap₂, ◌∙◌}
pub use mathlib.Core.Logic.{◌≢◌, ◌↔◌, ◌⊎◌, inl, inr}
pub use mathlib.Core.Bool.{Bool, true, false, not, ◌&&◌, ◌||◌, true≢false}
pub use mathlib.Core.Option.{Option, none, some}
pub use mathlib.Core.List.{List, [], ◌∷◌, ◌++◌, map, append-nil, append_assoc}
pub use native.Mathlib.Omega.{arith}
