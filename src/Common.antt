-- ===== src/Common.antt =====
-- The names that the other modules share: the libraries', passed on, and those of the children.
mod Tests
mod Lists
mod Dict
mod Rows
mod Sort
mod Text
pub use Tests.*
pub use Lists.*
unfoldable pub use Rows.{find, update_where, max_where}
pub use Text.{is_blank}
unfoldable pub use Text.{split_commas, contains_text, is_space, lstrip, strip, before, after}
unfoldable pub use Sort.{insert_sorted, sort}
pub use Sort.{text_leb, IsSorted, length-sort, any-sort, All-sort, sort-IsSorted, sort-IsDistinct}
pub use Rows.{
  find_sound, any-append, any-append_right, any-append_last, All-update_where, le-max_where,
  find-update_where,
}
pub use Rows.{filter-update_where_other, filter-update_where_self, filter-append}
unfoldable pub use Dict.{lookup, insert}
pub use Dict.{
  lookup-insert, has_key, keys, keys-insert, keys-insert-IsDistinct, All-insert, has_key-keys,
}
pub use Prim.Native.Nat.{ℕ, zero, suc, ◌+◌, ◌-◌, ◌*◌, ◌/◌, ◌%◌, ◌^◌, ◌≤◌, ◌<◌, max, min}
pub use Prim.Native.String.{String}
pub use mathlib.Core.Path.{◌≡◌, refl, sym, ap, subst, ◌∙◌}
pub use mathlib.Core.Logic.{◌≢◌, ◌↔◌, ◌⊎◌, inl, inr}
pub use mathlib.Core.Bool.{Bool, true, false, not, ◌&&◌, ◌||◌}
pub use mathlib.Core.Option.{Option, none, some}
pub use mathlib.Core.List.{List, [], ◌∷◌, ◌++◌, map}
pub use native.Mathlib.Omega.{arith}
pub use text.Mathlib.TextEquality.{eq_iff}
