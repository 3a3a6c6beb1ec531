-- ===== src/Prelude.antt =====
-- The names that the other modules share: the libraries', passed on, and those of the children.
mod Tests
mod Lists
mod Sorting
mod Paging
mod Int
mod Text
pub use Tests.*
pub use Lists.*
pub use Int.*
pub use Sorting.{
  IsOrdered, IsOrdered-take, Orders, count_if-order_by, length-order_by, All-order_by,
  All_of_order_by, order_by-IsOrdered, last?-order_by,
}
unfoldable pub use Sorting.{insert_by, order_by}
pub use Paging.{AllApart, AllApart-keep_if, AllApart-order_by, keep_if-after, keep_if-order_by}
pub use Text.{char_count-trim_space-le, concat, trim_space_idem}
unfoldable pub use Text.{char_count, contains, trim_space}
pub use Prim.Native.Nat.{ℕ, zero, suc, ◌+◌, ◌-◌, ◌*◌, ◌/◌, ◌%◌, ◌^◌, ◌≤◌, ◌<◌, min}
pub use Prim.Native.Char.{Char, code}
pub use Prim.Native.String.{String}
pub use mathlib.Core.Path.{◌≡◌, refl, sym, ap, ◌∙◌, subst, ◌≡⟨◌⟩◌, ◌∎}
pub use mathlib.Core.Logic.{◌≢◌, ◌↔◌, ◌⊎◌, inl, inr}
pub use mathlib.Core.Bool.{Bool, true, false, not, ◌&&◌, ◌||◌}
pub use mathlib.Core.Option.{Option, none, some}
pub use mathlib.Core.List.{List, [], ◌∷◌, ◌++◌, map, append_assoc, append-nil}
pub use native.Mathlib.Omega.{arith}
pub use text.Mathlib.Text.{◌==◌}
pub use text.Mathlib.TextEquality.{eq_iff}
pub use text.Mathlib.TextPositions.{eq_refl}
