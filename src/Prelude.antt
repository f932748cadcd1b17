-- ===== src/Prelude.antt =====
-- The names that the other modules share: the libraries', passed on, and those of the children.
mod Tests
mod Lists
mod Maps
pub use Tests.*
pub use Lists.{length, take, drop, length-take, length-drop, count-le-length, length-select}
pub use Lists.{count-middle, length-append, All, All-append, All-select}
unfoldable pub use Lists.{select, count, first, contains}
pub use Maps.{Dict}
pub use Maps.{has}
unfoldable pub use Maps.{get, remove, put, keys, values, size, map_values, keep, count_entries}
pub use Maps.{get-remove, get-put, get-map_values, size-put, size-remove, keys-map_values}
pub use Maps.{HasNoDup, IsFresh, remove-IsFresh, remove-HasNoDup, put-HasNoDup}
pub use Maps.{map_values-HasNoDup, keep-HasNoDup, get-keep, size-keep, remove-absent}
pub use Maps.{count_entries-remove-le, count_entries-remove-lt, count_entries-others}
pub use Maps.{count_entries-put, count_entries-map_values, size-count}
pub use Prim.Native.Nat.{ℕ, zero, suc, ◌+◌, ◌-◌, ◌*◌, ◌/◌, ◌%◌, ◌^◌, ◌≤◌, ◌<◌, min, max}
pub use Prim.Native.String.{String}
pub use text.Mathlib.Text.{◌==◌}
pub use text.Mathlib.TextEquality.{eq_iff}
pub use text.Mathlib.TextPositions.{eq_refl}
pub use mathlib.Core.Path.{◌≡◌, refl, sym, ap, subst, ◌∙◌}
pub use mathlib.Core.Logic.{◌≢◌, ◌↔◌, ◌⊎◌, inl, inr}
pub use mathlib.Core.Bool.{Bool, true, false, not, ◌&&◌, ◌||◌}
pub use mathlib.Core.Option.{Option, none, some}
pub use mathlib.Core.List.{List, [], ◌∷◌, ◌++◌, map}
pub use native.Mathlib.Omega.{arith}
