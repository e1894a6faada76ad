-- ===== src/Common.antt =====
-- The names that the other modules share: the libraries', passed on, and those of the children.
mod Tests
mod Lists
mod Texts
mod Paths
mod Refusal
mod Sorting
mod Dicts
pub mod Steps
pub use Tests.*
pub use Lists.*
pub use Texts.*
unfoldable pub use Texts.{starts_with, contains}
unfoldable pub use Paths.{is_blank, segments, climbs, is_absolute, has_ink}
pub use Refusal.*
pub use Sorting.*
unfoldable pub use Dicts.{lookup, store, without_key}
pub use Dicts.{
  Dict, some-injective, names, store-Distinct, lookup-store, lookup-without_key, lookup-store_cases,
  AllEntries, AllEntries-lookup, AllEntries-store, AllEntries-without, AllEntries-weaken,
}
pub use Prim.Native.Nat.{ℕ, zero, suc, ◌+◌, ◌-◌, ◌≤◌, ◌<◌}
pub use Prim.Native.String.{String}
pub use mathlib.Core.Path.{◌≡◌, refl, sym, ap, ap₂, subst, fun_ext, ◌∙◌}
pub use mathlib.Core.Logic.{◌≢◌, ◌↔◌, ◌⊎◌, inl, inr}
pub use mathlib.Core.Bool.{Bool, true, false, not, ◌&&◌, ◌||◌}
pub use mathlib.Core.Option.{Option, none, some}
pub use mathlib.Core.List.{
  List, [], ◌∷◌, ◌++◌, map, reverse, append-nil, append_assoc as list_append_assoc,
}
pub use native.Mathlib.Omega.{arith}
pub use text.Mathlib.Text.{◌==◌}
pub use text.Mathlib.TextEquality.{eq_iff}
pub use text.Mathlib.TextLemmas.{nil-append, cons-append, append_assoc}
