-- ===== src/Prelude.antt =====
-- The names that the other modules share: the libraries', passed on, and those of the children.
mod Tests
mod Lists
mod Texts
mod Maps
pub mod Int
pub mod Ranging
pub mod Distinct
pub use Tests.*
pub use Lists.*
unfoldable pub use Texts.{bytes, text_eq}
pub use Texts.{Text, text_eq_iff, text_eq_refl, text_eq_cases}
unfoldable pub use Maps.{lookup, insert, delete, contains}
pub use Maps.{
  Eq, text_instance, nat_instance, Map, size, keys, lookup-insert, lookup-insert_self,
  lookup-delete, size-insert-le, size-delete-le, size-insert_present, size-delete_present,
  contains-eq_lookup,
}
pub use Prim.Native.Nat.{ℕ, zero, suc, ◌+◌, ◌-◌, ◌*◌, ◌/◌, ◌%◌, ◌^◌, ◌≤◌, ◌<◌, min}
pub use Prim.Native.String.{String}
pub use mathlib.Core.Path.{◌≡◌, refl, sym, ap, subst, ◌∙◌}
pub use mathlib.Core.Logic.{◌≢◌, ◌↔◌, ◌⊎◌, inl, inr}
pub use mathlib.Core.Bool.{Bool, true, false, not, ◌&&◌, ◌||◌}
pub use mathlib.Core.Option.{Option, none, some}
pub use mathlib.Core.List.{List, [], ◌∷◌, ◌++◌, map, reverse}
pub use native.Mathlib.Omega.{arith}
