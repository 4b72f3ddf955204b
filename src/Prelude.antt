-- ===== src/Prelude.antt =====
-- Names that the components share: the libraries', passed on, and those of the children.
mod Tests
mod Lists
mod Strings
mod Maps
pub mod Arrays
pub mod Int64
pub use Arrays.{◌>>=◌}
pub use Tests.*
pub use Lists.*
pub use Strings.{GoString, codes, cut_prefix-append}
unfoldable pub use Strings.{str_dec, cut_prefix}
pub use Maps.{
  GoMap, Distinct, lookup-insert, lookup-delete, insert-Distinct, delete-Distinct, Elem-values,
  values-Elem, map_laws,
}
unfoldable pub use Maps.{lookup, insert, delete, values}
pub use Prim.Native.Nat.{ℕ, zero, suc, ◌+◌, ◌-◌, ◌*◌, ◌/◌, ◌%◌, ◌^◌, ◌≤◌, ◌<◌, min}
pub use mathlib.Core.Path.{◌≡◌, refl, sym, ap, subst, ◌∙◌}
pub use mathlib.Core.Logic.{◌≢◌, ◌↔◌, ◌⊎◌, inl, inr, ite, if_pos, if_neg}
pub use mathlib.Core.Bool.{Bool, true, false, not, ◌&&◌, ◌||◌}
pub use mathlib.Core.Option.{Option, none, some}
pub use mathlib.Core.List.{List, [], ◌∷◌, ◌++◌, append_assoc, append-nil}
pub use native.Mathlib.Omega.{arith}
unfoldable pub use native.Mathlib.Decide.{dec_lt, dec_le, ℕ_discrete}
