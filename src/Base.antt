-- ===== src/Base.antt =====
-- The names that the other modules share: the libraries', passed on, and those of the children.
pub mod Tests
pub mod Lists
pub mod Dict
pub mod Int
pub mod Flags
pub use Tests.*
pub use Lists.*
pub use Flags.*
unfoldable pub use Lists.{sort_unique}
pub use Int.{
  ℤ, pos, negsuc, pos_part, neg_part, sub_ℕ, is_zero, is_zero_lem, int_laws, +ℤ_parts, -ℤ_parts,
  eq_of_parts,
}
unfoldable pub use Int.{◌+ℤ◌, ◌-ℤ◌}
pub use Dict.{
  Map, has, get_or, Unique, insert-Unique, erase_key-Unique, erase_key-none, lookup-insert,
  lookup-erase_key, length-erase_key-lt,
}
unfoldable pub use Dict.{lookup, insert, erase_key}
pub use Prim.Native.Nat.{ℕ, zero, suc, ◌+◌, ◌-◌, ◌*◌, ◌/◌, ◌%◌, ◌^◌, ◌≤◌, ◌<◌}
pub use mathlib.Core.Path.{◌≡◌, refl, sym, ap, ◌∙◌, ap₂, subst, subst₂}
pub use mathlib.Core.Logic.{◌≢◌, ◌↔◌, ◌⊎◌, inl, inr}
pub use mathlib.Core.Bool.{Bool, true, false, not, ◌&&◌, ◌||◌}
pub use mathlib.Core.Option.{Option, none, some}
pub use mathlib.Core.List.{List, [], ◌∷◌, ◌++◌, map}
pub use native.Mathlib.Omega.{arith}
