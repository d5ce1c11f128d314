-- ===== src/Common.antt =====
-- The names that all the modules share: the libraries', passed on, and those of four children.
mod Tests
mod Lists
mod Dicts
mod Texts
pub use Tests.*
pub use Lists.*
pub use Dicts.{
  Key, dec, string_key, nat_key, Dict, lookup, insert, delete, keys, lookup-insert, lookup-delete,
  delete-none, delete-stays_none, put_all, fill, lookup-put_all, lookup-All, insert-other,
  insert-same, lookup-fill, first_of,
}
unfoldable pub use Dicts.{string_dec}
unfoldable pub use Texts.{itoa, contains, to_lower, quote, is_space}
pub use Texts.{◌&◌, codes}
pub use Prim.Native.Nat.{ℕ, zero, suc, ◌+◌, ◌-◌, ◌*◌, ◌/◌, ◌%◌, ◌^◌, ◌≤◌, ◌<◌, min}
pub use Prim.Native.String.{String}
pub use mathlib.Core.Path.{◌≡◌, refl, sym, ap, subst, ◌∙◌}
pub use mathlib.Core.Logic.{◌≢◌, ◌↔◌, ◌⊎◌, inl, inr, ite, ⊎_map}
pub use mathlib.Core.Bool.{Bool, true, false, not, ◌&&◌, ◌||◌}
pub use mathlib.Core.Option.{Option, none, some}
pub use mathlib.Core.List.{List, [], ◌∷◌, ◌++◌, map}
pub use native.Mathlib.Omega.{arith}
unfoldable pub use native.Mathlib.Decide.{dec_lt, dec_le, ℕ_discrete}
