-- ===== src/Prelude.antt =====
-- The names that the other modules share.
mod Tests
mod Lists
mod Strings
mod Results
mod Dicts
mod Splitting
mod Ints
mod Panics
pub use Tests.*
pub use Lists.{
  length, get_elem?, held, length-append, length-map, All, All-append, length-product, List-cases,
}
unfoldable pub use Lists.{product}
pub use Strings.{Text, codes, text_eq_iff, text_eq_self, text_eq_ne, Lacks}
unfoldable pub use Strings.{text_eq, split, index_byte, replace_all, join, count_byte}
pub use Results.*
pub use Dicts.{Dict, lookup_or, getenv, or_default, lookup-insert}
unfoldable pub use Dicts.{lookup, insert}
pub use Splitting.*
pub use Panics.*
pub use Ints.{ℤ, pos, negsuc, is_zero, is_positive}
unfoldable pub use Ints.{format_int}
pub use Prim.Native.Nat.{ℕ, zero, suc, ◌+◌, ◌*◌, ◌-◌, ◌%◌, ◌^◌, ◌≤◌, ◌<◌}
pub use mathlib.Core.Path.{◌≡◌, refl, sym, ap, ◌∙◌, subst}
pub use mathlib.Core.Logic.{◌≢◌, ◌↔◌, ◌⊎◌, inl, inr}
pub use mathlib.Core.Bool.{Bool, true, false, not, ◌&&◌, ◌||◌}
pub use mathlib.Core.Option.{Option, none, some}
pub use mathlib.Core.List.{List, [], ◌∷◌, ◌++◌, map, append_assoc, append-nil}
pub use native.Mathlib.Omega.{arith}
