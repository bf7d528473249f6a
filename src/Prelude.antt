-- ===== src/Prelude.antt =====
-- The names that the other modules share: the libraries', passed on, and those of the children.
mod Tests
mod Equality
mod Lists
mod Options
mod Text
mod Canonical
mod Increasing
pub use Tests.*
pub use Equality.*
unfoldable pub use Equality.{eq→discrete, String-discrete}
unfoldable pub use native.Mathlib.Decide.{ℕ_discrete, dec_lt}
unfoldable pub use mathlib.Core.Bool.{decide}
pub use Lists.*
pub use Options.*
pub use Text.*
pub use Canonical.*
pub use Increasing.*
unfoldable pub use Canonical.{is_canonical}
unfoldable pub use Text.{decimal, occurs, strip, zero_padded, split_words}
unfoldable pub use Lists.{sorted, insert_sorted}
pub use Prim.Native.Nat.{ℕ, zero, suc, ◌+◌, ◌-◌, ◌*◌, ◌/◌, ◌%◌, ◌^◌, ◌≤◌, ◌<◌}
pub use Prim.Native.String.{String}
pub use mathlib.Core.Path.{◌≡◌, refl, sym, ap, ◌∙◌, subst}
pub use mathlib.Core.Logic.{◌≢◌, ◌↔◌, ◌⊎◌, inl, inr}
pub use mathlib.Core.Bool.{Bool, true, false, not, ◌&&◌, ◌||◌}
pub use mathlib.Core.Option.{Option, none, some}
pub use mathlib.Core.List.{List, [], ◌∷◌, ◌++◌, map}
pub use native.Mathlib.Omega.{arith}
