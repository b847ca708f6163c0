-- ===== src/Base.antt =====
-- The names that the other modules share: the libraries' own, passed on, and those of its children.
mod Tests
mod Lists
mod Dicts
mod Results
mod Keys
mod Texts
pub use Tests.*
pub use Lists.*
unfoldable pub use Lists.{elem, count}
unfoldable pub use Keys.{tally, weigh}
pub use Dicts.*
pub use Results.*
pub use Keys.*
pub use Texts.*
unfoldable pub use Texts.{concat}
unfoldable pub use Dicts.{lookup, insert, remove, lookup_or, has_key, keys}
pub use Prim.Native.Nat.{ℕ, zero, suc, ◌+◌, ◌-◌, ◌*◌, ◌≤◌, ◌<◌, max}
pub use Prim.Native.String.{String}
pub use mathlib.Core.Path.{◌≡◌, refl, sym, ap, ◌∙◌}
pub use mathlib.Core.Logic.{◌≢◌, ◌↔◌, ◌⊎◌, inl, inr}
pub use mathlib.Core.Bool.{Bool, true, false, not, ◌&&◌, ◌||◌}
pub use mathlib.Core.Option.{Option, none, some}
pub use mathlib.Core.List.{List, [], ◌∷◌, ◌++◌, map}
pub use native.Mathlib.Omega.{arith}
pub use text.Mathlib.Text.{◌==◌}
pub use text.Mathlib.TextEquality.{eq_iff}
