-- ===== src/Base.antt =====
-- What the components share: the libraries' names, tests and conditionals, lists measured by the
-- native numbers, byte strings, maps keyed by them, 64-bit words, signed integers and sorting.
mod Tests
mod Lists
mod Texts
mod Maps
mod Words
mod Ints
mod Sorting
pub use Tests.*
pub use Lists.*
unfoldable pub use Texts.{text_eq, text_lt}
unfoldable pub use Maps.{find, contains, emplace, assign, erase}
unfoldable pub use Words.{add64, sub64, mul64}
pub use Texts.*
pub use Maps.*
pub use Words.*
pub use Ints.*
unfoldable pub use Sorting.{sort}
pub use Sorting.*
pub use Prim.Native.Nat.{ℕ, zero, suc, ◌+◌, ◌-◌, ◌*◌, ◌/◌, ◌%◌, ◌^◌, ◌≤◌, ◌<◌, max}
pub use mathlib.Core.Path.{◌≡◌, refl, sym, ap, ◌∙◌, subst}
pub use mathlib.Core.Logic.{◌≢◌, ◌↔◌, ◌⊎◌, inl, inr}
pub use mathlib.Core.Bool.{Bool, true, false, not, ◌&&◌, ◌||◌}
pub use mathlib.Core.Option.{Option, none, some}
pub use mathlib.Core.List.{List, [], ◌∷◌, ◌++◌, map, append_assoc, append-nil}
pub use native.Mathlib.Omega.{arith}
