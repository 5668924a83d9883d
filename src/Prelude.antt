-- ===== src/Prelude.antt =====
-- The names that the other modules share: the library's, passed on, and those of the children
-- (Boolean tests, Python's ints, Python's values, methods with state and exceptions).
mod Tests
mod Int
mod Values
mod Methods
mod Keeping
mod Sets
mod Partial
mod Dicts
pub use Tests.*
unfoldable pub use Int.*
unfoldable pub use Values.*
pub use Methods.*
pub use Keeping.*
unfoldable pub use Sets.*
pub use Partial.*
pub use Dicts.*
pub use Prim.Native.Nat.{ℕ, zero, suc, ◌+◌, ◌-◌, ◌*◌, ◌≤◌, ◌<◌}
pub use Prim.Native.String.{String, ◌++◌ as ◌+++◌}
pub use mathlib.Core.Path.{◌≡◌, refl, sym, ap, ◌∙◌, subst}
pub use mathlib.Core.Logic.{◌≢◌, ◌⊎◌, inl, inr}
pub use mathlib.Core.Bool.{Bool, true, false, not, ◌&&◌, ◌||◌, false≢true}
pub use mathlib.Core.Option.{Option, none, some}
pub use mathlib.Core.List.{List, [], ◌∷◌, ◌++◌, map}
pub use native.Mathlib.Omega.{arith}
pub use text.Mathlib.TextEquality.{eq_iff}
pub use text.Mathlib.TextPositions.{eq_refl}
