-- ===== src/Base.antt =====
-- The names that the other modules share: the libraries' and those of the children, which model
-- what the program uses of Python's builtins (comparisons, lists, dictionaries, text).
pub mod Tests
pub mod Lists
pub mod Text
pub mod Exec
pub mod Maybe
pub mod Length
pub mod Pieces
pub mod Slices
pub mod Cuts
pub mod Checks
pub mod Integer
unfoldable pub use Tests.*
unfoldable pub use Lists.*
pub use Text.{◌&◌}
pub use Prim.Native.Nat.{ℕ, zero, suc, ◌+◌, ◌-◌, ◌*◌, ◌/◌, ◌%◌, ◌≤◌, ◌<◌, min, max}
pub use Prim.Native.String.{String}
pub use mathlib.Core.Path.{◌≡◌, refl, sym, ap, ◌∙◌}
pub use mathlib.Core.Logic.{◌≢◌, ◌↔◌, ◌⊎◌, inl, inr}
pub use mathlib.Core.Bool.{Bool, true, false, not, ◌&&◌, ◌||◌, false≢true}
pub use mathlib.Core.Option.{Option, none, some}
pub use mathlib.Core.List.{List, [], ◌∷◌, ◌++◌, map}
pub use native.Mathlib.Omega.{arith}
pub use text.Mathlib.Text.{◌==◌}
pub use text.Mathlib.TextEquality.{eq_iff}
pub use text.Mathlib.TextPositions.{eq_refl}
