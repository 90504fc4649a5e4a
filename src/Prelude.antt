-- ===== src/Prelude.antt =====
-- Names that every module shares: the libraries', and those of the child modules.
mod Tests
mod Tables
mod Int
mod Sums
mod Keys
mod Counts
mod Texts
mod Pairs
mod Pages
pub use Tests.*
unfoldable pub use Tables.*
unfoldable pub use Int.*
unfoldable pub use Sums.*
unfoldable pub use Keys.*
pub use Counts.*
unfoldable pub use Texts.*
unfoldable pub use Pairs.*
unfoldable pub use Pages.*
pub use Prim.Native.Nat.{ℕ, zero, suc, ◌+◌, ◌-◌, ◌*◌, ◌/◌, ◌%◌, ◌^◌, ◌≤◌, ◌<◌, min}
pub use Prim.Native.String.{String, ◌++◌ as concat}
pub use mathlib.Core.Path.{◌≡◌, refl, sym, ap, ◌∙◌}
pub use mathlib.Core.Logic.{◌≢◌, ◌↔◌, ◌⊎◌, inl, inr}
pub use mathlib.Core.Bool.{Bool, true, false, not, ◌&&◌, ◌||◌}
pub use mathlib.Core.Option.{Option, none, some}
pub use mathlib.Core.List.{List, [], ◌∷◌, ◌++◌, map}
pub use native.Mathlib.Omega.{arith}
pub use text.Mathlib.Text.{◌==◌ as str_eq}
pub use text.Mathlib.TextEquality.{eq_iff}
