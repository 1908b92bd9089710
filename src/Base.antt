-- ===== src/Base.antt =====
-- Names that the other modules share: those of the libraries, passed on, and the Boolean tests,
-- texts and lists of the three children. No code of the repository is modelled here.
mod Tests
mod Lists
mod Strings
mod Decimal
pub mod Trim
pub mod Fields
pub mod Search
pub mod Affixes
pub use Tests.*
pub use Lists.*
unfoldable pub use Decimal.*
unfoldable pub use Strings.*
pub use Prim.Native.Nat.{ℕ, zero, suc, ◌+◌, ◌-◌, ◌*◌, ◌/◌, ◌%◌, ◌^◌, ◌≤◌, ◌<◌}
pub use Prim.Native.String.{String}
pub use mathlib.Core.Path.{◌≡◌, refl, sym, ap, ◌∙◌}
pub use mathlib.Core.Logic.{◌≢◌, ◌↔◌, ◌⊎◌, inl, inr}
pub use mathlib.Core.Bool.{Bool, true, false, not, ◌&&◌, ◌||◌}
pub use mathlib.Core.Option.{Option, none, some}
pub use mathlib.Core.List.{List, [], ◌∷◌, ◌++◌, map, append-nil, append_assoc}
pub use native.Mathlib.Omega.{arith}
