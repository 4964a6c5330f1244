-- ===== src/Common.antt =====
-- What the modules share: the libraries' names, passed on; tests on numbers, errors and actions,
-- dictionaries, and lists measured by native numbers.
mod Tests
mod Lists
mod Errors
pub mod Act
pub mod Bytes
pub mod Decimal
pub mod Base32
pub mod Base64
pub mod FilePath
pub mod Calls
pub mod Slices
pub mod Split
pub mod Assoc
pub use Tests.*
pub use Lists.*
pub use Errors.*
pub use Prim.Native.Nat.{ℕ, zero, suc, ◌+◌, ◌-◌, ◌*◌, ◌/◌, ◌%◌, ◌^◌, ◌≤◌, ◌<◌}
pub use Prim.Native.String.{String}
pub use mathlib.Core.Path.{subst, ◌≡◌, refl, sym, ap, ap₂, ◌∙◌}
pub use mathlib.Core.Logic.{◌≢◌, ◌↔◌, ◌⊎◌, inl, inr}
pub use mathlib.Core.Bool.{Bool, true, false, not, ◌&&◌, ◌||◌}
pub use mathlib.Core.Option.{Option, none, some}
pub use mathlib.Core.List.{List, [], ◌∷◌, ◌++◌, map}
pub use native.Mathlib.Omega.{arith}
pub use text.Mathlib.Text.{◌==◌}
pub use text.Mathlib.TextEquality.{eq_iff}
