-- ===== src/Base.antt =====
-- What the modules of this library share: names of the libraries passed on, tests on numbers,
-- lists indexed by numbers, signed integers, machine words and runs that may exit or fault.
mod Tests
mod Lists
mod Int
mod Words
mod Exec
pub mod Bits
pub mod Progress
pub use Tests.*
pub use Lists.*
unfoldable pub use Int.*
pub use Words.*
pub use Exec.*
pub use Prim.Native.Nat.{ℕ, zero, suc, ◌+◌, ◌-◌, ◌*◌, ◌/◌, ◌%◌, ◌^◌, ◌≤◌, ◌<◌}
pub use mathlib.Core.Path.{◌≡◌, refl, sym, ap, ◌∙◌}
pub use mathlib.Core.Logic.{◌≢◌, ◌↔◌, ◌⊎◌, inl, inr}
pub use mathlib.Core.Bool.{Bool, true, false, ◌&&◌, ◌||◌, not}
pub use mathlib.Core.Option.{Option, none, some}
pub use mathlib.Core.List.{List, [], ◌∷◌, ◌++◌, map}
pub use native.Mathlib.Omega.{arith}
