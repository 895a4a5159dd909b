-- ===== src/Prelude.antt =====
-- The names that the other modules share: the libraries' names, passed on, and the helpers of the
-- children (tests, lists, bytes, bits, machine words and loops).
mod Tests
mod Lists
pub mod Bits
mod Words
mod Bytes
pub mod Loops
pub mod Order
pub use Words.*
unfoldable pub use Bytes.*
pub use Tests.*
pub use Lists.*
pub use Prim.Native.Nat.{ℕ, zero, suc, ◌+◌, ◌-◌, ◌*◌, ◌/◌, ◌%◌, ◌^◌, ◌≤◌, ◌<◌, min, max}
pub use mathlib.Core.Path.{◌≡◌, refl, sym, ap, ◌∙◌}
pub use mathlib.Core.Logic.{◌≢◌, ◌↔◌, ◌⊎◌, inl, inr}
pub use mathlib.Core.Bool.{Bool, true, false, not, ◌&&◌, ◌||◌}
pub use mathlib.Core.Option.{Option, none, some}
pub use mathlib.Core.List.{List, [], ◌∷◌, ◌++◌, map}
pub use native.Mathlib.Omega.{arith}
