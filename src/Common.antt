-- ===== src/Common.antt =====
-- The names that the modules share: the libraries' names passed on, Boolean tests and the
-- conditional, sequences indexed by native numbers, and the checked arithmetic of Rust's words.
mod Tests
mod Lists
mod Words
mod Bits
mod Int
pub mod Checked
pub mod First
pub mod Result
pub mod Sort
pub use Tests.*
pub use Lists.*
pub use Words.*
pub use Bits.*
pub use Int.*
pub use Prim.Native.Nat.{ℕ, zero, suc, ◌+◌, ◌-◌, ◌*◌, ◌/◌, ◌%◌, ◌^◌, ◌≤◌, ◌<◌, min, max}
pub use Prim.Native.Nat.{bit_and, bit_xor, bit_or}
pub use mathlib.Core.Path.{◌≡◌, refl, sym, ap, ◌∙◌}
pub use mathlib.Core.Logic.{◌≢◌, ◌↔◌, ◌⊎◌, inl, inr}
pub use mathlib.Core.Bool.{Bool, true, false, not, ◌&&◌, ◌||◌}
pub use mathlib.Core.Option.{Option, none, some}
pub use mathlib.Core.List.{List, [], ◌∷◌, ◌++◌, map, append_assoc, append-nil}
pub use native.Mathlib.Omega.{arith}
