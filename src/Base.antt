-- ===== src/Base.antt =====
-- The names that the other modules share: those of the libraries, passed on, and those of five
-- children (tests on numbers, lists, runs of stateful code, cyclic buffers, tables over small ranges).
mod Tests
mod Lists
mod Table
pub mod Int
pub mod Run
pub mod Cyclic
pub use Tests.*
pub use Lists.*
unfoldable pub use Table.{all_below}
pub use Table.{all_below-apply}
pub use Prim.Native.Nat.{ℕ, zero, suc, ◌+◌, ◌-◌, ◌*◌, ◌/◌, ◌%◌, ◌^◌, ◌≤◌, ◌<◌, min}
pub use Prim.Native.Nat.{bit_and, bit_or, bit_xor}
pub use mathlib.Core.Path.{◌≡◌, refl, sym, ap, ◌∙◌, fun_ext, ◌≡⟨◌⟩◌, ◌∎}
pub use mathlib.Core.Logic.{◌≢◌, ◌↔◌, ◌⊎◌, inl, inr}
pub use mathlib.Core.Bool.{Bool, true, false, not, ◌&&◌, ◌||◌}
pub use mathlib.Core.Option.{Option, none, some}
pub use mathlib.Core.List.{List, [], ◌∷◌, ◌++◌, map}
pub use native.Mathlib.Omega.{arith}
