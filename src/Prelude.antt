-- ===== src/Prelude.antt =====
-- The names that the other modules share: library names passed on, Boolean tests on native
-- numbers, lists measured by native numbers, the exceptions of the program and its clock values.
mod Tests
mod Lists
mod Results
mod Times
mod Texts
pub use Tests.*
pub use Lists.*
pub use Results.*
pub use Times.*
pub use Texts.*
pub use Prim.Native.Nat.{ℕ, zero, suc, ◌+◌, ◌-◌, ◌*◌, ◌/◌, ◌%◌, ◌^◌, ◌≤◌, ◌<◌, min, max}
pub use mathlib.Core.Path.{◌≡◌, refl, sym, ap, ◌∙◌}
pub use mathlib.Core.Logic.{◌≢◌, ◌↔◌, ◌⊎◌, inl, inr}
pub use mathlib.Core.Bool.{Bool, true, false, not, ◌&&◌, ◌||◌}
pub use mathlib.Core.Option.{Option, none, some}
pub use mathlib.Core.List.{List, [], ◌∷◌, ◌++◌, map}
pub use native.Mathlib.Omega.{arith}
unfoldable pub use ai_meeting_copilot.Prelude.Texts.{is_space}
