-- ===== src/Prelude.antt =====
-- Names that every component uses: the libraries', passed on, and those of the children.
-- The program keeps its state in `HashMap`s with text keys (`Maps`), tests machine integers and
-- texts (`Tests`), and passes errors on with `?` (`Results`).
mod Tests
mod Results
mod Maps
mod Lists
unfoldable pub use Tests.*
pub use Results.*
unfoldable pub use Maps.*
unfoldable pub use Lists.*
pub use Prim.Native.Nat.{ℕ, zero, suc, ◌+◌, ◌-◌, ◌*◌, ◌/◌, ◌%◌, ◌^◌, ◌≤◌, ◌<◌}
pub use Prim.Native.String.{String}
pub use mathlib.Core.Path.{◌≡◌, refl, sym, ap, subst, ◌∙◌}
pub use mathlib.Core.Logic.{◌≢◌, ◌↔◌, ◌⊎◌, inl, inr}
pub use mathlib.Core.Bool.{Bool, true, false, not, ◌&&◌, ◌||◌}
pub use mathlib.Core.Option.{Option, none, some}
pub use mathlib.Core.List.{List, [], ◌∷◌, ◌++◌}
pub use native.Mathlib.Omega.{arith}
