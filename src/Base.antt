-- ===== src/Base.antt =====
-- What the modules share: the libraries' names, passed on, tests on numbers, list helpers, texts
-- and JavaScript objects. It models no file of its own but the built-in operations that the
-- sources call (`trim`, `includes`, `startsWith`, `split`, `some`, `every`, `filter`).
mod Logic
mod Lists
mod Strings
mod Objects
mod Values
unfoldable pub use Logic.*
pub use Lists.*
unfoldable pub use Strings.*
unfoldable pub use Objects.*
unfoldable pub use Values.*
pub use Prim.Native.Nat.{ℕ, zero, suc, ◌+◌, ◌-◌, ◌*◌, ◌/◌, ◌%◌, ◌≤◌, ◌<◌}
pub use mathlib.Core.Path.{◌≡◌, refl, subst, sym, ap, ap₂, ◌∙◌, ◌≡⟨◌⟩◌, ◌∎}
pub use mathlib.Core.Logic.{◌≢◌, ◌↔◌, ◌⊎◌, inl, inr}
pub use mathlib.Core.Bool.{Bool, true, false, not, ◌&&◌, ◌||◌, false≢true}
pub use mathlib.Core.Option.{Option, none, some}
pub use mathlib.Core.List.{List, [], ◌∷◌, ◌++◌, map, append-nil, append_assoc}
pub use native.Mathlib.Omega.{arith}
