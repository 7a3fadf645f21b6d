-- ===== src/Prelude.antt =====
-- Names that the other modules share: the libraries', passed on, and those of the children.
mod Tests
mod Lists
pub mod Int
pub mod Text
pub use Tests.*
unfoldable pub use Lists.*
pub use Prim.Native.Nat.{ℕ, zero, suc, ◌+◌, ◌-◌, ◌*◌, ◌/◌, ◌%◌, ◌≤◌, ◌<◌}
pub use Prim.Native.String.{String}
pub use mathlib.Core.Path.{◌≡◌, refl, sym, ap, ap₂, ◌∙◌}
pub use mathlib.Core.Logic.{◌≢◌, ◌↔◌, ◌⊎◌, inl, inr}
pub use mathlib.Core.Logic.{ite}
pub use mathlib.Core.Bool.{Bool, true, false, not, ◌&&◌, ◌||◌}
pub use mathlib.Core.Option.{Option, none, some}
pub use mathlib.Core.List.{List, [], ◌∷◌, ◌++◌, map, append_assoc, append-nil}
pub use native.Mathlib.Omega.{arith}
pub use text.Mathlib.Text.{◌==◌ as ◌==◌}
pub use text.Mathlib.TextEquality.{eq_iff}
use mathlib.Core.Bool.{false≢true}

abbrev decide_by : (b : Bool) {P : Type 0} → ((b ≡ true) ↔ P) → Dec P
decide_by true e = yes (e.0 refl)
decide_by false e = no (λ p. false≢true (e.1 p))

-- Equality of texts, as the library's functions on dicts want it.
unfoldable pub String_discrete : Discrete String
String_discrete s t = decide_by (s == t) (eq_iff s t)
