-- ===== src/Prelude/Classes.antt =====
-- Equality as an interface, for the code that is generic in a type with `Eq`.
use Prim.Native.Nat.{ℕ}
use mathlib.Core.Path.{◌≡◌}
use mathlib.Core.Logic.{◌↔◌}
use mathlib.Core.Bool.{Bool, true}
use calandria.Prelude.Tests.{==_iff}
use calandria.Prelude.Tests.{◌==◌}

pub record Eq {ℓ} (A : Type ℓ) : Type ℓ where
  pub eq : A → A → Bool
  pub eq_iff : (a b : A) → (eq a b ≡ true) ↔ (a ≡ b)

instance abbrev pub nat_eq : Eq ℕ
nat_eq = record { eq = ◌==◌; eq_iff = ==_iff }
