-- ===== src/Prelude/Outcomes.antt =====
-- Rust's `Result`, and code that may panic.
use mathlib.Core.Path.{◌≡◌, refl}

pub data Result {ℓ κ} (A : Type ℓ) (E : Type κ) : Type (ℓ ⊔ κ) where
  ok : A → Result A E
  err : E → Result A E

-- What a call that contains a `panic!` or a failing `unwrap` comes to.
pub data Outcome {ℓ} (A : Type ℓ) : Type ℓ where
  returns : A → Outcome A
  panics : Outcome A

-- `abbrev`, so that `returns a >>= f` computes wherever it stands.
infixl 5 ◌>>=◌
abbrev pub ◌>>=◌ {ℓ κ} : {A : Type ℓ} {B : Type κ} → Outcome A → (A → Outcome B) → Outcome B
returns a >>= f = f a
panics >>= f = panics

pub returns-inj {ℓ} : {A : Type ℓ} (a b : A) → returns a ≡ returns b → a ≡ b
returns-inj a b h = cc

pub returns_of {ℓ} : {A : Type ℓ} (o : Outcome A) → ¬ (o ≡ panics) → (a : A) × (o ≡ returns a)
returns_of (returns a) h = (a, refl)
returns_of panics h = absurd (h refl)
