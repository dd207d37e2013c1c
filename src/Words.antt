-- ===== src/Words.antt =====
-- The arithmetic of Rust's `u64` (and of `usize`, taken to be 64 bits wide) that the crates call.
use calandria.Prelude.{
  ℕ, ◌+◌, ◌-◌, Option, none, some, leb, if◌then◌else◌, Outcome, returns, panics,
}

abbrev pub u64_max : ℕ
u64_max = 18446744073709551615

-- `u64::checked_add`, `usize::checked_add`
abbrev pub checked_add : ℕ → ℕ → Option ℕ
checked_add a b = if leb (a + b) u64_max then some (a + b) else none

-- `u64::checked_sub`, `usize::checked_sub`
abbrev pub checked_sub : ℕ → ℕ → Option ℕ
checked_sub a b = if leb b a then some (a - b) else none

-- `u64::saturating_add`
abbrev pub saturating_add : ℕ → ℕ → ℕ
saturating_add a b = if leb (a + b) u64_max then a + b else u64_max

-- `Option::unwrap_or_else(|| panic!(..))`
abbrev pub or_panic {ℓ} : {A : Type ℓ} → Option A → Outcome A
or_panic none = panics
or_panic (some a) = returns a
