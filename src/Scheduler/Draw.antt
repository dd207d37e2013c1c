-- ===== src/Scheduler/Draw.antt =====
-- The bounds of a draw (crates/calandria-sim/src/entropy.rs and scheduler/seeded.rs).
use calandria.Prelude.{
  ℕ, zero, suc, ◌+◌, ◌*◌, ◌/◌, ◌%◌, ◌≤◌, ◌<◌, ◌≡◌, refl, some, false, length, get_elem?,
  get_elem?-lt, ltb, leb, ◌==◌, Result, ok, err, Outcome, returns, ◌⊎◌, inl, inr, arith, Bool-cases,
}
use Prim.Native.Nat.{bit_xor, bit_xor-bitwise, digits, differ}
use calandria.Words.{u64_max}
use calandria.Action.{ActionKey, ReadySet}
use calandria.Scheduler.Seeded.{
  two_64, mix, mix_first, mix_second, mix_last, next_u64, SplitMix64, Seeded, SeededError,
  selections_exhausted, choose, choose_drawn,
}

pow2 : ℕ → ℕ
pow2 zero = 1
pow2 (suc k) = pow2 k * 2

differ-digit : (a b : ℕ) → a < 2 → b < 2 → differ a b < 2
differ-digit zero b h k = k
differ-digit (suc zero) zero h k = omega arith
differ-digit (suc zero) (suc b) h k = omega arith
differ-digit (suc (suc a)) b h k = absurd (omega arith)

digits-bound : (n k a b : ℕ) → a < pow2 k → b < pow2 k → digits (λ c. c) differ n a b < pow2 k
unfolding pow2
digits-bound zero k a b h l = l
digits-bound (suc n) k zero b h l = l
digits-bound (suc n) zero (suc a) b h l = absurd (omega arith)
digits-bound (suc n) (suc k) (suc a) b h l =
    let rest = digits-bound n k (suc a / 2) (b / 2) (omega arith) (omega arith) in
    let digit = differ-digit (suc a % 2) (b % 2) (omega arith) (omega arith) in
    omega (arith, rest, digit)

bit_xor-bound : (a b : ℕ) → a < two_64 → b < two_64 → bit_xor a b < two_64
unfolding pow2
bit_xor-bound a b h l =
    let bound = digits-bound a 64 a b h l in
    let same = bit_xor-bitwise a b in omega (arith, bound, same)

next_u64-bound : (s : SplitMix64) → (next_u64 s).1 < two_64
unfolding next_u64 mix mix_first mix_second mix_last
next_u64-bound s = bit_xor-bound _ _ (omega arith) (omega arith)

mul_le : (a b n : ℕ) → a ≤ b → a * n ≤ b * n
mul_le a b zero h = omega arith
mul_le a b (suc n) h = grind (arith, mul_le a b n h)

scaled-bound : (draw n : ℕ) → draw < two_64 → 0 < n → (draw * n) / two_64 < n
scaled-bound draw n h pos =
    let below : draw * n ≤ 18446744073709551615 * n =
      mul_le draw 18446744073709551615 n (omega arith) in
    omega arith

-- What a choice comes to: a choice from the ready set that the count of selections counts, or
-- nothing when the count is used up.
abbrev pub Draws : Seeded → ReadySet → Outcome (Seeded × Result ActionKey SeededError) → Type 0
Draws s ready r =
    ((s.selections ≡ u64_max) × (r ≡ returns (s, err selections_exhausted)))
    ⊎ ((s' : Seeded) × (a : ActionKey) × (i : ℕ) × (r ≡ returns (s', ok a))
        × (get_elem? ready i ≡ some a)
        × (s'.selections ≡ s.selections + 1)
        × (s'.selections ≤ u64_max))

-- From a ready set that is not empty and no larger than a `usize` counts, a seeded scheduler chooses
-- an action of the set without a panic, its index in bounds, and counts the selection; only with as
-- many selections as a `u64` counts does it refuse, and then nothing changes.
pub choose-Draws :
    (s : Seeded) (ready : ReadySet)
    → s.selections ≤ u64_max
    → 0 < length ready
    → length ready ≤ u64_max
    → Draws s ready (choose s ready)
unfolding choose choose_drawn
choose-Draws s ready word some_ready fits = elim (Bool-cases (leb (s.selections + 1) u64_max)) [
  | inr wraps ↦ inl (ground arith, rw (choose, wraps) refl)
  | inl counts ↦
      let drawn = next_u64 s.entropy in
      let bound = scaled-bound drawn.1 (length ready) (next_u64-bound s.entropy) some_ready in
      let (a, found) = get_elem?-lt ready ((drawn.1 * length ready) / two_64) bound in
      let small : ltb u64_max (length ready) ≡ false = ground arith in
      let any : (length ready == 0) ≡ false = ground arith in
      let narrow : ltb u64_max ((drawn.1 * length ready) / two_64) ≡ false = ground arith in
      inr (
        record s { entropy = drawn.0; selections = s.selections + 1 },
        a,
        (drawn.1 * length ready) / two_64,
        rw (choose, counts, small, any, narrow, found) refl,
        found,
        refl,
        ground arith,
      )
]
