-- ===== src/Scheduler/Seeded.antt =====
-- crates/calandria-sim/src/entropy.rs and scheduler/seeded.rs: choices drawn from SplitMix64. The
-- arithmetic wraps at 64 bits, and a shift to the right is a division.
use calandria.Prelude.{
  ℕ, ◌+◌, ◌*◌, ◌/◌, ◌%◌, none, some, length, get_elem?, ltb, ◌==◌, if◌then◌else◌, Result, ok, err,
  Outcome, returns, panics, ◌>>=◌,
}
use Prim.Native.Nat.{bit_xor}
use calandria.Words
use calandria.Words.{u64_max, or_panic}
use calandria.Action.{ActionKey, ReadySet}

abbrev pub two_64 : ℕ
two_64 = 18446744073709551616

abbrev pub wrapping_add : ℕ → ℕ → ℕ
wrapping_add a b = (a + b) % two_64

abbrev pub wrapping_mul : ℕ → ℕ → ℕ
wrapping_mul a b = (a * b) % two_64

abbrev pub gamma : ℕ
gamma = 0x9e3779b97f4a7c15

abbrev pub stream_domain : ℕ
stream_domain = 0xd1b54a32d192ed03

-- The three lines of `mix`; the shifts are by 30, 27 and 31.
unfoldable pub mix_first : ℕ → ℕ
mix_first value = wrapping_mul (bit_xor value (value / 1073741824)) 0xbf58476d1ce4e5b9

unfoldable pub mix_second : ℕ → ℕ
mix_second value = wrapping_mul (bit_xor value (value / 134217728)) 0x94d049bb133111eb

unfoldable pub mix_last : ℕ → ℕ
mix_last value = bit_xor value (value / 2147483648)

unfoldable pub mix : ℕ → ℕ
mix value = mix_last (mix_second (mix_first value))

pub record SplitMix64 : Type 0 where
  pub seed : ℕ
  pub stream : ℕ
  pub state : ℕ

abbrev pub split_mix : ℕ → ℕ → SplitMix64
split_mix seed stream = record {
  seed = seed;
  stream = stream;
  state = bit_xor seed (mix (wrapping_add stream stream_domain));
}

unfoldable pub next_u64 : SplitMix64 → SplitMix64 × ℕ
next_u64 s = let state = wrapping_add s.state gamma in (record s { state = state }, mix state)

pub record Seeded : Type 0 where
  pub entropy : SplitMix64
  pub selections : ℕ

pub data SeededError : Type 0 where
  ready_set_too_large : ℕ → SeededError
  selections_exhausted : SeededError

abbrev pub seeded : ℕ → ℕ → Seeded
seeded seed stream = record { entropy = split_mix seed stream; selections = 0 }

-- `choose` from the draw; the index is below 2 ^ 64, as `usize` is.
unfoldable pub choose_drawn :
    Seeded → ReadySet → ℕ → SplitMix64 × ℕ → Outcome (Seeded × Result ActionKey SeededError)
choose_drawn s ready next_selections drawn =
    let index = (drawn.1 * length ready) / two_64 in
    if ltb u64_max index
    then panics
    else or_panic (get_elem? ready index) >>= λ action.
        returns (record s { entropy = drawn.0; selections = next_selections }, ok action)

unfoldable pub choose : Seeded → ReadySet → Outcome (Seeded × Result ActionKey SeededError)
choose s ready = elim (Words.checked_add s.selections 1) [
  | none ↦ returns (s, err selections_exhausted)
  | some next_selections ↦
      if ltb u64_max (length ready)
      then returns (s, err (ready_set_too_large (length ready)))
      else if length ready == 0
      then panics
      else choose_drawn s ready next_selections (next_u64 s.entropy)
]
