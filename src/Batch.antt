-- ===== src/Batch.antt =====
-- crates/calandria/src/batch: an owner-local batch of events, bounded by count and retained bytes.
-- A method that takes `&mut self` returns the new batch beside its result.
pub mod Invariant
pub mod Laws
mod Tests
use calandria.Prelude.{
  ℕ, ◌+◌, Option, none, some, Bool, true, false, List, [], ◌∷◌, ◌++◌, map, length, leb, ltb,
  if◌then◌else◌, Result, ok, err, Outcome, returns, panics, ◌>>=◌,
}
use calandria.Retained.{RetainedBytes, zero_bytes, checked_add, subtract_retained}

-- `events` is a `NonZeroUsize`; the invariant states it.
pub record EventBatchLimits : Type 0 where
  pub events : ℕ
  pub retained_bytes : RetainedBytes

pub record Entry {ℓ} (E : Type ℓ) : Type ℓ where
  pub event : E
  pub retained : RetainedBytes

pub record EventBatch {ℓ} (E : Type ℓ) : Type ℓ where
  pub limits : EventBatchLimits
  pub measure : E → RetainedBytes
  pub events : List (Entry E)
  pub retained : RetainedBytes

pub data EventBatchFailure : Type 0 where
  event_capacity : ℕ → EventBatchFailure
  retained_byte_overflow : RetainedBytes → RetainedBytes → EventBatchFailure
  retained_byte_capacity : RetainedBytes → RetainedBytes → RetainedBytes → EventBatchFailure

pub record EventBatchError {ℓ} (E : Type ℓ) : Type ℓ where
  pub event : E
  pub failure : EventBatchFailure

pub record EventBatchSnapshot : Type 0 where
  pub limits : EventBatchLimits
  pub events : ℕ
  pub retained_bytes : RetainedBytes

-- `Vec::pop`, which takes the last element.
abbrev pub pop_last {ℓ} : {A : Type ℓ} → List A → Option (List A × A)
pop_last [] = none
pop_last (x ∷ xs) = elim (pop_last xs) [
  | none ↦ some ([], x)
  | some (rest, last) ↦ some (x ∷ rest, last)
]

module _ {ℓ} {E : Type ℓ} where
  pub with_measure : EventBatchLimits → (E → RetainedBytes) → EventBatch E
  with_measure limits measure = record {
    limits = limits;
    measure = measure;
    events = [];
    retained = zero_bytes;
  }

  pub is_empty : EventBatch E → Bool
  is_empty b = elim b.events [ [] ↦ true | _ ∷ _ ↦ false ]

  pub len : EventBatch E → ℕ
  len b = length b.events

  -- `iter`, run to its end.
  pub iter : EventBatch E → List E
  iter b = map (λ entry. entry.event) b.events

  pub first : EventBatch E → Option E
  first b = elim b.events [ [] ↦ none | entry ∷ _ ↦ some entry.event ]

  -- The part of `try_push` behind the count test and the byte addition.
  push_measured :
      EventBatch E
      → E
      → RetainedBytes
      → Option RetainedBytes
      → EventBatch E × Result (Unit {0}) (EventBatchError E)
  push_measured b event retained none =
      (b, err (record { event = event; failure = retained_byte_overflow b.retained retained }))
  push_measured b event retained (some next_retained) =
      if ltb b.limits.retained_bytes next_retained
      then (
        b,
        err (record {
          event = event;
          failure = retained_byte_capacity b.limits.retained_bytes b.retained retained;
        }),
      )
      else (
        record b {
          events = b.events ++ (record { event = event; retained = retained } ∷ []);
          retained = next_retained;
        },
        ok tt,
      )

  pub try_push : EventBatch E → E → EventBatch E × Result (Unit {0}) (EventBatchError E)
  unfolding push_measured
  try_push b event =
      if leb b.limits.events (length b.events)
      then (b, err (record { event = event; failure = event_capacity b.limits.events }))
      else push_measured b event (b.measure event) (checked_add b.retained (b.measure event))

  pub pop : EventBatch E → Outcome (EventBatch E × Option E)
  pop b = elim (pop_last b.events) [
    | none ↦ returns (b, none)
    | some (rest, entry) ↦ subtract_retained b.retained entry.retained >>= λ retained.
        returns (record b { events = rest; retained = retained }, some entry.event)
  ]

  pub clear : EventBatch E → EventBatch E
  clear b = record b { events = []; retained = zero_bytes }

  -- `drain`, with the iterator run to its end.
  pub drain : EventBatch E → EventBatch E × List E
  unfolding iter
  drain b = (record b { events = []; retained = zero_bytes }, iter b)

  pub snapshot : EventBatch E → EventBatchSnapshot
  snapshot b = record { limits = b.limits; events = length b.events; retained_bytes = b.retained }
