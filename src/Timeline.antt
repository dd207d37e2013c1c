-- ===== src/Timeline.antt =====
-- crates/calandria-sim/src/timeline/owner.rs, limits.rs, error.rs and snapshot.rs, with clock.rs and
-- event.rs: a bounded timeline of simulated events. The `BTreeMap` is a list of entries in the order
-- of their keys (moment, identity).
pub mod Order
pub mod Invariant
pub mod Schedule
pub mod History
pub mod Transaction
pub mod Rollback
mod Tests
use calandria.Prelude.{
  ℕ, ◌+◌, ◌≤◌, Option, none, some, Bool, true, false, List, [], ◌∷◌, length, leb, ltb, ◌==◌, ◌&&◌,
  ◌||◌, if◌then◌else◌, Result, ok, err, Outcome, returns, panics, ◌>>=◌,
}
use calandria.Words
use calandria.Time.Moment.{Moment}
use calandria.Time.Moment
use calandria.Time.Span.{Span}
use calandria.Script.{Planned}
use calandria.Retained.{RetainedBytes, zero_bytes, checked_add, subtract_retained}

pub record EventToken : Type 0 where
  pub timeline : ℕ
  pub id : ℕ
  pub at : Moment

pub record TimelineLimits : Type 0 where
  pub pending_events : ℕ
  pub retained_bytes : RetainedBytes

pub record TimelineSnapshot : Type 0 where
  pub id : ℕ
  pub limits : TimelineLimits
  pub now : Moment
  pub pending_events : ℕ
  pub retained_bytes : RetainedBytes
  pub next_at : Option Moment

-- `Entry`, with its key.
pub record Entry {ℓ} (E : Type ℓ) : Type ℓ where
  pub at : Moment
  pub id : ℕ
  pub event : E
  pub retained : RetainedBytes

-- The clock is its current moment.
pub record Timeline {ℓ} (E : Type ℓ) : Type ℓ where
  pub id : ℕ
  pub clock : Moment
  pub limits : TimelineLimits
  pub measure : E → RetainedBytes
  pub next_id : Option ℕ
  pub retained : RetainedBytes
  pub events : List (Entry E)

pub data ScheduleFailure : Type 0 where
  scheduled_in_past : Moment → Moment → ScheduleFailure
  time_overflow : Moment → Span → ScheduleFailure
  event_capacity : ℕ → ScheduleFailure
  retained_byte_overflow : RetainedBytes → RetainedBytes → ScheduleFailure
  retained_byte_capacity : RetainedBytes → RetainedBytes → RetainedBytes → ScheduleFailure
  event_ids_exhausted : ScheduleFailure

pub record ScheduleError {ℓ} (E : Type ℓ) : Type ℓ where
  pub event : E
  pub failure : ScheduleFailure

pub record Delivery {ℓ} (E : Type ℓ) : Type ℓ where
  pub token : EventToken
  pub event : E

-- `VirtualClock::advance_to`; `none` is `ClockRegression`.
unfoldable pub advance_to : Moment → Moment → Option Moment
advance_to clock requested = if ltb requested clock then none else some requested

abbrev pub key_lt : Moment → ℕ → Moment → ℕ → Bool
key_lt at id at' id' = ltb at at' || (at == at' && ltb id id')

abbrev pub key_eq : Moment → ℕ → Moment → ℕ → Bool
key_eq at id at' id' = at == at' && id == id'

module _ {ℓ} {E : Type ℓ} where
  -- `BTreeMap::entry` and the insertion into a vacant entry; `none` is an occupied one.
  unfoldable pub insert : Entry E → List (Entry E) → Option (List (Entry E))
  insert e [] = some (e ∷ [])
  insert e (x ∷ xs) =
      let rest = insert e xs in
      if key_lt e.at e.id x.at x.id
      then some (e ∷ x ∷ xs)
      else if key_eq e.at e.id x.at x.id
      then none
      else elim rest [ none ↦ none | some ys ↦ some (x ∷ ys) ]

  -- `BTreeMap::remove`
  unfoldable pub take_key : Moment → ℕ → List (Entry E) → Option (Entry E × List (Entry E))
  take_key at id [] = none
  take_key at id (x ∷ xs) =
      let rest = take_key at id xs in
      if key_eq at id x.at x.id
      then some (x, xs)
      else elim rest [ none ↦ none | some (found, ys) ↦ some (found, x ∷ ys) ]

  abbrev pub at_with_measure : ℕ → Moment → TimelineLimits → (E → RetainedBytes) → Timeline E
  at_with_measure id now limits measure = record {
    id = id;
    clock = now;
    limits = limits;
    measure = measure;
    next_id = some 0;
    retained = zero_bytes;
    events = [];
  }

  abbrev pub next_at : Timeline E → Option Moment
  next_at t = elim t.events [ [] ↦ none | x ∷ xs ↦ some x.at ]

  abbrev pub snapshot : Timeline E → TimelineSnapshot
  snapshot t = record {
    id = t.id;
    limits = t.limits;
    now = t.clock;
    pending_events = length t.events;
    retained_bytes = t.retained;
    next_at = next_at t;
  }

  abbrev pub refuse :
      Timeline E → E → ScheduleFailure → Outcome (Timeline E × Result EventToken (ScheduleError E))
  refuse t event failure = returns (t, err (record { event = event; failure = failure }))

  -- The end of `schedule_validated`, from the insertion.
  unfoldable pub insert_event :
      Timeline E
      → Entry E
      → RetainedBytes
      → Option (List (Entry E))
      → Outcome (Timeline E × Result EventToken (ScheduleError E))
  insert_event t e next_retained none = panics
  insert_event t e next_retained (some events) = returns (
    record t { next_id = Words.checked_add e.id 1; retained = next_retained; events = events },
    ok (record { timeline = t.id; id = e.id; at = e.at }),
  )

  -- `schedule_validated` from the identity on.
  unfoldable pub identify_event :
      Timeline E
      → Moment
      → E
      → RetainedBytes
      → RetainedBytes
      → Option ℕ
      → Outcome (Timeline E × Result EventToken (ScheduleError E))
  identify_event t at event retained next_retained none = refuse t event event_ids_exhausted
  identify_event t at event retained next_retained (some raw_id) =
      let e : Entry E = record { at = at; id = raw_id; event = event; retained = retained } in
      insert_event t e next_retained (insert e t.events)

  unfoldable pub schedule_validated :
      Timeline E → Moment → E → Outcome (Timeline E × Result EventToken (ScheduleError E))
  schedule_validated t at event =
      if leb t.limits.pending_events (length t.events)
      then refuse t event (event_capacity t.limits.pending_events)
      else elim (checked_add t.retained (t.measure event)) [
        | none ↦ refuse t event (retained_byte_overflow t.retained (t.measure event))
        | some next_retained ↦
            if ltb t.limits.retained_bytes next_retained
            then refuse t event
                (retained_byte_capacity t.limits.retained_bytes t.retained (t.measure event))
            else identify_event t at event (t.measure event) next_retained t.next_id
      ]

  unfoldable pub schedule_at :
      Timeline E → Moment → E → Outcome (Timeline E × Result EventToken (ScheduleError E))
  schedule_at t at event =
      if ltb at t.clock
      then refuse t event (scheduled_in_past t.clock at)
      else schedule_validated t at event

  unfoldable pub schedule_after :
      Timeline E → Span → E → Outcome (Timeline E × Result EventToken (ScheduleError E))
  schedule_after t delay event = elim (Moment.checked_add t.clock delay) [
    | none ↦ refuse t event (time_overflow t.clock delay)
    | some at ↦ schedule_validated t at event
  ]

  abbrev pub schedule_planned :
      Timeline E → Planned E → Outcome (Timeline E × Result EventToken (ScheduleError E))
  schedule_planned t planned = schedule_after t planned.delay planned.outcome

  unfoldable pub cancel : Timeline E → EventToken → Outcome (Timeline E × Option E)
  cancel t token =
      if token.timeline == t.id
      then elim (take_key token.at token.id t.events) [
        | none ↦ returns (t, none)
        | some (e, rest) ↦ subtract_retained t.retained e.retained >>= λ retained.
            returns (record t { retained = retained; events = rest }, some e.event)
      ]
      else returns (t, none)

  unfoldable pub pop_next : Timeline E → Outcome (Timeline E × Option (Delivery E))
  pop_next t = elim t.events [
    | [] ↦ returns (t, none)
    | e ∷ rest ↦ elim (advance_to t.clock e.at) [
      | none ↦ panics
      | some now ↦ subtract_retained t.retained e.retained >>= λ retained. returns (
        record t { clock = now; retained = retained; events = rest },
        some (record { token = record { timeline = t.id; id = e.id; at = e.at }; event = e.event }),
      )
    ]
  ]
