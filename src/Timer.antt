-- ===== src/Timer.antt =====
-- crates/calandria/src/timer: a bounded queue of timers in stable deadline order.
-- `BinaryHeap` is a list in no particular order, whose `peek` and `pop` take a greatest element.
pub mod Heap
pub mod Order
pub mod Invariant
pub mod Schedule
pub mod Cancel
pub mod Due
pub mod Drain
pub mod History
mod Tests
use calandria.Prelude.{
  ℕ, zero, suc, ◌+◌, Option, none, some, Bool, true, false, List, [], ◌∷◌, ◌++◌, length, leb, ltb,
  ◌==◌, if◌then◌else◌, ◌&&◌, Result, ok, err, Outcome, returns, panics, ◌>>=◌,
}
use calandria.Words
use calandria.Time.Moment.{Moment}
use calandria.Time.Deadline.{Deadline}
use calandria.Time.Deadline
use calandria.Retained.{RetainedBytes, zero_bytes, checked_add, subtract_retained}
use Heap.{Timer, TimerToken, TimerOwnerId, TimerId, heap_peek, heap_pop, position, swap_remove}

-- `timers` is a `NonZeroUsize`.
pub record TimerLimits : Type 0 where
  pub timers : ℕ
  pub retained_bytes : RetainedBytes

pub record TimerQueue {ℓ} (T : Type ℓ) : Type ℓ where
  pub owner : TimerOwnerId
  pub limits : TimerLimits
  pub measure : T → RetainedBytes
  pub timers : List (Timer T)
  pub next_id : Option TimerId
  pub retained : RetainedBytes

pub data TimerScheduleFailure : Type 0 where
  timer_capacity : ℕ → TimerScheduleFailure
  retained_byte_overflow : RetainedBytes → RetainedBytes → TimerScheduleFailure
  retained_byte_capacity : RetainedBytes → RetainedBytes → RetainedBytes → TimerScheduleFailure
  timer_ids_exhausted : TimerScheduleFailure

pub record TimerScheduleError {ℓ} (T : Type ℓ) : Type ℓ where
  pub deadline : Deadline
  pub value : T
  pub failure : TimerScheduleFailure

pub record TimerDrain : Type 0 where
  pub fired : ℕ
  pub more_due : Bool

pub record TimerQueueSnapshot : Type 0 where
  pub owner : TimerOwnerId
  pub limits : TimerLimits
  pub pending_timers : ℕ
  pub retained_bytes : RetainedBytes
  pub next_deadline : Option Deadline
  pub next_id : Option TimerId

-- `TimerId::checked_next`
abbrev pub checked_next : TimerId → Option TimerId
checked_next id = Words.checked_add id 1

module _ {ℓ} {T : Type ℓ} where
  pub starting_at_with_measure :
      TimerOwnerId → TimerLimits → TimerId → (T → RetainedBytes) → TimerQueue T
  starting_at_with_measure owner limits first_id measure = record {
    owner = owner;
    limits = limits;
    measure = measure;
    timers = [];
    next_id = some first_id;
    retained = zero_bytes;
  }

  pub next_deadline : TimerQueue T → Option Deadline
  next_deadline q = elim (heap_peek q.timers) [
    | none ↦ none
    | some timer ↦ some timer.token.deadline
  ]

  -- `check_retained`, whose success carries the new total.
  check_retained :
      TimerQueue T → Deadline → T → RetainedBytes → Result RetainedBytes (TimerScheduleError T)
  check_retained q deadline value retained = elim (checked_add q.retained retained) [
    | none ↦ err (record {
      deadline = deadline;
      value = value;
      failure = retained_byte_overflow q.retained retained;
    })
    | some total ↦
        if ltb q.limits.retained_bytes total
        then err (record {
          deadline = deadline;
          value = value;
          failure = retained_byte_capacity q.limits.retained_bytes q.retained retained;
        })
        else ok total
  ]

  -- The part of `schedule` that takes the next identity.
  admit_timer :
      TimerQueue T
      → Deadline
      → T
      → RetainedBytes
      → RetainedBytes
      → Option TimerId
      → TimerQueue T × Result TimerToken (TimerScheduleError T)
  admit_timer q deadline value retained total none =
      (q, err (record { deadline = deadline; value = value; failure = timer_ids_exhausted }))
  admit_timer q deadline value retained total (some id) =
      let token : TimerToken = record { owner = q.owner; id = id; deadline = deadline } in
      (
        record q {
          next_id = checked_next id;
          timers = q.timers ++ (record { token = token; value = value; retained = retained } ∷ []);
          retained = total;
        },
        ok token,
      )

  pub schedule :
      TimerQueue T → Deadline → T → TimerQueue T × Result TimerToken (TimerScheduleError T)
  unfolding check_retained admit_timer
  schedule q deadline value =
      if leb q.limits.timers (length q.timers)
      then (
        q,
        err (record {
          deadline = deadline;
          value = value;
          failure = timer_capacity q.limits.timers;
        }),
      )
      else elim (check_retained q deadline value (q.measure value)) [
        | err failed ↦ (q, err failed)
        | ok total ↦ admit_timer q deadline value (q.measure value) total q.next_id
      ]

  pub cancel : TimerQueue T → TimerToken → Outcome (TimerQueue T × Option (Timer T))
  cancel q token =
      if token.owner == q.owner
      then elim (position token q.timers) [
        | none ↦ returns (q, none)
        | some index ↦ elim (swap_remove index q.timers) [
          | none ↦ panics
          | some (timer, rest) ↦ subtract_retained q.retained timer.retained >>= λ retained.
              returns (record q { timers = rest; retained = retained }, some timer)
        ]
      ]
      else returns (q, none)

  -- Whether the earliest deadline is due.
  pub is_due : TimerQueue T → Moment → Bool
  unfolding next_deadline
  is_due q now = elim (next_deadline q) [
    | none ↦ false
    | some deadline ↦ Deadline.is_elapsed_at deadline now
  ]

  pub pop_due : TimerQueue T → Moment → Outcome (TimerQueue T × Option (Timer T))
  unfolding is_due
  pop_due q now =
      if is_due q now
      then elim (heap_pop q.timers) [
        | none ↦ returns (q, none)
        | some (timer, rest) ↦ subtract_retained q.retained timer.retained >>= λ retained.
            returns (record q { timers = rest; retained = retained }, some timer)
      ]
      else returns (q, none)

  -- The loop of `drain_due_into`, on the budget that is left.
  drain_loop :
      ℕ → TimerQueue T → Moment → List (Timer T) → ℕ → Outcome (TimerQueue T × List (Timer T) × ℕ)
  drain_loop zero q now destination fired = returns (q, destination, fired)
  drain_loop (suc budget) q now destination fired = pop_due q now >>= λ popped. elim popped.1 [
    | none ↦ returns (popped.0, destination, fired)
    | some timer ↦ drain_loop budget popped.0 now (destination ++ (timer ∷ [])) (fired + 1)
  ]

  pub drain_due_into :
      TimerQueue T
      → Moment
      → List (Timer T)
      → ℕ
      → Outcome (TimerQueue T × List (Timer T) × TimerDrain)
  unfolding drain_loop is_due
  drain_due_into q now destination budget = drain_loop budget q now destination 0 >>= λ out.
      returns (out.0, out.1, record { fired = out.2; more_due = is_due out.0 now })

  pub snapshot : TimerQueue T → TimerQueueSnapshot
  snapshot q = record {
    owner = q.owner;
    limits = q.limits;
    pending_timers = length q.timers;
    retained_bytes = q.retained;
    next_deadline = next_deadline q;
    next_id = q.next_id;
  }
