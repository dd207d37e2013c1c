-- ===== src/Model.antt =====
-- crates/calandria-sim/src/model (identity.rs, routed.rs, effect): what a simulated model sees of its
-- simulation. The `Retained` implementations of the events and the observations are parameters.
pub mod Topology
pub mod Context
pub mod Program
mod Tests
use calandria.Prelude.{ℕ, Option}
use calandria.Time.Moment.{Moment}
use calandria.Time.Span.{Span}
use calandria.Retained.{RetainedBytes}
use calandria.Timeline.{EventToken, ScheduleFailure}

abbrev pub DutyId : Type 0
DutyId = ℕ

abbrev pub ActionId : Type 0
ActionId = ℕ

pub record Routed {ℓ} (E : Type ℓ) : Type ℓ where
  pub target : DutyId
  pub cause : Option ActionId
  pub event : E

-- `Retained` of a routed event.
abbrev pub routed_bytes {ℓ} : {E : Type ℓ} → (E → RetainedBytes) → Routed E → RetainedBytes
routed_bytes retained_bytes routed = retained_bytes routed.event

pub data SendFailure : Type 0 where
  effect_capacity : ℕ → SendFailure
  retained_byte_overflow : RetainedBytes → RetainedBytes → SendFailure
  retained_byte_capacity : RetainedBytes → RetainedBytes → RetainedBytes → SendFailure
  unknown_target : DutyId → SendFailure
  target_stopped : DutyId → SendFailure
  time_overflow : Moment → Span → SendFailure
  beyond_time_limit : Moment → Moment → SendFailure
  timeline_refused : ScheduleFailure → SendFailure

pub record SendError {ℓ} (E : Type ℓ) : Type ℓ where
  pub event : E
  pub failure : SendFailure

pub data CancelFailure : Type 0 where
  cancel_effect_capacity : ℕ → CancelFailure
  foreign_timeline : ℕ → ℕ → CancelFailure
  not_pending : EventToken → CancelFailure
  cancel_byte_overflow : RetainedBytes → RetainedBytes → CancelFailure
  cancel_byte_capacity : RetainedBytes → RetainedBytes → RetainedBytes → CancelFailure

pub data ObservationFailure : Type 0 where
  observation_capacity : ℕ → ObservationFailure
  observation_byte_overflow : RetainedBytes → RetainedBytes → ObservationFailure
  observation_byte_capacity : RetainedBytes → RetainedBytes → RetainedBytes → ObservationFailure

pub record ObservationError {ℓ} (O : Type ℓ) : Type ℓ where
  pub observation : O
  pub failure : ObservationFailure
