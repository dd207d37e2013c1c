-- ===== src/Simulation/Inject.antt =====
-- Events from outside of a simulation (crates/calandria-sim/src/simulation/injection.rs).
use calandria.Prelude.{
  none, some, ltb, not, if◌then◌else◌, Result, ok, err, Outcome, returns, ◌>>=◌,
}
use calandria.Time.Moment.{Moment}
use calandria.Time.Moment
use calandria.Time.Span.{Span}
use calandria.Timeline.{Timeline, EventToken, ScheduleFailure, ScheduleError, schedule_at}
use calandria.Model.{DutyId, Routed}
use calandria.Model.Topology.{includes, contains}
use calandria.Simulation.{Simulation, SimulationPhase}
use calandria.Simulation.Kernel.{is_active}

pub data InjectionFailure : Type 0 where
  poisoned : InjectionFailure
  inactive : SimulationPhase → InjectionFailure
  unknown_target : DutyId → InjectionFailure
  target_stopped : DutyId → InjectionFailure
  time_overflow : Moment → Span → InjectionFailure
  beyond_time_limit : Moment → Moment → InjectionFailure
  timeline_refused : ScheduleFailure → InjectionFailure

pub record InjectionError {ℓ} (E : Type ℓ) : Type ℓ where
  pub event : E
  pub failure : InjectionFailure

module _ {ℓ} {M E S N : Type ℓ} where
  abbrev pub refuse :
      Simulation M E S N
      → E
      → InjectionFailure
      → Outcome (Simulation M E S N × Result EventToken (InjectionError E))
  refuse s event failure = returns (s, err (record { event = event; failure = failure }))

  -- The end of `inject_at`, from the answer of the timeline.
  unfoldable pub after_schedule :
      Simulation M E S N
      → Timeline (Routed E) × Result EventToken (ScheduleError (Routed E))
      → Outcome (Simulation M E S N × Result EventToken (InjectionError E))
  after_schedule s (t, ok token) = returns (record s { timeline = t }, ok token)
  after_schedule s (t, err error) =
      refuse (record s { timeline = t }) error.event.event (timeline_refused error.failure)

  unfoldable pub inject_at :
      Simulation M E S N
      → DutyId
      → Moment
      → E
      → Outcome (Simulation M E S N × Result EventToken (InjectionError E))
  inject_at s target at event =
      if s.poisoned
      then refuse s event poisoned
      else if not (is_active s.phase)
      then refuse s event (inactive s.phase)
      else if not (contains s.topology target)
      then refuse s event (unknown_target target)
      else if includes s.stopped target
      then refuse s event (target_stopped target)
      else if ltb s.limits.max_virtual_time at
      then refuse s event (beyond_time_limit at s.limits.max_virtual_time)
      else schedule_at s.timeline at (record { target = target; cause = none; event = event })
        >>= λ out. after_schedule s out

  unfoldable pub inject :
      Simulation M E S N
      → DutyId
      → E
      → Outcome (Simulation M E S N × Result EventToken (InjectionError E))
  inject s target event = inject_at s target s.timeline.clock event

  unfoldable pub inject_after :
      Simulation M E S N
      → DutyId
      → Span
      → E
      → Outcome (Simulation M E S N × Result EventToken (InjectionError E))
  inject_after s target delay event = elim (Moment.checked_add s.timeline.clock delay) [
    | none ↦ refuse s event (time_overflow s.timeline.clock delay)
    | some at ↦ inject_at s target at event
  ]
