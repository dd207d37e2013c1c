-- ===== src/Simulation.antt =====
-- crates/calandria-sim/src/simulation: a simulation of duties in virtual time. The model, the
-- scheduler and the monitor are parameters: what their traits ask for. `none` as the answer of a
-- callback is a panic in it, which unwinds through the simulation.
pub mod Ready
pub mod Execute
pub mod Kernel
pub mod Run
pub mod Listing
pub mod Sound
pub mod Acts
pub mod Advance
pub mod Progress
pub mod Ends
pub mod Injected
pub mod Halted
mod Tests
pub mod Inject
use calandria.Prelude.{
  ℕ, ◌+◌, Option, none, some, Bool, true, false, List, [], ◌∷◌, map, length, leb, ltb, ◌==◌,
  if◌then◌else◌, Result, ok, err, Outcome, returns, panics, ◌>>=◌,
}
use calandria.Words
use calandria.Words.{saturating_add}
use calandria.Time.Moment.{Moment}
use calandria.Time.Span.{Span}
use calandria.Turn.{Turn, Next, now}
use calandria.Retained.{RetainedBytes}
use calandria.Timeline.{
  Timeline, TimelineLimits, TimelineSnapshot, Delivery, EventToken, ScheduleFailure,
  at_with_measure,
}
use calandria.Timeline
use calandria.Model.{DutyId, ActionId, Routed, routed_bytes}
use calandria.Model.Topology.{Topology}
use calandria.Model.Context.{ActionContextLimits}
use calandria.Model.Program.{Program}
use calandria.Action.{ActionKey, ActionMeta, ActionRecord, ReadySet}

pub data SimulationPhase : Type 0 where
  active : SimulationPhase
  completed : SimulationPhase
  failed : SimulationPhase

pub record DutyState : Type 0 where
  pub next : Next
  pub turns : ℕ
  pub deliveries : ℕ

abbrev pub initial : DutyState
initial = record { next = now; turns = 0; deliveries = 0 }

pub record SimulationLimits : Type 0 where
  pub max_duties : ℕ
  pub timeline : TimelineLimits
  pub effects_per_action : ℕ
  pub effect_bytes_per_action : RetainedBytes
  pub observations_per_action : ℕ
  pub observation_bytes_per_action : RetainedBytes
  pub total_actions : ℕ
  pub actions_per_moment : ℕ
  pub max_virtual_time : Moment

abbrev pub action_context : SimulationLimits → ActionContextLimits
action_context l = record {
  effects = l.effects_per_action;
  effect_bytes = l.effect_bytes_per_action;
  observations = l.observations_per_action;
  observation_bytes = l.observation_bytes_per_action;
  max_time = l.max_virtual_time;
}

pub record SimulationSnapshot : Type 0 where
  pub phase : SimulationPhase
  pub timeline : TimelineSnapshot
  pub duties : ℕ
  pub stopped : ℕ
  pub actions : ℕ
  pub actions_at_moment : ℕ

pub data KernelFailure : Type 0 where
  unknown_delivery_target : EventToken → DutyId → KernelFailure
  delivery_targets_stopped : EventToken → DutyId → KernelFailure
  delivery_target_mismatch : EventToken → DutyId → DutyId → KernelFailure
  timeline_lost_event : EventToken → KernelFailure
  stopped_with_pending : DutyId → ℕ → KernelFailure
  action_ids_exhausted : KernelFailure
  no_future_progress : Moment → KernelFailure

pub data LimitFailure : Type 0 where
  total_actions_reached : ℕ → LimitFailure
  actions_at_moment_reached : Moment → ℕ → LimitFailure
  virtual_time_reached : Moment → Moment → LimitFailure

pub data StepError {ℓ} (ME NE SE : Type ℓ) : Type ℓ where
  model_failed : ActionMeta → ME → StepError ME NE SE
  monitor_failed : ActionMeta → NE → StepError ME NE SE
  scheduler_failed : SE → StepError ME NE SE
  invalid_selection : ActionKey → StepError ME NE SE
  kernel : KernelFailure → StepError ME NE SE
  limit : LimitFailure → StepError ME NE SE
  poisoned : StepError ME NE SE
  inactive : SimulationPhase → StepError ME NE SE

pub data Step {ℓ} (O : Type ℓ) : Type ℓ where
  action : ActionRecord O → Step O
  time_advanced : Moment → Moment → Step O
  quiescent : SimulationSnapshot → Step O
  completed_step : SimulationSnapshot → Step O

-- What a call that runs callbacks comes to, where `unwinds` is a panic in one of them.
pub data Answer {ℓ κ} (A : Type κ) (ME NE SE : Type ℓ) : Type (ℓ ⊔ κ) where
  answers : A → Answer A ME NE SE
  fails : StepError ME NE SE → Answer A ME NE SE
  unwinds : Answer A ME NE SE

pub record SimulationView {ℓ} (M : Type ℓ) : Type ℓ where
  pub model : M
  pub topology : Topology
  pub states : List (DutyId × DutyState)
  pub snapshot : SimulationSnapshot

-- The traits `Model`, `Scheduler` and `Monitor`.
pub record ModelOps {ℓ} (M E O ME : Type ℓ) : Type ℓ where
  pub event_bytes : E → RetainedBytes
  pub observed_bytes : O → RetainedBytes
  pub turn : M → DutyId → Moment → Program E O (M × Option (Result Turn ME))
  pub deliver : M → DutyId → Delivery E → Program E O (M × Option (Result Turn ME))

pub record SchedulerOps {ℓ} (S SE : Type ℓ) : Type ℓ where
  pub choose : S → Moment → ReadySet → S × Option (Result ActionKey SE)
  pub committed : S → ActionMeta → Turn → S × Option (Result (Unit {0}) SE)
  pub finished : S → S × Option (Result (Unit {0}) SE)

pub record MonitorOps {ℓ} (M O N NE : Type ℓ) : Type ℓ where
  pub after_action : N → SimulationView M → ActionRecord O → N × Option (Result (Unit {0}) NE)

-- `Simulation`. The vector of ready actions, which every step clears first, is a value of the step;
-- the map of states is a list in the order of the duties, and so is the set of stopped duties.
pub record Simulation {ℓ} (M E S N : Type ℓ) : Type ℓ where
  pub model : M
  pub topology : Topology
  pub states : List (DutyId × DutyState)
  pub stopped : List DutyId
  pub timeline : Timeline (Routed E)
  pub limits : SimulationLimits
  pub scheduler : S
  pub monitor : N
  pub phase : SimulationPhase
  pub poisoned : Bool
  pub next_action : Option ℕ
  pub actions : ℕ
  pub actions_at_moment : ℕ

pub data SimulationBuildFailure : Type 0 where
  duty_capacity : ℕ → ℕ → SimulationBuildFailure
  initial_time_beyond_limit : Moment → Moment → SimulationBuildFailure
  ready_capacity_overflow : ℕ → ℕ → SimulationBuildFailure

pub record SimulationBuildError {ℓ} (M S N : Type ℓ) : Type ℓ where
  pub failure : SimulationBuildFailure
  pub model : M
  pub topology : Topology
  pub scheduler : S
  pub monitor : N

module _ {ℓ} {M E S N : Type ℓ} where
  unfoldable pub with_parts :
      (E → RetainedBytes)
      → ℕ
      → Moment
      → M
      → Topology
      → SimulationLimits
      → S
      → N
      → Result (Simulation M E S N) (SimulationBuildError M S N)
  with_parts event_bytes id start model topology limits scheduler monitor =
      let duties = length topology.duties in
      let events = limits.timeline.pending_events in
      let refuse : SimulationBuildFailure
          → Result (Simulation M E S N) (SimulationBuildError M S N) =
        λ failure. err (record {
          failure = failure;
          model = model;
          topology = topology;
          scheduler = scheduler;
          monitor = monitor;
        }) in
      if ltb limits.max_duties duties
      then refuse (duty_capacity limits.max_duties duties)
      else if ltb limits.max_virtual_time start
      then refuse (initial_time_beyond_limit start limits.max_virtual_time)
      else elim (Words.checked_add duties events) [
        | none ↦ refuse (ready_capacity_overflow duties events)
        | some capacity ↦ ok (record {
          model = model;
          topology = topology;
          states = map (λ duty. (duty, initial)) topology.duties;
          stopped = [];
          timeline = at_with_measure id start limits.timeline (routed_bytes event_bytes);
          limits = limits;
          scheduler = scheduler;
          monitor = monitor;
          phase = active;
          poisoned = false;
          next_action = some 0;
          actions = 0;
          actions_at_moment = 0;
        })
      ]

  abbrev pub fail : Simulation M E S N → Simulation M E S N
  fail s = record s { phase = failed }

  abbrev pub snapshot : Simulation M E S N → SimulationSnapshot
  snapshot s = record {
    phase = s.phase;
    timeline = Timeline.snapshot s.timeline;
    duties = length s.topology.duties;
    stopped = length s.stopped;
    actions = s.actions;
    actions_at_moment = s.actions_at_moment;
  }
