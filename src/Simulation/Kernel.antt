-- ===== src/Simulation/Kernel.antt =====
-- The kernel step of a simulation and its run to quiescence
-- (crates/calandria-sim/src/simulation/step.rs and run.rs).
use calandria.Prelude.{
  ◌+◌, min, Option, none, some, Bool, true, false, List, [], ◌∷◌, length, leb, ltb, ◌==◌, not,
  if◌then◌else◌, Result, ok, err, Outcome, returns, ◌>>=◌,
}
use calandria.Words
use calandria.Time.Moment.{Moment}
use calandria.Turn.{Next, now, wake, wake_or, stop}
use calandria.Timeline.{next_at}
use calandria.Timeline.Transaction.{advance_timeline, token_of}
use calandria.Model.{DutyId, ActionId}
use calandria.Action.{ActionKey, ActionRecord, ReadySet, contains}
use calandria.Simulation.{
  Simulation, SimulationPhase, DutyState, ModelOps, SchedulerOps, MonitorOps, Answer, Step,
  LimitFailure, active, completed, failed, action, time_advanced, quiescent, completed_step,
  answers, fails, unwinds, scheduler_failed, kernel, limit, poisoned, inactive, invalid_selection,
  fail, snapshot, delivery_targets_stopped, action_ids_exhausted, no_future_progress,
  total_actions_reached, actions_at_moment_reached, virtual_time_reached,
}
use calandria.Simulation.Ready.{build_ready}
use calandria.Simulation.Execute.{execute_selected}

unfoldable pub earliest : Option Moment → Option Moment → Option Moment
earliest none right = right
earliest (some left) none = some left
earliest (some left) (some right) = some (min left right)

abbrev pub deadline_of : Next → Option Moment
deadline_of now = none
deadline_of wake = none
deadline_of (wake_or deadline) = some deadline
deadline_of stop = none

unfoldable pub next_deadline : List (DutyId × DutyState) → Option Moment
next_deadline [] = none
next_deadline (p ∷ ps) = earliest (deadline_of p.1.next) (next_deadline ps)

abbrev pub is_active : SimulationPhase → Bool
is_active active = true
is_active completed = false
is_active failed = false

module _ {ℓ} {M E S N : Type ℓ} where
  unfoldable pub enforce_action_limits : Simulation M E S N → Option LimitFailure
  enforce_action_limits s =
      if leb s.limits.total_actions s.actions
      then some (total_actions_reached s.limits.total_actions)
      else if leb s.limits.actions_per_moment s.actions_at_moment
      then some (actions_at_moment_reached s.timeline.clock s.limits.actions_per_moment)
      else none

  unfoldable pub allocate_action : Simulation M E S N → Option (ActionId × Simulation M E S N)
  allocate_action s = elim s.next_action [
    | none ↦ none
    | some raw ↦ some (raw, record s { next_action = Words.checked_add raw 1 })
  ]

module _ {ℓ} {M E O ME S SE N NE : Type ℓ} (model : ModelOps M E O ME)
    (scheduler : SchedulerOps S SE) (monitor : MonitorOps M O N NE) where
  abbrev pub StepOutcome : Type ℓ
  StepOutcome = Outcome (Simulation M E S N × Answer (Step O) ME NE SE)

  -- The end of the completion, from the answer of the scheduler.
  unfoldable pub after_finished :
      Simulation M E S N → S × Option (Result (Unit {0}) SE) → StepOutcome
  after_finished s (c, none) = returns (record s { scheduler = c; poisoned = true }, unwinds)
  after_finished s (c, some (err source)) =
      returns (fail (record s { scheduler = c }), fails (scheduler_failed source))
  after_finished s (c, some (ok _)) =
      let done = record s { scheduler = c; phase = completed } in
      returns (done, answers (completed_step (snapshot done)))

  -- The first branch of `advance_or_finish`.
  unfoldable pub finish : Simulation M E S N → StepOutcome
  finish s = elim s.timeline.events [
    | e ∷ _ ↦ returns (
      fail s,
      fails (kernel (delivery_targets_stopped (token_of s.timeline.id e) e.event.target)),
    )
    | [] ↦ after_finished s (scheduler.finished s.scheduler)
  ]

  -- The other one, from the next moment on.
  unfoldable pub advance_to_next : Simulation M E S N → Option Moment → StepOutcome
  advance_to_next s none = returns (s, answers (quiescent (snapshot s)))
  advance_to_next s (some next) =
      let start = s.timeline.clock in
      if leb next start
      then returns (fail s, fails (kernel (no_future_progress start)))
      else if ltb s.limits.max_virtual_time next
      then returns (fail s, fails (limit (virtual_time_reached next s.limits.max_virtual_time)))
      else advance_timeline s.timeline next >>= λ t.
          returns
            (record s { timeline = t; actions_at_moment = 0 }, answers (time_advanced start next))

  unfoldable pub advance_or_finish : Simulation M E S N → StepOutcome
  advance_or_finish s =
      if length s.stopped == length s.topology.duties
      then finish s
      else advance_to_next s (earliest (next_at s.timeline) (next_deadline s.states))

  -- `map(Step::Action)`
  abbrev pub as_step : Answer (ActionRecord O) ME NE SE → Answer (Step O) ME NE SE
  as_step (answers done) = answers (action done)
  as_step (fails error) = fails error
  as_step unwinds = unwinds

  -- `step` from the allocation of the action's identity.
  unfoldable pub run_selected : Simulation M E S N → ActionKey → StepOutcome
  run_selected s selected = elim (allocate_action s) [
    | none ↦ returns (fail s, fails (kernel action_ids_exhausted))
    | some (id, t) ↦
        execute_selected model scheduler monitor
          (record t { actions = t.actions + 1; actions_at_moment = t.actions_at_moment + 1 })
          selected id
        >>= λ out. returns (out.0, as_step out.1)
  ]

  -- `step` from the answer of the scheduler.
  unfoldable pub after_choice :
      Simulation M E S N → ReadySet → S × Option (Result ActionKey SE) → StepOutcome
  after_choice s ready (c, none) = returns (record s { scheduler = c; poisoned = true }, unwinds)
  after_choice s ready (c, some (err source)) =
      returns (fail (record s { scheduler = c }), fails (scheduler_failed source))
  after_choice s ready (c, some (ok selected)) =
      if contains ready selected
      then run_selected (record s { scheduler = c }) selected
      else returns (fail (record s { scheduler = c }), fails (invalid_selection selected))

  -- `step` from the ready set.
  unfoldable pub step_ready : Simulation M E S N → ReadySet → StepOutcome
  step_ready s [] = advance_or_finish s
  step_ready s (a ∷ more) = elim (enforce_action_limits s) [
    | some failure ↦ returns (fail s, fails (limit failure))
    | none ↦ after_choice s (a ∷ more) (scheduler.choose s.scheduler s.timeline.clock (a ∷ more))
  ]

  unfoldable pub step : Simulation M E S N → StepOutcome
  step s =
      if s.poisoned
      then returns (s, fails poisoned)
      else if not (is_active s.phase)
      then returns (s, fails (inactive s.phase))
      else build_ready s >>= λ out. elim out [
        | err failure ↦ returns (fail s, fails (kernel failure))
        | ok ready ↦ step_ready s ready
      ]
