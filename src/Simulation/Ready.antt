-- ===== src/Simulation/Ready.antt =====
-- The ready actions of a simulation (crates/calandria-sim/src/simulation/step.rs, `build_ready`).
use calandria.Prelude.{
  Bool, true, false, List, [], ◌∷◌, ◌++◌, not, if◌then◌else◌, Result, ok, err, Outcome, returns,
  ◌>>=◌,
}
use calandria.Words.{or_panic}
use calandria.Time.Moment.{Moment}
use calandria.Time.Deadline.{is_elapsed_at}
use calandria.Turn.{Next, now, wake, wake_or, stop}
use calandria.Timeline.{EventToken}
use calandria.Timeline.Transaction.{event, tokens_at}
use calandria.Model.{DutyId}
use calandria.Model.Topology
use calandria.Model.Topology.{Topology, includes}
use calandria.Action.{ActionKey, ReadySet, delivery, turn, action_lt, action_eq}
use calandria.Simulation.{
  Simulation, DutyState, KernelFailure, unknown_delivery_target, delivery_targets_stopped,
}

unfoldable pub place_action : ActionKey → List ActionKey → List ActionKey
place_action a [] = a ∷ []
place_action a (b ∷ bs) =
    let rest = place_action a bs in if action_lt b a then b ∷ rest else a ∷ b ∷ bs

-- `sort_unstable`
unfoldable pub sort_actions : List ActionKey → List ActionKey
sort_actions [] = []
sort_actions (a ∷ more) = place_action a (sort_actions more)

unfoldable pub dedup_from : ActionKey → List ActionKey → List ActionKey
dedup_from a [] = a ∷ []
dedup_from a (b ∷ bs) =
    let same = dedup_from a bs in
    let rest = dedup_from b bs in if action_eq a b then same else a ∷ rest

-- `dedup`
unfoldable pub dedup : List ActionKey → List ActionKey
dedup [] = []
dedup (a ∷ more) = dedup_from a more

unfoldable pub runnable_at : Next → Moment → Bool
runnable_at now moment = true
runnable_at (wake_or deadline) moment = is_elapsed_at deadline moment
runnable_at wake moment = false
runnable_at stop moment = false

unfoldable pub turns_at : List (DutyId × DutyState) → Moment → List ActionKey
turns_at [] moment = []
turns_at (p ∷ ps) moment =
    let rest = turns_at ps moment in
    if runnable_at p.1.next moment then record { duty = p.0; kind = turn } ∷ rest else rest

module _ {ℓ} {M E S N : Type ℓ} where
  -- The loop over the events of the moment.
  unfoldable pub deliveries :
      Simulation M E S N → List EventToken → Outcome (Result (List ActionKey) KernelFailure)
  deliveries s [] = returns (ok [])
  deliveries s (token ∷ tokens) =
      let rest = deliveries s tokens in
      or_panic (event s.timeline token) >>= λ routed.
      if not (Topology.contains s.topology routed.target)
      then returns (err (unknown_delivery_target token routed.target))
      else if includes s.stopped routed.target
      then returns (err (delivery_targets_stopped token routed.target))
      else rest >>= λ out. elim out [
        | err failure ↦ returns (err failure)
        | ok keys ↦ returns (ok (record { duty = routed.target; kind = delivery token } ∷ keys))
      ]

  unfoldable pub build_ready : Simulation M E S N → Outcome (Result ReadySet KernelFailure)
  build_ready s =
      let moment = s.timeline.clock in
      deliveries s (tokens_at s.timeline moment) >>= λ out. elim out [
        | err failure ↦ returns (err failure)
        | ok keys ↦ returns (ok (dedup (sort_actions (keys ++ turns_at s.states moment))))
      ]
