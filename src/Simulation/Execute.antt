-- ===== src/Simulation/Execute.antt =====
-- The execution of a selected action (crates/calandria-sim/src/simulation/execute.rs).
use calandria.Prelude.{
  Option, none, some, Bool, true, false, List, [], ◌∷◌, ◌==◌, ◌&&◌, not, if◌then◌else◌, Result, ok,
  err, Outcome, returns, ◌>>=◌,
}
use calandria.Words.{or_panic, saturating_add}
use calandria.Turn.{Turn, Next, now, wake, wake_or, stop}
use calandria.Timeline.{Timeline, EventToken}
use calandria.Timeline
use calandria.Model.{DutyId, ActionId, Routed}
use calandria.Model.Topology.{includes, place}
use calandria.Model.Context.{ActionContext, context, commit, drop_context, pending_for}
use calandria.Model.Program.{Program, run_program}
use calandria.Action.{ActionKey, ActionMeta, ActionRecord, ActionKind, delivery}
use calandria.Simulation.{
  Simulation, DutyState, SimulationView, ModelOps, SchedulerOps, MonitorOps, Answer, KernelFailure,
  answers, fails, unwinds, model_failed, monitor_failed, scheduler_failed, kernel, action_context,
  fail, snapshot, stopped_with_pending, timeline_lost_event, delivery_target_mismatch,
}

abbrev pub is_stop : Next → Bool
is_stop now = false
is_stop wake = false
is_stop (wake_or deadline) = false
is_stop stop = true

-- `BTreeSet::insert`
abbrev pub insert_duty : DutyId → List DutyId → List DutyId
insert_duty duty stopped = if includes stopped duty then stopped else place duty stopped

-- The owner's part of `update_owner`.
abbrev pub next_state : Turn → Bool → DutyState → DutyState
next_state turn by_delivery state =
    if by_delivery
    then record state { next = turn.next; deliveries = saturating_add state.deliveries 1 }
    else record state { next = turn.next; turns = saturating_add state.turns 1 }

-- `BTreeMap::get_mut` and the update of what it finds.
unfoldable pub update_state :
    DutyId → Turn → Bool → List (DutyId × DutyState) → Option (List (DutyId × DutyState))
update_state duty turn by_delivery [] = none
update_state duty turn by_delivery (p ∷ ps) =
    let rest = update_state duty turn by_delivery ps in
    if p.0 == duty
    then some ((p.0, next_state turn by_delivery p.1) ∷ ps)
    else elim rest [ none ↦ none | some qs ↦ some (p ∷ qs) ]

-- `commit_context`, with the timeline that the context leaves.
unfoldable pub commit_context {ℓ} :
    {E O : Type ℓ}
    → DutyId
    → Turn
    → ActionContext E O
    → Outcome (Timeline (Routed E) × Result (List O) KernelFailure)
commit_context duty turn c =
    let pending = pending_for c duty in
    if is_stop turn.next && not (pending == 0)
    then (drop_context c >>= λ t. returns (t, err (stopped_with_pending duty pending)))
    else drop_context (commit c).0 >>= λ t. returns (t, ok (commit c).1)

module _ {ℓ} {M E O ME S SE N NE : Type ℓ} (model : ModelOps M E O ME)
    (scheduler : SchedulerOps S SE) (monitor : MonitorOps M O N NE) where
  unfoldable pub update_owner :
      Simulation M E S N → DutyId → Turn → Bool → Outcome (Simulation M E S N)
  update_owner s duty turn by_delivery =
      or_panic (update_state duty turn by_delivery s.states) >>= λ states. returns (record s {
        states = states;
        stopped = if is_stop turn.next then insert_duty duty s.stopped else s.stopped;
      })

  -- The end of `finish_action`, from the answer of the monitor.
  unfoldable pub after_monitor :
      Simulation M E S N
      → ActionRecord O
      → N × Option (Result (Unit {0}) NE)
      → Simulation M E S N × Answer (ActionRecord O) ME NE SE
  after_monitor s done (m, none) = (record s { monitor = m; poisoned = true }, unwinds)
  after_monitor s done (m, some (err source)) =
      (fail (record s { monitor = m }), fails (monitor_failed done.meta source))
  after_monitor s done (m, some (ok _)) = (record s { monitor = m }, answers done)

  -- `finish_action` from the answer of the scheduler.
  unfoldable pub after_scheduler :
      Simulation M E S N
      → ActionRecord O
      → S × Option (Result (Unit {0}) SE)
      → Simulation M E S N × Answer (ActionRecord O) ME NE SE
  after_scheduler s done (c, none) = (record s { scheduler = c; poisoned = true }, unwinds)
  after_scheduler s done (c, some (err source)) =
      (fail (record s { scheduler = c }), fails (scheduler_failed source))
  after_scheduler s done (c, some (ok _)) =
      let view : SimulationView M = record {
        model = s.model;
        topology = s.topology;
        states = s.states;
        snapshot = snapshot s;
      } in
      after_monitor (record s { scheduler = c }) done (monitor.after_action s.monitor view done)

  unfoldable pub finish_action :
      Simulation M E S N
      → ActionMeta
      → Turn
      → List O
      → Simulation M E S N × Answer (ActionRecord O) ME NE SE
  finish_action s meta turn observations =
      after_scheduler s (record { meta = meta; turn = turn; observations = observations })
        (scheduler.committed s.scheduler meta turn)

  abbrev pub ActionOutcome : Type ℓ
  ActionOutcome = Outcome (Simulation M E S N × Answer (ActionRecord O) ME NE SE)

  -- The end of an execution, from the answer of `commit_context`.
  unfoldable pub after_commit :
      Simulation M E S N
      → ActionMeta
      → Turn
      → Bool
      → Timeline (Routed E) × Result (List O) KernelFailure
      → ActionOutcome
  after_commit s meta turn by_delivery (t, err failure) =
      returns (fail (record s { timeline = t }), fails (kernel failure))
  after_commit s meta turn by_delivery (t, ok observations) =
      update_owner (record s { timeline = t }) meta.key.duty turn by_delivery >>= λ s'.
      returns (finish_action s' meta turn observations)

  -- The end of an execution, from the context and the answer of the model.
  unfoldable pub after_callback :
      Simulation M E S N
      → ActionMeta
      → Bool
      → ActionContext E O
      → M
      → Option (Result Turn ME)
      → ActionOutcome
  after_callback s meta by_delivery c m none = drop_context c >>= λ t.
      returns (record s { model = m; timeline = t; poisoned = true }, unwinds)
  after_callback s meta by_delivery c m (some (err source)) = drop_context c >>= λ t.
      returns (fail (record s { model = m; timeline = t }), fails (model_failed meta source))
  after_callback s meta by_delivery c m (some (ok turn)) =
      commit_context meta.key.duty turn c >>= λ out.
      after_commit (record s { model = m }) meta turn by_delivery out

  -- A callback of the model on a new context.
  unfoldable pub run_callback :
      Simulation M E S N
      → ActionMeta
      → Bool
      → Program E O (M × Option (Result Turn ME))
      → ActionOutcome
  run_callback s meta by_delivery program =
      run_program model.event_bytes model.observed_bytes program
        (context s.timeline s.topology s.stopped meta.id s.timeline.clock (action_context s.limits))
      >>= λ out. after_callback s meta by_delivery out.0 out.1.0 out.1.1

  unfoldable pub execute_turn : Simulation M E S N → ActionKey → ActionId → ActionOutcome
  execute_turn s key id =
      run_callback s (record { id = id; key = key; at = s.timeline.clock; cause = none }) false
        (model.turn s.model key.duty s.timeline.clock)

  unfoldable pub deliver_routed :
      Simulation M E S N → ActionKey → ActionId → EventToken → Routed E → ActionOutcome
  deliver_routed s key id token routed =
      if not (routed.target == key.duty)
      then returns (fail s, fails (kernel (delivery_target_mismatch token key.duty routed.target)))
      else run_callback s
          (record { id = id; key = key; at = s.timeline.clock; cause = routed.cause }) true
          (model.deliver s.model key.duty (record { token = token; event = routed.event }))

  unfoldable pub execute_delivery :
      Simulation M E S N → ActionKey → ActionId → EventToken → ActionOutcome
  execute_delivery s key id token = Timeline.cancel s.timeline token >>= λ out. elim out.1 [
    | none ↦
        returns (fail (record s { timeline = out.0 }), fails (kernel (timeline_lost_event token)))
    | some routed ↦ deliver_routed (record s { timeline = out.0 }) key id token routed
  ]

  unfoldable pub execute_selected : Simulation M E S N → ActionKey → ActionId → ActionOutcome
  execute_selected s key id = elim key.kind [
    | delivery token ↦ execute_delivery s key id token
    | ActionKind.turn ↦ execute_turn s key id
  ]
