-- ===== src/Simulation/Acts.antt =====
-- An action of a simulation (crates/calandria-sim/src/simulation/execute.rs) keeps it sound.
use calandria.Prelude.{
  ◌≡◌, refl, subst, sym, ◌∙◌, Option, none, some, Bool, true, false, List, map, ◌==◌, if◌then◌else◌,
  Result, ok, err, Outcome, returns, ◌⊎◌, inl, inr, Bool-cases, Option-cases,
}
use calandria.Turn.{Turn}
use calandria.Timeline.{Timeline, EventToken}
use calandria.Model.{ActionId, Routed}
use calandria.Model.Topology.{includes}
use calandria.Model.Context.{ActionContext, ActionContextLimits, context}
use calandria.Model.Context.Ledger.{IsOpen, context-IsOpen}
use calandria.Model.Program.{Program, run_program-IsOpen}
use calandria.Action.{ActionKey, ActionMeta, ActionRecord, ActionKind, delivery}
use calandria.Simulation.{
  Simulation, ModelOps, SchedulerOps, MonitorOps, Answer, KernelFailure, answers, fails, unwinds,
  model_failed, kernel, action_context, fail, timeline_lost_event, delivery_target_mismatch,
}
use calandria.Simulation.Execute.{
  is_stop, insert_duty, update_owner, after_monitor, after_scheduler, finish_action, after_commit,
  after_callback, run_callback, execute_turn, deliver_routed, execute_delivery, execute_selected,
}
use calandria.Simulation.Kernel.{is_active}
use calandria.Simulation.Sound.{
  IsSound, Follows, dropped-Follows, commit_context-Follows, cancel-Follows, update_state-known,
}

kind-cases :
    (k : ActionKind) → ((token : EventToken) × (k ≡ delivery token)) ⊎ (k ≡ ActionKind.turn)
kind-cases (delivery token) = inl (token, refl)
kind-cases ActionKind.turn = inr refl

module _ {ℓ} {M E O ME S SE N NE : Type ℓ} (model : ModelOps M E O ME)
    (scheduler : SchedulerOps S SE) (monitor : MonitorOps M O N NE) where
  abbrev pub Sound : Simulation M E S N → Type ℓ
  Sound s = IsSound model.event_bytes s

  -- A failure or a panic leaves a simulation that goes no further.
  abbrev pub IsHalted : Simulation M E S N → Type 0
  IsHalted s = (s.poisoned ≡ true) ⊎ (is_active s.phase ≡ false)

  abbrev pub Halts {κ} : {A : Type κ} → Answer A ME NE SE → Simulation M E S N → Type 0
  Halts (answers done) s = Unit
  Halts (fails error) s = IsHalted s
  Halts unwinds s = IsHalted s

  -- What an action comes to: no panic of the kernel, a sound simulation, and the same moment, limits
  -- and count of actions.
  abbrev pub Acts :
      Simulation M E S N → Outcome (Simulation M E S N × Answer (ActionRecord O) ME NE SE) → Type ℓ
  Acts s r =
      (s' : Simulation M E S N) × (a : Answer (ActionRecord O) ME NE SE) × (r ≡ returns (s', a))
      × Sound s'
      × (s'.limits ≡ s.limits)
      × (s'.actions ≡ s.actions)
      × (s'.timeline.clock ≡ s.timeline.clock)
      × Halts a s'

  after_monitor-Acts :
      (s : Simulation M E S N) (done : ActionRecord O) (out : N × Option (Result (Unit {0}) NE))
      → Sound s
      → Acts s (returns (after_monitor model scheduler monitor s done out))
  unfolding after_monitor
  after_monitor-Acts s done (m, none) o = (_, _, refl, o, refl, refl, refl, inl refl)
  after_monitor-Acts s done (m, some (err source)) o = (_, _, refl, o, refl, refl, refl, inr refl)
  after_monitor-Acts s done (m, some (ok _)) o = (_, _, refl, o, refl, refl, refl, tt)

  after_scheduler-Acts :
      (s : Simulation M E S N) (done : ActionRecord O) (out : S × Option (Result (Unit {0}) SE))
      → Sound s
      → Acts s (returns (after_scheduler model scheduler monitor s done out))
  unfolding after_scheduler
  after_scheduler-Acts s done (c, none) o = (_, _, refl, o, refl, refl, refl, inl refl)
  after_scheduler-Acts s done (c, some (err source)) o = (_, _, refl, o, refl, refl, refl, inr refl)
  after_scheduler-Acts s done (c, some (ok _)) o =
      after_monitor-Acts (record s { scheduler = c }) done _ o

  after_commit-Acts :
      (s : Simulation M E S N) (meta : ActionMeta) (report : Turn) (by_delivery : Bool)
      (t : Timeline (Routed E)) (a : Result (List O) KernelFailure)
      → Sound s
      → includes s.topology.duties meta.key.duty ≡ true
      → Follows model.event_bytes s.timeline t
      → Acts s (after_commit model scheduler monitor s meta report by_delivery (t, a))
  unfolding after_commit update_owner finish_action
  after_commit-Acts s meta report by_delivery t (err failure) o known (m, same) = (
    fail (record s { timeline = t }),
    fails (kernel failure),
    refl,
    record { timeline = m; owners = o.owners },
    refl,
    refl,
    same,
    inr refl,
  )
  after_commit-Acts s meta report by_delivery t (ok observations) o known (m, same) =
      let listed : includes (map (λ p. p.0) s.states) meta.key.duty ≡ true =
        subst (λ ds. includes ds meta.key.duty ≡ true) (sym o.owners) known in
      let (states, found, owners) =
        update_state-known meta.key.duty report by_delivery s.states listed in
      let s' : Simulation M E S N = record s {
        timeline = t;
        states = states;
        stopped = if is_stop report.next then insert_duty meta.key.duty s.stopped else s.stopped;
      } in
      let (s'', a, e, sound, limits, actions, clock, halts) =
        after_scheduler-Acts s' (record { meta = meta; turn = report; observations = observations })
          (scheduler.committed s'.scheduler meta report)
          (record { timeline = m; owners = owners ∙ o.owners }) in
      (s'', a, rw found e, sound, limits, actions, clock ∙ same, halts)

  after_callback-Acts :
      (s : Simulation M E S N) (meta : ActionMeta) (by_delivery : Bool)
      (limits : ActionContextLimits) (c : ActionContext E O) (m : M) (a : Option (Result Turn ME))
      → Sound s
      → includes s.topology.duties meta.key.duty ≡ true
      → IsOpen model.observed_bytes s.timeline limits c
      → Acts s (after_callback model scheduler monitor s meta by_delivery c m a)
  unfolding after_callback
  after_callback-Acts s meta by_delivery limits c m none o known i =
      let (t, undone, (measured, same)) =
        dropped-Follows model.event_bytes model.observed_bytes s.timeline limits c o.timeline i in
      (
        record s { model = m; timeline = t; poisoned = true },
        unwinds,
        rw undone refl,
        record { timeline = measured; owners = o.owners },
        refl,
        refl,
        same,
        inl refl,
      )
  after_callback-Acts s meta by_delivery limits c m (some (err source)) o known i =
      let (t, undone, (measured, same)) =
        dropped-Follows model.event_bytes model.observed_bytes s.timeline limits c o.timeline i in
      (
        fail (record s { model = m; timeline = t }),
        fails (model_failed meta source),
        rw undone refl,
        record { timeline = measured; owners = o.owners },
        refl,
        refl,
        same,
        inr refl,
      )
  after_callback-Acts s meta by_delivery limits c m (some (ok report)) o known i =
      let (t, a, e, follows) =
        commit_context-Follows model.event_bytes model.observed_bytes s.timeline limits c
          meta.key.duty report o.timeline i in
      rw e (after_commit-Acts (record s { model = m }) meta report by_delivery t a o known follows)

  run_callback-Acts :
      (s : Simulation M E S N) (meta : ActionMeta) (by_delivery : Bool)
      (program : Program E O (M × Option (Result Turn ME)))
      → Sound s
      → includes s.topology.duties meta.key.duty ≡ true
      → Acts s (run_callback model scheduler monitor s meta by_delivery program)
  unfolding run_callback
  run_callback-Acts s meta by_delivery program o known =
      let limits = action_context s.limits in
      let (c, a, e, i) =
        run_program-IsOpen model.event_bytes model.observed_bytes s.timeline limits
          o.timeline.measured program
          (context s.timeline s.topology s.stopped meta.id s.timeline.clock limits)
          (context-IsOpen model.observed_bytes s.timeline s.topology s.stopped meta.id
            s.timeline.clock limits o.timeline.valid) in
      rw e (after_callback-Acts s meta by_delivery limits c a.0 a.1 o known i)

  execute_delivery-Acts :
      (s : Simulation M E S N) (key : ActionKey) (id : ActionId) (token : EventToken)
      → Sound s
      → includes s.topology.duties key.duty ≡ true
      → Acts s (execute_delivery model scheduler monitor s key id token)
  unfolding execute_delivery deliver_routed
  execute_delivery-Acts s key id token o known =
      let (t, a, e, (measured, same)) =
        cancel-Follows model.event_bytes s.timeline token o.timeline in
      elim (Option-cases a) [
        | inl missing ↦ (
          fail (record s { timeline = t }),
          fails (kernel (timeline_lost_event token)),
          rw (e, missing) refl,
          record { timeline = measured; owners = o.owners },
          refl,
          refl,
          same,
          inr refl,
        )
        | inr (routed, found) ↦ elim (Bool-cases (routed.target == key.duty)) [
          | inr other ↦ (
            fail (record s { timeline = t }),
            fails (kernel (delivery_target_mismatch token key.duty routed.target)),
            rw (e, found, other) refl,
            record { timeline = measured; owners = o.owners },
            refl,
            refl,
            same,
            inr refl,
          )
          | inl own ↦
              let (s', b, ran, sound, limits, actions, clock, halts) =
                run_callback-Acts (record s { timeline = t })
                  (record { id = id; key = key; at = t.clock; cause = routed.cause }) true
                  (model.deliver s.model key.duty (record { token = token; event = routed.event }))
                  (record { timeline = measured; owners = o.owners }) known in
              (s', b, rw (e, found, own) ran, sound, limits, actions, clock ∙ same, halts)
        ]
      ]

  pub execute_selected-Acts :
      (s : Simulation M E S N) (key : ActionKey) (id : ActionId)
      → Sound s
      → includes s.topology.duties key.duty ≡ true
      → Acts s (execute_selected model scheduler monitor s key id)
  unfolding execute_selected execute_turn
  execute_selected-Acts s key id o known = elim (kind-cases key.kind) [
    | inl (token, delivers) ↦
        rw (execute_selected, delivers) (execute_delivery-Acts s key id token o known)
    | inr turns ↦
        rw (execute_selected, turns)
          (run_callback-Acts s (record { id = id; key = key; at = s.timeline.clock; cause = none })
            false (model.turn s.model key.duty s.timeline.clock) o known)
  ]
