-- ===== src/Simulation/Progress.antt =====
-- The steps of a simulation (crates/calandria-sim/src/simulation/step.rs) keep it sound, and those
-- that a run goes on after come to an end.
use calandria.Prelude.{
  ◌+◌, ◌<◌, ◌≡◌, refl, ap, Option, none, some, true, [], ◌∷◌, leb, Result, ok, err, All, inl, inr,
  arith, Bool-cases, Option-cases,
}
use calandria.Words
use calandria.Model.Topology.{includes}
use calandria.Action.{ActionKey, ActionRecord, ReadySet, contains}
use calandria.Simulation.{
  Simulation, ModelOps, SchedulerOps, MonitorOps, Answer, answers, fails, unwinds, kernel, limit,
  poisoned, inactive, invalid_selection, fail, action_ids_exhausted, total_actions_reached,
  actions_at_moment_reached,
}
use calandria.Simulation.Kernel.{
  is_active, enforce_action_limits, allocate_action, as_step, run_selected, after_choice,
  step_ready, step,
}
use calandria.Simulation.Listing.{contains-All, build_ready-Lists}
use calandria.Simulation.Acts.{Sound, Halts, execute_selected-Acts}
use calandria.Simulation.Advance.{Steps, pace, advance_or_finish-Steps}

module _ {ℓ} {M E O ME S SE N NE : Type ℓ} (model : ModelOps M E O ME)
    (scheduler : SchedulerOps S SE) (monitor : MonitorOps M O N NE) where
  -- The limits and the count of actions decide that there is less left.
  pace-lt :
      (s s' : Simulation M E S N)
      → s'.limits ≡ s.limits
      → s'.actions ≡ s.actions + 1
      → s'.timeline.clock ≡ s.timeline.clock
      → s.actions < s.limits.total_actions
      → pace model scheduler monitor s' < pace model scheduler monitor s
  pace-lt s s' limits actions clock room =
      let total = ap (λ l. l.total_actions) limits in
      let last = ap (λ l. l.max_virtual_time) limits in omega arith

  as_step-Halts :
      (a : Answer (ActionRecord O) ME NE SE) (s : Simulation M E S N)
      → Halts model scheduler monitor a s
      → Halts model scheduler monitor (as_step model scheduler monitor a) s
  as_step-Halts (answers done) s h = tt
  as_step-Halts (fails error) s h = h
  as_step-Halts unwinds s h = h

  run_selected-Steps :
      (s : Simulation M E S N) (selected : ActionKey)
      → Sound model scheduler monitor s
      → includes s.topology.duties selected.duty ≡ true
      → s.actions < s.limits.total_actions
      → Steps model scheduler monitor s (run_selected model scheduler monitor s selected)
  unfolding run_selected allocate_action
  run_selected-Steps s selected o known room = elim (Option-cases s.next_action) [
    | inl spent ↦ (
      fail s,
      fails (kernel action_ids_exhausted),
      simp (run_selected, allocate_action, spent),
      o,
      refl,
      (λ h. cc),
      inr refl,
    )
    | inr (id, found) ↦
        let t : Simulation M E S N = record s {
          next_action = Words.checked_add id 1;
          actions = s.actions + 1;
          actions_at_moment = s.actions_at_moment + 1;
        } in
        let (s', a, e, sound, limits, actions, clock, halts) =
          execute_selected-Acts model scheduler monitor t selected id o known in
        (
          s',
          as_step model scheduler monitor a,
          simp (run_selected, allocate_action, found, e),
          sound,
          limits,
          (λ h. pace-lt s s' limits actions clock room),
          as_step-Halts a s' halts,
        )
  ]

  after_choice-Steps :
      (s : Simulation M E S N) (ready : ReadySet) (out : S × Option (Result ActionKey SE))
      → Sound model scheduler monitor s
      → All (λ a. includes s.topology.duties a.duty ≡ true) ready
      → s.actions < s.limits.total_actions
      → Steps model scheduler monitor s (after_choice model scheduler monitor s ready out)
  unfolding after_choice
  after_choice-Steps s ready (c, none) o known room = (_, _, refl, o, refl, (λ h. cc), inl refl)
  after_choice-Steps s ready (c, some (err source)) o known room =
      (_, _, refl, o, refl, (λ h. cc), inr refl)
  after_choice-Steps s ready (c, some (ok selected)) o known room =
      elim (Bool-cases (contains ready selected)) [
        | inr other ↦ (
          fail (record s { scheduler = c }),
          fails (invalid_selection selected),
          rw other refl,
          o,
          refl,
          (λ h. cc),
          inr refl,
        )
        | inl offered ↦
            let owned =
              contains-All (λ a. includes s.topology.duties a.duty ≡ true) ready selected known
                offered in
            rw offered (run_selected-Steps (record s { scheduler = c }) selected o owned room)
      ]

  step_ready-Steps :
      (s : Simulation M E S N) (ready : ReadySet)
      → Sound model scheduler monitor s
      → All (λ a. includes s.topology.duties a.duty ≡ true) ready
      → Steps model scheduler monitor s (step_ready model scheduler monitor s ready)
  unfolding step_ready enforce_action_limits
  step_ready-Steps s [] o known = advance_or_finish-Steps model scheduler monitor s o
  step_ready-Steps s (a ∷ more) o known = elim (Bool-cases (leb s.limits.total_actions s.actions)) [
    | inl spent ↦ (
      fail s,
      fails (limit (total_actions_reached s.limits.total_actions)),
      rw (step_ready, enforce_action_limits, spent) refl,
      o,
      refl,
      (λ h. cc),
      inr refl,
    )
    | inr room ↦ elim (Bool-cases (leb s.limits.actions_per_moment s.actions_at_moment)) [
      | inl busy ↦ (
        fail s,
        fails (limit (actions_at_moment_reached s.timeline.clock s.limits.actions_per_moment)),
        rw (step_ready, enforce_action_limits, room, busy) refl,
        o,
        refl,
        (λ h. cc),
        inr refl,
      )
      | inr calm ↦
          rw (step_ready, enforce_action_limits, room, calm)
            (after_choice-Steps s (a ∷ more)
              (scheduler.choose s.scheduler s.timeline.clock (a ∷ more)) o known (ground arith))
    ]
  ]

  pub step-Steps :
      (s : Simulation M E S N)
      → Sound model scheduler monitor s
      → Steps model scheduler monitor s (step model scheduler monitor s)
  unfolding step
  step-Steps s o = elim (Bool-cases s.poisoned) [
    | inl spoiled ↦ (s, fails poisoned, simp (step, spoiled), o, refl, (λ h. cc), inl spoiled)
    | inr clean ↦ elim (Bool-cases (is_active s.phase)) [
      | inr over ↦
          (s, fails (inactive s.phase), simp (step, clean, over), o, refl, (λ h. cc), inr over)
      | inl on ↦ elim (build_ready-Lists s o.timeline.valid o.owners) [
        | inl (failure, stops) ↦ (
          fail s,
          fails (kernel failure),
          simp (step, clean, on, stops),
          o,
          refl,
          (λ h. cc),
          inr refl,
        )
        | inr (ready, lists, known) ↦
            let (s', a, e, sound, limits, less, halts) = step_ready-Steps s ready o known in
            (s', a, simp (step, clean, on, lists, e), sound, limits, less, halts)
      ]
    ]
  ]
