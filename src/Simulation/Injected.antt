-- ===== src/Simulation/Injected.antt =====
-- A new simulation, injected events (crates/calandria-sim/src/simulation/owner.rs and injection.rs),
-- and then a run.
use calandria.Prelude.{
  ℕ, ◌+◌, ◌-◌, ◌≤◌, ◌<◌, ◌≡◌, refl, subst, ap, ◌∙◌, none, List, [], map, ◌∷◌, Removes-All_back,
  length, ltb, Result, ok, err, Outcome, returns, ◌>>=◌, inl, inr, arith, Bool-cases, Option-cases,
}
use calandria.Words
use calandria.Words.{u64_max}
use calandria.Time.Moment.{Moment}
use calandria.Retained.{RetainedBytes}
use calandria.Timeline.{Entry}
use calandria.Model.{DutyId, Routed, routed_bytes}
use calandria.Model.Topology.{Topology}
use calandria.Simulation.{
  Simulation, SimulationLimits, DutyState, initial, ModelOps, SchedulerOps, MonitorOps, with_parts,
}
use calandria.Timeline.{EventToken, schedule_at}
use calandria.Timeline.Schedule.{schedule_at-Schedules, with_entry}
use calandria.Model.Topology.{includes, contains}
use calandria.Simulation.Kernel.{is_active}
use calandria.Simulation.Inject.{
  InjectionError, InjectionFailure, inject_at, after_schedule, poisoned, inactive, unknown_target,
  target_stopped, beyond_time_limit, timeline_refused,
}
use calandria.Simulation.Sound.{IsSound}
use calandria.Timeline.History.{at_with_measure-IsValid}
use calandria.Simulation.Ends.{Ends, run-Ends}

map-owners :
    (ds : List DutyId)
    → map (λ (p : DutyId × DutyState). p.0) (map (λ duty. (duty, initial)) ds) ≡ ds
map-owners [] = refl
map-owners (d ∷ ds) = ap (λ es. d ∷ es) (map-owners ds)

err-ok {ℓ κ} : {A : Type ℓ} {F : Type κ} {f : F} {a : A} → Result.err f ≡ Result.ok a → ⊥
err-ok h = cc

ok-inj {ℓ κ} : {A : Type ℓ} {F : Type κ} {a b : A} → Path (Result A F) (ok a) (ok b) → a ≡ b
ok-inj h = cc

module _ {ℓ} {M E S N : Type ℓ} (event_bytes : E → RetainedBytes) where
  -- The injections of some events, whatever comes of each.
  abbrev pub inject_all :
      Simulation M E S N → List (DutyId × Moment × E) → Outcome (Simulation M E S N)
  inject_all s [] = returns s
  inject_all s (x ∷ more) = inject_at s x.0 x.1 x.2 >>= λ out. inject_all out.0 more

  -- A sound simulation at the same moment, of the same limits and count of actions.
  abbrev Beside : Simulation M E S N → Simulation M E S N → Type ℓ
  Beside s s' =
      IsSound event_bytes s'
      × (s'.limits ≡ s.limits)
      × (s'.actions ≡ s.actions)
      × (s'.timeline.clock ≡ s.timeline.clock)

  abbrev Injects :
      Simulation M E S N
      → Outcome (Simulation M E S N × Result EventToken (InjectionError E))
      → Type ℓ
  Injects s r =
      (s' : Simulation M E S N) × (a : Result EventToken (InjectionError E)) × (r ≡ returns (s', a))
      × Beside s s'

  refused-Injects :
      (s : Simulation M E S N) (event : E) (failure : InjectionFailure)
      (r : Outcome (Simulation M E S N × Result EventToken (InjectionError E)))
      → IsSound event_bytes s
      → r ≡ returns (s, err (record { event = event; failure = failure }))
      → Injects s r
  refused-Injects s event failure r o e =
      (s, err (record { event = event; failure = failure }), e, (o, refl, refl, refl))

  scheduled-Injects :
      (s : Simulation M E S N) (target : DutyId) (at : Moment) (event : E)
      → IsSound event_bytes s
      → Injects s (
          schedule_at s.timeline at (record { target = target; cause = none; event = event })
          >>= λ out. after_schedule s out)
  unfolding after_schedule
  scheduled-Injects s target at event o =
      let routed : Routed E = record { target = target; cause = none; event = event } in
      elim (schedule_at-Schedules s.timeline at routed o.timeline.valid) [
        | inl (failure, e) ↦ (
          s,
          err (record { event = event; failure = timeline_refused failure }),
          rw e refl,
          (o, refl, refl, refl),
        )
        | inr (id, events, named, e, r, valid) ↦
            let t = with_entry s.timeline id (s.timeline.measure routed) events in
            (
              record s { timeline = t },
              ok (record { timeline = s.timeline.id; id = id; at = at }),
              rw e refl,
              (
                record {
                  timeline = record {
                    valid = valid;
                    measured = o.timeline.measured;
                    weighed =
                        Removes-All_back
                          (λ (x : Entry (Routed E)). x.retained ≡ s.timeline.measure x.event) r refl
                          o.timeline.weighed;
                    word = o.timeline.word;
                  };
                  owners = o.owners;
                },
                refl,
                refl,
                refl,
              ),
            )
      ]

  inject_at-Injects :
      (s : Simulation M E S N) (target : DutyId) (at : Moment) (event : E)
      → IsSound event_bytes s
      → Injects s (inject_at s target at event)
  unfolding inject_at
  inject_at-Injects s target at event o = elim (Bool-cases s.poisoned) [
    | inl spoiled ↦ refused-Injects s event poisoned _ o (simp (inject_at, spoiled))
    | inr clean ↦ elim (Bool-cases (is_active s.phase)) [
      | inr over ↦ refused-Injects s event (inactive s.phase) _ o (simp (inject_at, clean, over))
      | inl on ↦ elim (Bool-cases (contains s.topology target)) [
        | inr unknown ↦
            refused-Injects s event (unknown_target target) _ o
              (simp (inject_at, clean, on, unknown))
        | inl known ↦ elim (Bool-cases (includes s.stopped target)) [
          | inl gone ↦
              refused-Injects s event (target_stopped target) _ o
                (simp (inject_at, clean, on, known, gone))
          | inr live ↦ elim (Bool-cases (ltb s.limits.max_virtual_time at)) [
            | inl late ↦
                refused-Injects s event (beyond_time_limit at s.limits.max_virtual_time) _ o
                  (simp (inject_at, clean, on, known, live, late))
            | inr timely ↦
                let (s', a, e, beside) = scheduled-Injects s target at event o in
                (s', a, simp (inject_at, clean, on, known, live, timely, e), beside)
          ]
        ]
      ]
    ]
  ]

  inject_all-Beside :
      (s : Simulation M E S N) (events : List (DutyId × Moment × E))
      → IsSound event_bytes s
      → (s' : Simulation M E S N) × (inject_all s events ≡ returns s') × Beside s s'
  inject_all-Beside s [] o = (s, refl, (o, refl, refl, refl))
  inject_all-Beside s (x ∷ more) o =
      let (m, a, e, (sound, limits, actions, clock)) = inject_at-Injects s x.0 x.1 x.2 o in
      let (s', e', (sound', limits', actions', clock')) = inject_all-Beside m more sound in
      (s', rw (e, e') refl, (sound', limits' ∙ limits, actions' ∙ actions, clock' ∙ clock))

  -- A new simulation, whose parts are sound.
  abbrev pub Builds : Moment → SimulationLimits → Simulation M E S N → Type ℓ
  Builds start limits s =
      IsSound event_bytes s × (s.limits ≡ limits) × (s.actions ≡ 0) × (s.timeline.clock ≡ start)

  pub with_parts-Builds :
      (id : ℕ) (start : Moment) (m : M) (topology : Topology) (limits : SimulationLimits) (c : S)
      (n : N) (s : Simulation M E S N)
      → limits.timeline.retained_bytes ≤ u64_max
      → with_parts event_bytes id start m topology limits c n ≡ ok s
      → Builds start limits s
  unfolding with_parts
  with_parts-Builds id start m topology limits c n s word made =
      elim (Bool-cases (ltb limits.max_duties (length topology.duties))) [
        | inl many ↦ absurd (err-ok (rw (with_parts, many) at made))
        | inr few ↦ elim (Bool-cases (ltb limits.max_virtual_time start)) [
          | inl late ↦ absurd (err-ok (rw (with_parts, few, late) at made))
          | inr timely ↦
              elim (Option-cases
                (Words.checked_add (length topology.duties) limits.timeline.pending_events)) [
                  | inl wraps ↦ absurd (err-ok (rw (with_parts, few, timely, wraps) at made))
                  | inr (capacity, fits) ↦
                      subst (Builds start limits)
                        (ok-inj (rw (with_parts, few, timely, fits) at made))
                        (
                          record {
                            timeline = record {
                              valid =
                                  at_with_measure-IsValid id start limits.timeline
                                    (routed_bytes event_bytes);
                              measured = λ r. refl;
                              weighed = tt;
                              word = word;
                            };
                            owners = map-owners topology.duties;
                          },
                          refl,
                          refl,
                          refl,
                        )
                ]
        ]
      ]

module _ {ℓ} {M E O ME S SE N NE : Type ℓ} (model : ModelOps M E O ME)
    (scheduler : SchedulerOps S SE) (monitor : MonitorOps M O N NE) where
  -- A new simulation takes any events from outside without a panic, and a run of it then ends: with
  -- more fuel than the limit on actions and the moments up to the limit on time together, it comes to
  -- an answer, whatever the model, the scheduler and the monitor answer, or panic; and no code of the
  -- simulation panics. The limit on retained bytes is a `u64`.
  pub run_to_quiescence-Ends :
      (fuel id : ℕ) (start : Moment) (m : M) (topology : Topology) (limits : SimulationLimits)
      (c : S) (n : N) (s : Simulation M E S N) (events : List (DutyId × Moment × E))
      → limits.timeline.retained_bytes ≤ u64_max
      → with_parts model.event_bytes id start m topology limits c n ≡ ok s
      → limits.total_actions + (limits.max_virtual_time - start) < fuel
      → (s' : Simulation M E S N) × (inject_all model.event_bytes s events ≡ returns s')
        × Ends model scheduler monitor fuel s'
  run_to_quiescence-Ends fuel id start m topology limits c n s events word made enough =
      let (sound, same, none_yet, at) =
        with_parts-Builds model.event_bytes id start m topology limits c n s word made in
      let (s', e, (sound', same', actions, clock)) =
        inject_all-Beside model.event_bytes s events sound in
      let total = ap (λ l. l.total_actions) (same' ∙ same) in
      let last = ap (λ l. l.max_virtual_time) (same' ∙ same) in
      (s', e, run-Ends model scheduler monitor fuel s' sound' (omega arith))
