-- ===== src/Timeline/Schedule.antt =====
-- Scheduling in a timeline (crates/calandria-sim/src/timeline/owner.rs): what it adds, or refuses.
use calandria.Prelude.{
  ℕ, ◌+◌, ◌≤◌, ◌<◌, ◌≡◌, refl, Option, none, some, List, [], ◌∷◌, length, All, Removes,
  Removes-length, Removes-sum, Removes-All_back, ◌⊎◌, inl, inr, arith, Bool-cases, Option-cases,
  Result, ok, err, Outcome, returns, ltb, leb,
}
use calandria.Words.{u64_max}
use calandria.Timer.Invariant.{id_bound}
use calandria.Timer.Schedule.{bound_next}
use calandria.Words
use calandria.Time.Moment
use calandria.Time.Laws.{duration_since-checked_add}
use calandria.Timeline.{
  Timeline, Entry, EventToken, ScheduleError, ScheduleFailure, event_ids_exhausted, event_capacity,
  retained_byte_overflow, retained_byte_capacity, scheduled_in_past, time_overflow, insert_event,
  identify_event, schedule_validated, schedule_at, schedule_after,
}
use calandria.Timeline.Order.{insert-Removes}
use calandria.Timeline.Invariant.{IsValid, Keeps}

module _ {ℓ} {E : Type ℓ} where
  -- A refusal changes nothing and returns the event.
  abbrev pub Refuses :
      Timeline E → E → Outcome (Timeline E × Result EventToken (ScheduleError E)) → Type ℓ
  Refuses t event r =
      (failure : ScheduleFailure) × (r
        ≡ returns (t, err (record { event = event; failure = failure })))

  abbrev pub new_entry : ℕ → ℕ → E → ℕ → Entry E
  new_entry at id event retained = record { at = at; id = id; event = event; retained = retained }

  abbrev pub with_entry : Timeline E → ℕ → ℕ → List (Entry E) → Timeline E
  with_entry t id retained events = record t {
    next_id = Words.checked_add id 1;
    retained = t.retained + retained;
    events = events;
  }

  -- A new entry of the next identity, among the others, and its token.
  abbrev pub Admits :
      Timeline E → ℕ → E → ℕ → Outcome (Timeline E × Result EventToken (ScheduleError E)) → Type ℓ
  Admits t at event retained r =
      (id : ℕ) × (events : List (Entry E)) × (t.next_id ≡ some id)
      × (r
          ≡ returns
              (with_entry t id retained events, ok (record { timeline = t.id; id = id; at = at })))
      × Removes (new_entry at id event retained) events t.events
      × IsValid (with_entry t id retained events)

  abbrev pub Schedules :
      Timeline E → ℕ → E → Outcome (Timeline E × Result EventToken (ScheduleError E)) → Type ℓ
  Schedules t at event r = Refuses t event r ⊎ Admits t at event (t.measure event) r

  All-weaken :
      (xs : List (Entry E)) (m n : ℕ) → m ≤ n → All (λ e. e.id < m) xs → All (λ e. e.id < n) xs
  All-weaken [] m n h a = tt
  All-weaken (x ∷ xs) m n h a = (omega arith, All-weaken xs m n h a.1)

  identify_event-Schedules :
      (t : Timeline E) (at : ℕ) (event : E) (next : Option ℕ)
      → IsValid t
      → t.clock ≤ at
      → length t.events < t.limits.pending_events
      → t.retained + t.measure event ≤ t.limits.retained_bytes
      → t.next_id ≡ next
      → Schedules t at event
          (identify_event t at event (t.measure event) (t.retained + t.measure event) next)
  unfolding identify_event insert_event
  identify_event-Schedules t at event none v ahead room fits e = inl (event_ids_exhausted, refl)
  identify_event-Schedules t at event (some id) v ahead room fits e =
      let new = new_entry at id event (t.measure event) in
      let below : All (λ x. x.id < id) t.events = rw e at v.fresh in
      let word : id ≤ u64_max = rw e at v.word in
      let (ys, found, r, sorted) = insert-Removes new t.events below v.sorted in
      let (above, word') = bound_next id word in
      let sum = Removes-sum (λ (x : Entry E). x.retained) r in
      inr (
        id,
        ys,
        e,
        rw found refl,
        r,
        record {
          counted = omega (arith, Removes-length r);
          exact = omega (arith, v.exact, sum);
          within = fits;
          fresh =
              Removes-All_back (λ (x : Entry E). x.id < id_bound (Words.checked_add id 1)) r above
                (All-weaken t.events id _ (omega (arith, above)) below);
          word = word';
          future = Removes-All_back (λ (x : Entry E). t.clock ≤ x.at) r ahead v.future;
          sorted = sorted;
        },
      )

  schedule_validated-Schedules :
      (t : Timeline E) (at : ℕ) (event : E)
      → IsValid t
      → t.clock ≤ at
      → Schedules t at event (schedule_validated t at event)
  unfolding schedule_validated
  schedule_validated-Schedules t at event v ahead =
      elim (Bool-cases (leb t.limits.pending_events (length t.events))) [
        | inl full ↦ inl (event_capacity t.limits.pending_events, rw full refl)
        | inr room ↦ elim (Bool-cases (leb (t.retained + t.measure event) u64_max)) [
          | inr wraps ↦
              inl (retained_byte_overflow t.retained (t.measure event), rw (room, wraps) refl)
          | inl fits ↦
              elim (Bool-cases (ltb t.limits.retained_bytes (t.retained + t.measure event))) [
                | inl over ↦ inl (
                  retained_byte_capacity t.limits.retained_bytes t.retained (t.measure event),
                  rw (room, fits, over) refl,
                )
                | inr within ↦
                    rw (room, fits, within)
                      (identify_event-Schedules t at event t.next_id v ahead (ground arith)
                        (ground arith) refl)
              ]
        ]
      ]

  pub schedule_at-Schedules :
      (t : Timeline E) (at : ℕ) (event : E)
      → IsValid t
      → Schedules t at event (schedule_at t at event)
  unfolding schedule_at
  schedule_at-Schedules t at event v = elim (Bool-cases (ltb at t.clock)) [
    | inl past ↦ inl (scheduled_in_past t.clock at, rw past refl)
    | inr ahead ↦ rw ahead (schedule_validated-Schedules t at event v (ground arith))
  ]

  Schedules-Keeps :
      (t : Timeline E) (at : ℕ) (event : E)
      (r : Outcome (Timeline E × Result EventToken (ScheduleError E)))
      → IsValid t
      → Schedules t at event r
      → Keeps t r
  Schedules-Keeps t at event r v (inl (failure, e)) =
      (t, err (record { event = event; failure = failure }), e, v, refl)
  Schedules-Keeps t at event r v (inr (id, ys, next, e, removes, valid)) = (
    with_entry t id (t.measure event) ys,
    ok (record { timeline = t.id; id = id; at = at }),
    e,
    valid,
    refl,
  )

  pub schedule_at-Keeps :
      (t : Timeline E) (at : ℕ) (event : E) → IsValid t → Keeps t (schedule_at t at event)
  schedule_at-Keeps t at event v =
      Schedules-Keeps t at event (schedule_at t at event) v (schedule_at-Schedules t at event v)

  pub schedule_after-Keeps :
      (t : Timeline E) (delay : ℕ) (event : E) → IsValid t → Keeps t (schedule_after t delay event)
  unfolding schedule_after
  schedule_after-Keeps t delay event v = elim (Option-cases (Moment.checked_add t.clock delay)) [
    | inl overflow ↦ (
      t,
      err (record { event = event; failure = time_overflow t.clock delay }),
      ground (arith, overflow),
      v,
      refl,
    )
    | inr (at, sum) ↦
        let ahead = (duration_since-checked_add t.clock at delay sum).0 in
        let (t', a, e, valid, same) =
          Schedules-Keeps t at event (schedule_validated t at event) v
            (schedule_validated-Schedules t at event v ahead) in
        (t', a, ground (arith, sum, e), valid, same)
  ]
