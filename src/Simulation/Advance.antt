-- ===== src/Simulation/Advance.antt =====
-- A step without a ready action (crates/calandria-sim/src/simulation/step.rs, `advance_or_finish`)
-- keeps a simulation sound and leaves less to come.
use calandria.Prelude.{
  ℕ, ◌+◌, ◌-◌, ◌≤◌, ◌<◌, min, ◌≡◌, refl, subst, Option, none, some, Bool, true, false, List, [],
  ◌∷◌, length, leb, ltb, ◌==◌, Result, ok, err, Outcome, returns, All, Pairs, ◌⊎◌, inl, inr, arith,
  Bool-cases,
}
use calandria.Timeline.{Timeline, Entry, advance_to, next_at}
use calandria.Timeline.Transaction.{advance_timeline, token_of}
use calandria.Timeline.Order.{Before}
use calandria.Timeline.Invariant.{All-later}
use calandria.Simulation.{
  Simulation, ModelOps, SchedulerOps, MonitorOps, Answer, Step, action, time_advanced, quiescent,
  completed_step, answers, fails, unwinds, kernel, limit, fail, snapshot, delivery_targets_stopped,
  no_future_progress, virtual_time_reached,
}
use calandria.Simulation.Kernel.{
  earliest, next_deadline, after_finished, finish, advance_to_next, advance_or_finish,
}
use calandria.Simulation.Acts.{Sound, Halts}

List-cases {ℓ} :
    {A : Type ℓ} (xs : List A) → (xs ≡ []) ⊎ ((x : A) × (rest : List A) × (xs ≡ x ∷ rest))
List-cases [] = inl refl
List-cases (x ∷ xs) = inr (x, xs, refl)

All-from {ℓ} :
    {E : Type ℓ} (n at : ℕ) (xs : List (Entry E))
    → n ≤ at
    → All (λ e. at ≤ e.at) xs
    → All (λ e. n ≤ e.at) xs
All-from n at [] h a = tt
All-from n at (x ∷ xs) h a = (omega (arith, a.0), All-from n at xs h a.1)

earliest-le : (a n : ℕ) (right : Option ℕ) → earliest (some a) right ≡ some n → n ≤ a
unfolding earliest
earliest-le a n none h = let same : a ≡ n = cc in omega arith
earliest-le a n (some b) h = let same : min a b ≡ n = cc in omega arith

-- The next moment is no later than any event.
earliest-All {ℓ} :
    {E : Type ℓ} (t : Timeline E) (right : Option ℕ) (next : ℕ)
    → Pairs Before t.events
    → earliest (next_at t) right ≡ some next
    → All (λ e. next ≤ e.at) t.events
earliest-All t right next sorted h = elim (List-cases t.events) [
  | inl nothing ↦ rw nothing tt
  | inr (e, rest, pending) ↦
      let first : Pairs Before (e ∷ rest) = subst (Pairs Before) pending sorted in
      let soon = earliest-le e.at next right (rw pending at h) in
      rw pending (soon, All-from next e.at rest soon (All-later e rest first.0))
]

module _ {ℓ} {M E O ME S SE N NE : Type ℓ} (model : ModelOps M E O ME)
    (scheduler : SchedulerOps S SE) (monitor : MonitorOps M O N NE) where
  abbrev pub goes_on : Answer (Step O) ME NE SE → Bool
  goes_on (answers (action done)) = true
  goes_on (answers (time_advanced start next)) = true
  goes_on (answers (quiescent at)) = false
  goes_on (answers (completed_step at)) = false
  goes_on (fails error) = false
  goes_on unwinds = false

  -- The actions and the moments that are left.
  abbrev pub pace : Simulation M E S N → ℕ
  pace s = (s.limits.total_actions - s.actions) + (s.limits.max_virtual_time - s.timeline.clock)

  -- What a step comes to: no panic of the kernel, a sound simulation of the same limits, and less
  -- left when the run goes on.
  abbrev pub Steps :
      Simulation M E S N → Outcome (Simulation M E S N × Answer (Step O) ME NE SE) → Type ℓ
  Steps s r =
      (s' : Simulation M E S N) × (a : Answer (Step O) ME NE SE) × (r ≡ returns (s', a))
      × Sound model scheduler monitor s'
      × (s'.limits ≡ s.limits)
      × (goes_on a ≡ true → pace s' < pace s)
      × Halts model scheduler monitor a s'

  after_finished-Steps :
      (s : Simulation M E S N) (out : S × Option (Result (Unit {0}) SE))
      → Sound model scheduler monitor s
      → Steps s (after_finished model scheduler monitor s out)
  unfolding after_finished
  after_finished-Steps s (c, none) o = (_, _, refl, o, refl, (λ h. cc), inl refl)
  after_finished-Steps s (c, some (err source)) o = (_, _, refl, o, refl, (λ h. cc), inr refl)
  after_finished-Steps s (c, some (ok _)) o = (_, _, refl, o, refl, (λ h. cc), tt)

  finish-Steps :
      (s : Simulation M E S N)
      → Sound model scheduler monitor s
      → Steps s (finish model scheduler monitor s)
  unfolding finish
  finish-Steps s o = elim (List-cases s.timeline.events) [
    | inl nothing ↦ rw (finish, nothing) (after_finished-Steps s (scheduler.finished s.scheduler) o)
    | inr (e, rest, pending) ↦ (
      fail s,
      fails (kernel (delivery_targets_stopped (token_of s.timeline.id e) e.event.target)),
      simp (finish, pending),
      o,
      refl,
      (λ h. cc),
      inr refl,
    )
  ]

  advance_to_next-Steps :
      (s : Simulation M E S N) (next : Option ℕ)
      → Sound model scheduler monitor s
      → ((n : ℕ) → next ≡ some n → All (λ e. n ≤ e.at) s.timeline.events)
      → Steps s (advance_to_next model scheduler monitor s next)
  unfolding advance_to_next advance_timeline advance_to
  advance_to_next-Steps s none o soon =
      (s, answers (quiescent (snapshot s)), refl, o, refl, (λ h. cc), tt)
  advance_to_next-Steps s (some n) o soon = elim (Bool-cases (leb n s.timeline.clock)) [
    | inl stuck ↦ (
      fail s,
      fails (kernel (no_future_progress s.timeline.clock)),
      rw stuck refl,
      o,
      refl,
      (λ h. cc),
      inr refl,
    )
    | inr later ↦ elim (Bool-cases (ltb s.limits.max_virtual_time n)) [
      | inl beyond ↦ (
        fail s,
        fails (limit (virtual_time_reached n s.limits.max_virtual_time)),
        rw (later, beyond) refl,
        o,
        refl,
        (λ h. cc),
        inr refl,
      )
      | inr within ↦
          let ahead : ltb n s.timeline.clock ≡ false = ground arith in
          let v = o.timeline.valid in
          (
            record s { timeline = record s.timeline { clock = n }; actions_at_moment = 0 },
            answers (time_advanced s.timeline.clock n),
            rw (later, within, ahead) refl,
            record {
              timeline = record {
                valid = record {
                  counted = v.counted;
                  exact = v.exact;
                  within = v.within;
                  fresh = v.fresh;
                  word = v.word;
                  future = soon n refl;
                  sorted = v.sorted;
                };
                measured = o.timeline.measured;
                weighed = o.timeline.weighed;
                word = o.timeline.word;
              };
              owners = o.owners;
            },
            refl,
            (λ h. ground arith),
            tt,
          )
    ]
  ]

  pub advance_or_finish-Steps :
      (s : Simulation M E S N)
      → Sound model scheduler monitor s
      → Steps s (advance_or_finish model scheduler monitor s)
  unfolding advance_or_finish
  advance_or_finish-Steps s o = elim (Bool-cases (length s.stopped == length s.topology.duties)) [
    | inl all ↦ rw all (finish-Steps s o)
    | inr some_left ↦ rw some_left (
        advance_to_next-Steps s (earliest (next_at s.timeline) (next_deadline s.states)) o
          (λ n h. earliest-All s.timeline (next_deadline s.states) n o.timeline.valid.sorted h))
  ]
