-- ===== src/Timeline/History.antt =====
-- Whole histories of a timeline: no panic, bounded ownership, and deliveries in the order of time.
use calandria.Prelude.{
  ℕ, ◌≤◌, ◌≡◌, refl, Option, none, some, List, [], ◌∷◌, ◌++◌, arith, inl, inr, Outcome, returns,
  ◌>>=◌,
}
use calandria.Timeline.{
  Timeline, TimelineLimits, EventToken, Delivery, schedule_at, schedule_after, cancel, pop_next,
  at_with_measure,
}
use calandria.Timeline.Invariant.{IsValid, pop_next-PopsNext, cancel-Keeps}
use calandria.Timeline.Schedule.{schedule_at-Keeps, schedule_after-Keeps}

pub data Op {ℓ} (E : Type ℓ) : Type ℓ where
  schedules_at : ℕ → E → Op E
  schedules_after : ℕ → E → Op E
  cancels : EventToken → Op E
  pops : Op E

-- Moments that never regress, from one moment to another.
abbrev pub Ascends : ℕ → List ℕ → ℕ → Type 0
Ascends first [] last = first ≤ last
Ascends first (at ∷ ats) last = (first ≤ at) × Ascends at ats last

Ascends-append :
    (first middle last : ℕ) (xs ys : List ℕ)
    → Ascends first xs middle
    → Ascends middle ys last
    → Ascends first (xs ++ ys) last
Ascends-append first middle last [] [] a b = omega arith
Ascends-append first middle last [] (y ∷ ys) a b = (omega arith, b.1)
Ascends-append first middle last (x ∷ xs) ys a b = (a.0, Ascends-append x middle last xs ys a.1 b)

module _ {ℓ} {E : Type ℓ} where
  abbrev pub delivered : Option (Delivery E) → List ℕ
  delivered none = []
  delivered (some d) = d.token.at ∷ []

  -- An operation, with the moments of the events that it delivers.
  unfoldable pub step : Timeline E → Op E → Outcome (Timeline E × List ℕ)
  step t (schedules_at at event) = schedule_at t at event >>= λ out. returns (out.0, [])
  step t (schedules_after delay event) = schedule_after t delay event >>= λ out. returns (out.0, [])
  step t (cancels token) = cancel t token >>= λ out. returns (out.0, [])
  step t pops = pop_next t >>= λ out. returns (out.0, delivered out.1)

  unfoldable pub run : Timeline E → List (Op E) → Outcome (Timeline E × List ℕ)
  run t [] = returns (t, [])
  run t (op ∷ ops) =
      step t op >>= λ out. run out.0 ops >>= λ last. returns (last.0, out.1 ++ last.1)

  abbrev StepsTo : Timeline E → Outcome (Timeline E × List ℕ) → Type ℓ
  StepsTo t r =
      (t' : Timeline E) × (ats : List ℕ) × (r ≡ returns (t', ats))
      × IsValid t'
      × Ascends t.clock ats t'.clock

  step-StepsTo : (t : Timeline E) (op : Op E) → IsValid t → StepsTo t (step t op)
  unfolding step
  step-StepsTo t (schedules_at at event) v =
      let (t', a, e, valid, same) = schedule_at-Keeps t at event v in
      (t', [], rw e refl, valid, omega (arith, same))
  step-StepsTo t (schedules_after delay event) v =
      let (t', a, e, valid, same) = schedule_after-Keeps t delay event v in
      (t', [], rw e refl, valid, omega (arith, same))
  step-StepsTo t (cancels token) v =
      let (t', a, e, valid, same) = cancel-Keeps t token v in
      (t', [], rw e refl, valid, omega (arith, same))
  step-StepsTo t pops v = elim (pop_next-PopsNext t v) [
    | inl (e, idle) ↦ (t, [], rw e refl, v, omega arith)
    | inr (entry, rest, t', e, was, left, clock, ahead, first, valid) ↦
        (t', entry.at ∷ [], rw e refl, valid, (ahead, omega (arith, clock)))
  ]

  run-StepsTo : (t : Timeline E) (ops : List (Op E)) → IsValid t → StepsTo t (run t ops)
  unfolding run
  run-StepsTo t [] v = (t, [], refl, v, omega arith)
  run-StepsTo t (op ∷ ops) v =
      let (m, ats, e, valid, up) = step-StepsTo t op v in
      let (t', later, e', valid', up') = run-StepsTo m ops valid in
      (
        t',
        ats ++ later,
        rw (e, e') refl,
        valid',
        Ascends-append t.clock m.clock t'.clock ats later up up',
      )

  pub at_with_measure-IsValid :
      (id now : ℕ) (limits : TimelineLimits) (measure : E → ℕ)
      → IsValid (at_with_measure id now limits measure)
  at_with_measure-IsValid id now limits measure = record {
    counted = omega arith;
    exact = refl;
    within = omega arith;
    fresh = tt;
    word = omega arith;
    future = tt;
    sorted = tt;
  }

  -- On a new timeline no history of schedules, cancellations and pops panics. It leaves a valid
  -- timeline: within its limits with exact accounting, and nothing pending in the past; and the
  -- events are delivered at moments that never regress, from the first moment to the current one.
  pub run-at_with_measure :
      (id now : ℕ) (limits : TimelineLimits) (measure : E → ℕ) (ops : List (Op E))
      → (t : Timeline E) × (ats : List ℕ) × (run (at_with_measure id now limits measure) ops
          ≡ returns (t, ats))
        × IsValid t
        × Ascends now ats t.clock
  run-at_with_measure id now limits measure ops =
      run-StepsTo (at_with_measure id now limits measure) ops
        (at_with_measure-IsValid id now limits measure)
