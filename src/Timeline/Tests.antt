-- ===== src/Timeline/Tests.antt =====
-- The theorems about timelines at a timeline of three events.
use calandria.Prelude.{ℕ, ◌≡◌, refl, some, List, [], ◌∷◌, returns, arith, inl}
use calandria.Timeline.{Timeline, TimelineLimits, pop_next, at_with_measure}
use calandria.Timeline.Invariant.{IsValid, PopsNext, pop_next-PopsNext}
use calandria.Timeline.History.{
  Op, schedules_at, schedules_after, cancels, pops, Ascends, run, run-at_with_measure,
}

abbrev limits : TimelineLimits
limits = record { pending_events = 4; retained_bytes = 64 }

abbrev pending : Timeline ℕ
pending = record {
  id = 1;
  clock = 10;
  limits = limits;
  measure = λ event. 2;
  next_id = some 2;
  retained = 4;
  events =
      record { at = 20; id = 1; event = 7; retained = 2 }
      ∷ record { at = 30; id = 0; event = 8; retained = 2 }
      ∷ [];
}

pending-IsValid : IsValid pending
pending-IsValid = record {
  counted = omega arith;
  exact = refl;
  within = omega arith;
  fresh = (omega arith, (omega arith, tt));
  word = omega arith;
  future = (omega arith, (omega arith, tt));
  sorted = ((inl (omega arith), tt), (tt, tt));
}

pop_next-PopsNext_example : PopsNext pending (pop_next pending)
pop_next-PopsNext_example = pop_next-PopsNext pending pending-IsValid

abbrev scenario : List (Op ℕ)
scenario =
    schedules_at 30 1
    ∷ schedules_after 5 2
    ∷ pops
    ∷ cancels (record { timeline = 1; id = 0; at = 30 })
    ∷ pops
    ∷ []

run-at_with_measure_example :
    (t : Timeline ℕ) × (ats : List ℕ) × (run (at_with_measure 1 10 limits (λ event. 2)) scenario
      ≡ returns (t, ats))
    × IsValid t
    × Ascends 10 ats t.clock
run-at_with_measure_example = run-at_with_measure 1 10 limits (λ event. 2) scenario
