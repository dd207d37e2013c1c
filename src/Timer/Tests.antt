-- ===== src/Timer/Tests.antt =====
-- The theorems about timer queues at a queue of three timers, two of them at one deadline.
use calandria.Prelude.{
  ℕ, Pairs, ◌≡◌, ◌⊎◌, ◌↔◌, refl, none, some, List, [], ◌∷◌, ◌++◌, Perm, length, ok, err, returns,
  arith, false, Removes,
}
use calandria.Timer.Heap.{Timer, heap_peek}
use calandria.Time.Deadline
use calandria.Timer.{
  TimerQueue, TimerDrain, TimerScheduleFailure, schedule, cancel, pop_due, drain_due_into,
  starting_at_with_measure,
}
use calandria.Timer.Invariant.{IsValid, without, Apart}
use calandria.Timer.Schedule.{HasRoom, new_timer, scheduled, schedule_lem}
use calandria.Timer.Cancel.{Absent, cancel_lem}
use calandria.Timer.Due.{NoneDue, PopsDue, pop_due-PopsDue}
use calandria.Timer.History.{Ledger, Op, schedules, cancels, pops, opened, run, run-starting_at}
use calandria.Timer.Drain.{Drained, drain_due_into_lem}

abbrev timer : ℕ → ℕ → Timer ℕ
timer id deadline = record {
  token = record { owner = 1; id = id; deadline = deadline };
  value = id;
  retained = 1;
}

abbrev three : TimerQueue ℕ
three = record {
  owner = 1;
  limits = record { timers = 4; retained_bytes = 8 };
  measure = λ value. 1;
  timers = timer 0 30 ∷ timer 1 20 ∷ timer 2 20 ∷ [];
  next_id = some 3;
  retained = 3;
}

three-IsValid : IsValid three
three-IsValid = record {
  counted = omega arith;
  exact = refl;
  within = omega arith;
  word = omega arith;
  fresh = (omega arith, (omega arith, (omega arith, tt)));
  owned = (refl, (refl, (refl, tt)));
  distinct = (
    ((λ same. omega arith), ((λ same. omega arith), tt)),
    (((λ same. omega arith), tt), (tt, tt)),
  );
}

schedule_lem_example :
    (HasRoom three 5
      × ((id : ℕ) × (some 3 ≡ some id)
          × (schedule three 25 5 ≡ (scheduled three 25 5 id, ok (new_timer three 25 5 id).token))))
    ⊎ (((¬ HasRoom three 5) ⊎ (three.next_id ≡ none))
        × ((failure : TimerScheduleFailure) × (schedule three 25 5
              ≡ (three, err (record { deadline = 25; value = 5; failure = failure })))))
schedule_lem_example = schedule_lem three 25 5 (omega arith)

cancel_lem_example :
    ((cancel three (timer 1 20).token ≡ returns (three, none)) × Absent three (timer 1 20).token)
    ⊎ ((t : Timer ℕ) × (rest : List (Timer ℕ)) × (cancel three (timer 1 20).token
          ≡ returns (without three t rest, some t))
        × (t.token ≡ (timer 1 20).token)
        × Removes t three.timers rest
        × IsValid (without three t rest)
        × Absent (without three t rest) (timer 1 20).token)
cancel_lem_example = cancel_lem three (timer 1 20).token three-IsValid

pop_due-PopsDue_example : PopsDue three 25 (pop_due three 25)
pop_due-PopsDue_example = pop_due-PopsDue three 25 three-IsValid

drain_due_into_lem_example :
    (q' : TimerQueue ℕ) × (out : List (Timer ℕ)) × (report : TimerDrain) × (drain_due_into three 25
        [] 2
      ≡ returns (q', out, report))
    × (report.fired ≡ length out)
    × ((report.more_due ≡ false) ↔ NoneDue q' 25)
    × Drained three q' out 25 2
    × Perm three.timers (out ++ q'.timers)
drain_due_into_lem_example = drain_due_into_lem three 25 [] 2 three-IsValid

drained_in_order :
    drain_due_into three 25 [] 2
    ≡ returns (
      record three { timers = timer 0 30 ∷ []; retained = 1 },
      timer 1 20 ∷ timer 2 20 ∷ [],
      record { fired = 2; more_due = false },
    )
unfolding drain_due_into pop_due heap_peek Deadline.is_elapsed_at
drained_in_order = refl

-- One timer fires, another is cancelled, and a third stays.
abbrev day : List (Op ℕ)
day = schedules 30 1 ∷ schedules 20 2 ∷ schedules 40 3 ∷ pops 25 ∷ cancels (timer 0 30).token ∷ []

run-starting_at_example :
    (l : Ledger ℕ) × (run (opened (starting_at_with_measure 1 three.limits 0 (λ value. 1))) day
      ≡ returns l)
    × IsValid l.queue
    × Pairs Apart l.admitted
    × Perm l.admitted (l.fired ++ (l.cancelled ++ l.queue.timers))
run-starting_at_example =
    run-starting_at 1 three.limits 0 (λ value. 1) day (omega arith) (omega arith)
