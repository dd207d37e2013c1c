-- ===== src/Completion/Tests.antt =====
-- The theorems about completion pairs at pairs of numbers.
use calandria.Prelude.{
  ℕ, ◌+◌, ◌≤◌, ◌≡◌, ◌≢◌, ◌↔◌, ◌⊎◌, refl, Bool, true, none, some, List, [], ◌∷◌, ◌++◌, ok, err,
  returns, length, sum_by, ◌==◌,
}
use calandria.Completion
use calandria.Completion.{State, pending, ready, consumed, consumed_error, is_pending, registered}
use calandria.Completion.Handles.{Pair, completion, Call, completes, takes, polls, abandons, run}
use calandria.Completion.Once.{stored, settles, values, run-completion, try_take-complete-poll}

abbrev same_task : ℕ → ℕ → Bool
same_task a b = a == b

-- The observer polls with waker 3 and goes away, so that value 8 is handed back.
abbrev abandoned : List (Call ℕ ℕ)
abandoned = polls 3 ∷ abandons ∷ completes 8 ∷ takes ∷ []

run-completion_example :
    (p : Pair ℕ ℕ) × (run same_task abandoned completion ≡ returns p)
    × (sum_by settles (stored p.shared)
          + sum_by settles p.results
          + length p.handed_back
          + sum_by settles p.discarded
        ≤ 1)
    × (p.published
        ≡ values (stored p.shared) ++ values p.results ++ p.handed_back ++ values p.discarded)
    × ((is_pending p.shared ≡ true) ↔ (p.completer ≢ none))
run-completion_example = run-completion same_task abandoned

try_take-complete-poll_example :
    (w : ℕ) × (Completion.complete {W = ℕ} {T = ℕ} (pending true (some 3)) 8
      ≡ (ready (ok 8), ok tt, some w))
    × ((w ≡ 3) ⊎ (same_task w 3 ≡ true))
    × (Completion.try_take (Completion.complete {W = ℕ} {T = ℕ} (pending true (some 3)) 8).0
        ≡ returns (consumed, some (ok 8)))
    × (Completion.try_take {W = ℕ} {T = ℕ} consumed ≡ returns (consumed, some (err consumed_error)))
unfolding Completion.poll registered
try_take-complete-poll_example =
    try_take-complete-poll same_task (pending true (some 5)) (pending true (some 3)) (some 5) 3 8
      refl refl
