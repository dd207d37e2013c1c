-- ===== src/Shutdown/Tests.antt =====
-- The theorem about shutdown barriers at a barrier of one subscriber with two callers.
use calandria.Prelude.{
  ℕ, ◌+◌, ◌≤◌, ◌≡◌, ◌⊎◌, refl, some, [], ◌∷◌, length, sum_by, All, ok, err, false, arith,
}
use calandria.Shutdown.{
  requested, completed, looping, publishing, returned, answers, is_terminal, full, dropped,
  caller_step, subscribe_pass, publish_first_request, finish_request_success,
}
use calandria.Shutdown.Barrier.{System, Reach, start, next, calls, shutdown_barrier}
use calandria.Shutdown.Steps.{Sound, is_publishing, occurs, addressed, succeeds}
use calandria.Shutdown.Once.{Reach-subscribers}

-- The first caller has published the request and is retained; the second was refused.
abbrev refused : System ℕ
refused = record {
  capacity = 1;
  barrier = record { phase = requested; subscribers = 0 ∷ [] };
  callers = returned (ok tt) ∷ returned (err full) ∷ [];
  completer = some (record { settled = false });
  notices = dropped 1 ∷ [];
}

refused_reached : Reach (shutdown_barrier 1 2) refused
unfolding caller_step subscribe_pass publish_first_request finish_request_success
refused_reached =
    next
      (next (next start (calls 0 looping (answers (ok tt)) refl))
        (calls 0 publishing (answers (ok tt)) refl))
      (calls 1 looping (answers (ok tt)) refl)

Reach-subscribers_example :
    All Sound refused.callers
    × (sum_by is_publishing refused.callers ≤ 1)
    × (length refused.barrier.subscribers ≤ 1)
    × (sum_by (occurs 1) refused.barrier.subscribers + sum_by (addressed 1) refused.notices ≡ 1)
    × ((requested ≡ completed) ⊎ (sum_by succeeds refused.notices ≡ 0))
    × ((is_terminal requested ≡ false) ⊎ (refused.barrier.subscribers ≡ []))
Reach-subscribers_example =
    Reach-subscribers 1 2 1 refused (returned (err full)) (omega arith) refused_reached refl
