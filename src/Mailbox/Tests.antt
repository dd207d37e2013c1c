-- ===== src/Mailbox/Tests.antt =====
-- The theorems about mailboxes at a mailbox with both lanes in use, items as large as themselves.
use calandria.Prelude.{
  ℕ, ◌≡◌, ◌⊎◌, refl, List, [], ◌∷◌, Result, ok, err, returns, arith, true, false, inl, inr,
}
use calandria.Mailbox.{
  Mailbox, control, work, DrainReport, try_send_materialized, drain_into, close, new_counters,
  closed, increment_closed,
}
use calandria.Mailbox.Invariant.{IsValid}
use calandria.Mailbox.Send.{Sends, try_send_lem}
use calandria.Mailbox.Drain.{contents, Reports, drain_into_lem}
use calandria.Mailbox.History.{Op, sends, drains, clones, drops, run, run-woken}
use calandria.Mailbox.Closed.{try_send-run-close}

abbrev busy : Mailbox ℕ
busy = record {
  limits = record {
    control = record { messages = 2; retained_bytes = 10 };
    work = record { messages = 3; retained_bytes = 10 };
  };
  measure = λ n. n;
  control = record { queue = record { item = 4; retained = 4 } ∷ []; retained = 4 };
  work = record {
    queue = record { item = 1; retained = 1 } ∷ record { item = 2; retained = 2 } ∷ [];
    retained = 3;
  };
  receiver_alive = true;
  senders = 2;
  counters = new_counters;
  wake_requested = true;
}

busy-IsValid : IsValid busy
busy-IsValid = record {
  control_lane = omega arith;
  work_lane = omega arith;
  woken = inr refl;
  open_or_empty = inl refl;
}

abbrev granted : Result (Unit {0}) ℕ
granted = ok tt

try_send_lem_example :
    Sends busy work 5 5 5 granted (try_send_materialized busy work 5 (λ n. n) (λ n. n) granted)
try_send_lem_example = try_send_lem busy work 5 (λ n. n) (λ n. n) granted (omega arith)

drain_into_lem_example :
    (m' : Mailbox ℕ) × (report : DrainReport) × (drain_into busy (9 ∷ []) 2
      ≡ returns (m', 9 ∷ 4 ∷ 1 ∷ [], report))
    × (contents m' ≡ 2 ∷ [])
    × (report.drained ≡ 2)
    × Reports busy m' report.status
    × IsValid m'
    × (m'.limits ≡ busy.limits)
    × (m'.senders ≡ 2)
drain_into_lem_example = drain_into_lem busy (9 ∷ []) 2 busy-IsValid

abbrev traffic : List (Op ℕ ℕ)
traffic = drains 9 ∷ sends work 3 (err 0) ∷ clones ∷ sends control 1 (ok tt) ∷ drops (ok tt) ∷ []

run-woken_example :
    (m' : Mailbox ℕ) × (run busy traffic ≡ returns m')
    × IsValid m'
    × ((contents m' ≡ []) ⊎ (m'.wake_requested ≡ true))
run-woken_example = run-woken busy traffic busy-IsValid (omega arith) (omega arith)

try_send-run-close_example :
    (m₁ m₂ : Mailbox ℕ) × (close busy ≡ returns (m₁, 4 ∷ 1 ∷ 2 ∷ []))
    × (contents m₁ ≡ [])
    × (m₁.receiver_alive ≡ false)
    × (m₁.wake_requested ≡ false)
    × IsValid m₁
    × (m₁.limits ≡ busy.limits)
    × (m₁.senders ≡ 2)
    × (run m₁ traffic ≡ returns m₂)
    × (contents m₂ ≡ [])
    × IsValid m₂
    × (try_send_materialized m₂ work 5 (λ n. n) (λ n. n) granted ≡ (
      record m₂ { counters = increment_closed m₂.counters },
      err (record { item = 5; lane = work; failure = closed }),
    ))
try_send-run-close_example =
    try_send-run-close busy traffic work 5 (λ n. n) (λ n. n) granted busy-IsValid (omega arith)
      (omega arith)
