-- ===== src/Turn/Tests.antt =====
-- The theorems about turns at concrete turns.
use calandria.Prelude.{◌≤◌, ◌≡◌, arith}
use calandria.Time.Span
use calandria.Time.Deadline
use calandria.Turn.{
  Turn, wake, wake_or, merge, merge_next, bounded_wait, stopped, until, runnable, waiting,
}
use calandria.Turn.Laws.{merge_laws, bounded_wait-merge_next}

abbrev polled : Turn
polled = until 3 70

merge_laws_example :
    (merge polled (runnable 2) ≡ merge (runnable 2) polled)
    × (merge (merge polled (runnable 2)) waiting ≡ merge polled (merge (runnable 2) waiting))
    × (merge polled (stopped 0) ≡ polled)
    × ((merge polled polled).next ≡ wake_or 70)
merge_laws_example = merge_laws polled (runnable 2) waiting (omega arith)

bounded_wait-merge_next_example :
    (bounded_wait (merge_next (wake_or 70) wake) 50 100
      ≡ Span.min (bounded_wait (wake_or 70) 50 100) (bounded_wait wake 50 100))
    × (bounded_wait (merge_next (wake_or 70) wake) 50 100 ≤ 100)
    × (bounded_wait (merge_next (wake_or 90) wake) 50 100 ≤ Deadline.remaining_at 90 50)
bounded_wait-merge_next_example = bounded_wait-merge_next (wake_or 70) wake 90 50 100
