-- ===== src/Time/Tests.antt =====
-- The theorems about time at concrete moments.
use Prim.Native.Nat.{max}
use calandria.Prelude.{◌+◌, ◌≤◌, ◌≡◌, ◌↔◌, refl, some, none, true}
use calandria.Words.{u64_max}
use calandria.Time.Moment
use calandria.Time.Deadline
use calandria.Time.Laws.{duration_since-checked_add, remaining_at-is_elapsed_at}

duration_since-checked_add_example :
    (40 ≤ 65)
    × (65 ≤ u64_max)
    × (Moment.duration_since 65 40 ≡ some 25)
    × ((Moment.duration_since 40 65 ≡ none) ↔ (1 ≤ 25))
unfolding Moment.checked_add
duration_since-checked_add_example = duration_since-checked_add 40 65 25 refl

remaining_at-is_elapsed_at_example :
    ((Deadline.is_elapsed_at 90 60 ≡ true) ↔ (Deadline.remaining_at 90 60 ≡ 0))
    × (60 + Deadline.remaining_at 90 60 ≡ max 90 60)
remaining_at-is_elapsed_at_example = remaining_at-is_elapsed_at 90 60
