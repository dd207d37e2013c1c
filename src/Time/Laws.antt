-- ===== src/Time/Laws.antt =====
-- What the operations of crates/calandria/src/time.rs promise one another.
use Prim.Native.Nat.{max}
use calandria.Prelude.{◌+◌, ◌≤◌, ◌≡◌, ◌↔◌, true, none, some, arith}
use calandria.Time.Moment.{Moment}
use calandria.Time.Moment
use calandria.Time.Span.{Span}
use calandria.Time.Deadline.{Deadline}
use calandria.Time.Deadline
use calandria.Words.{u64_max}

-- A moment advanced by a span, where that succeeds, is no earlier, is a u64, and lies exactly that
-- span after the first moment, while the first lies no span after it unless the two are equal.
pub duration_since-checked_add :
    (m m' : Moment) (s : Span)
    → Moment.checked_add m s ≡ some m'
    → (m ≤ m')
      × (m' ≤ u64_max)
      × (Moment.duration_since m' m ≡ some s)
      × ((Moment.duration_since m m' ≡ none) ↔ (1 ≤ s))
unfolding Moment.checked_add Moment.duration_since
duration_since-checked_add m m' s h =
    (ground arith, ground arith, ground arith, (λ e. ground arith, λ e. ground arith))

-- A deadline has elapsed exactly when nothing of it remains, and the moment plus what remains is
-- the later of the two.
pub remaining_at-is_elapsed_at :
    (d : Deadline) (now : Moment)
    → ((Deadline.is_elapsed_at d now ≡ true) ↔ (Deadline.remaining_at d now ≡ 0))
      × (now + Deadline.remaining_at d now ≡ max d now)
unfolding Deadline.is_elapsed_at Deadline.remaining_at
remaining_at-is_elapsed_at d now = ground arith
