-- ===== src/Turn/Laws.antt =====
-- The merge of crates/calandria/src/turn.rs as an algebra, and the wait that it leads to.
use calandria.Prelude.{◌≤◌, ◌≡◌, arith}
use calandria.Words.{u64_max}
use calandria.Time.Moment.{Moment}
use calandria.Time.Span.{Span}
use calandria.Time.Span
use calandria.Time.Deadline
use calandria.Time.Deadline.{Deadline}
use calandria.Turn.{Next, now, wake, wake_or, stop, merge_next, bounded_wait, Turn, merge, stopped}

pub merge_next_comm : (a b : Next) → merge_next a b ≡ merge_next b a
unfolding merge_next
merge_next_comm now b = ground arith
merge_next_comm wake b = ground arith
merge_next_comm (wake_or d) b = ground arith
merge_next_comm stop b = ground arith

pub merge_next_assoc :
    (a b c : Next) → merge_next (merge_next a b) c ≡ merge_next a (merge_next b c)
unfolding merge_next
merge_next_assoc now b c = ground arith
merge_next_assoc wake b c = ground arith
merge_next_assoc (wake_or d) b c = ground arith
merge_next_assoc stop b c = ground arith

pub merge_next_idem : (a : Next) → merge_next a a ≡ a
unfolding merge_next
merge_next_idem a = ground arith

-- Merging turns is commutative and associative, a stopped turn with no work is its identity on turns
-- whose work count is a u64, and the merged interest of a turn with itself is that interest.
pub merge_laws :
    (a b c : Turn)
    → a.work ≤ u64_max
    → (merge a b ≡ merge b a)
      × (merge (merge a b) c ≡ merge a (merge b c))
      × (merge a (stopped 0) ≡ a)
      × ((merge a a).next ≡ a.next)
unfolding merge merge_next
merge_laws a b c h = (
  ground (arith, merge_next_comm a.next b.next),
  ground (arith, merge_next_assoc a.next b.next c.next),
  ground arith,
  merge_next_idem a.next,
)

-- The wait for merged interest is the shorter of the two waits, it never exceeds the ceiling, and
-- interest in a deadline never waits past it, whatever it is merged with.
pub bounded_wait-merge_next :
    (a b : Next) (d : Deadline) (moment : Moment) (ceiling : Span)
    → (bounded_wait (merge_next a b) moment ceiling
        ≡ Span.min (bounded_wait a moment ceiling) (bounded_wait b moment ceiling))
      × (bounded_wait (merge_next a b) moment ceiling ≤ ceiling)
      × (bounded_wait (merge_next (wake_or d) b) moment ceiling ≤ Deadline.remaining_at d moment)
unfolding merge_next bounded_wait Span.min Deadline.remaining_at
bounded_wait-merge_next a b d moment ceiling = (ground arith, ground arith, ground arith)
