-- ===== src/Turn.antt =====
-- crates/calandria/src/turn.rs: what one bounded owner turn reports to its host.
pub mod Laws
mod Tests
use calandria.Prelude.{ℕ, Bool, leb, if◌then◌else◌}
use calandria.Words.{saturating_add}
use calandria.Time.Moment.{Moment}
use calandria.Time.Span.{Span}
use calandria.Time.Span
use calandria.Time.Deadline.{Deadline}
use calandria.Time.Deadline

abbrev pub WorkCount : Type 0
WorkCount = ℕ

-- `Next`
pub data Next : Type 0 where
  now : Next
  wake : Next
  wake_or : Deadline → Next
  stop : Next

-- `Next::merge`, whose or-patterns are written out.
unfoldable pub merge_next : Next → Next → Next
merge_next now other = now
merge_next wake now = now
merge_next (wake_or left) now = now
merge_next stop now = now
merge_next (wake_or left) (wake_or right) = if leb left right then wake_or left else wake_or right
merge_next (wake_or deadline) wake = wake_or deadline
merge_next (wake_or deadline) stop = wake_or deadline
merge_next wake (wake_or deadline) = wake_or deadline
merge_next stop (wake_or deadline) = wake_or deadline
merge_next wake wake = wake
merge_next wake stop = wake
merge_next stop wake = wake
merge_next stop stop = stop

unfoldable pub bounded_wait : Next → Moment → Span → Span
bounded_wait now moment ceiling = 0
bounded_wait wake moment ceiling = ceiling
bounded_wait stop moment ceiling = ceiling
bounded_wait (wake_or deadline) moment ceiling =
    Span.min (Deadline.remaining_at deadline moment) ceiling

pub record Turn : Type 0 where
  pub work : WorkCount
  pub next : Next

-- `Turn::waiting`, `runnable`, `until` and `stopped`
abbrev pub waiting : Turn
waiting = record { work = 0; next = wake }

abbrev pub runnable : WorkCount → Turn
runnable work = record { work = work; next = now }

abbrev pub until : WorkCount → Deadline → Turn
until work deadline = record { work = work; next = wake_or deadline }

abbrev pub stopped : WorkCount → Turn
stopped work = record { work = work; next = stop }

-- `Turn::merge`
unfoldable pub merge : Turn → Turn → Turn
merge a b = record { work = saturating_add a.work b.work; next = merge_next a.next b.next }
