-- ===== src/Time/Deadline.antt =====
-- `Deadline` of crates/calandria/src/time.rs.
use calandria.Prelude.{Bool, leb, none, some}
use calandria.Words.{checked_sub}
use calandria.Time.Moment.{Moment}
use calandria.Time.Span.{Span}

abbrev pub Deadline : Type 0
Deadline = Moment

unfoldable pub is_elapsed_at : Deadline → Moment → Bool
is_elapsed_at d now = leb d now

unfoldable pub remaining_at : Deadline → Moment → Span
remaining_at d now = elim (checked_sub d now) [ some value ↦ value | none ↦ 0 ]
