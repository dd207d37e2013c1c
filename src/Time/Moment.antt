-- ===== src/Time/Moment.antt =====
-- `Moment` of crates/calandria/src/time.rs.
use calandria.Prelude.{ℕ, Option}
use calandria.Words
use calandria.Time.Span.{Span}

abbrev pub Moment : Type 0
Moment = ℕ

abbrev pub origin : Moment
origin = 0

unfoldable pub checked_add : Moment → Span → Option Moment
checked_add m span = Words.checked_add m span

unfoldable pub duration_since : Moment → Moment → Option Span
duration_since m earlier = Words.checked_sub m earlier
