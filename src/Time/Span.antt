-- ===== src/Time/Span.antt =====
-- `Span` of crates/calandria/src/time.rs.
use calandria.Prelude.{ℕ, ◌*◌, Option, none, some, leb, if◌then◌else◌}
use calandria.Words.{u64_max}
use calandria.Words

abbrev pub Span : Type 0
Span = ℕ

-- `u64::checked_mul` by a million.
unfoldable pub checked_from_millis : ℕ → Option Span
checked_from_millis ms = if leb (ms * 1_000_000) u64_max then some (ms * 1_000_000) else none

unfoldable pub checked_add : Span → Span → Option Span
checked_add a b = Words.checked_add a b

unfoldable pub min : Span → Span → Span
min a b = if leb a b then a else b
