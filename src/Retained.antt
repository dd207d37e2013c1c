-- ===== src/Retained.antt =====
-- crates/calandria/src/retained.rs: counts of variable memory, each a `u64`. The trait `Retained`
-- is the parameter `measure` of the structures that use it.
use calandria.Prelude.{ℕ, Option, Outcome}
use calandria.Words
use calandria.Words.{or_panic}

abbrev pub RetainedBytes : Type 0
RetainedBytes = ℕ

abbrev pub zero_bytes : RetainedBytes
zero_bytes = 0

abbrev pub checked_add : RetainedBytes → RetainedBytes → Option RetainedBytes
checked_add a b = Words.checked_add a b

abbrev pub checked_sub : RetainedBytes → RetainedBytes → Option RetainedBytes
checked_sub a b = Words.checked_sub a b

-- `subtract_retained` of the batch, the timer queue and the timeline: an unaccounted removal panics.
abbrev pub subtract_retained : RetainedBytes → RetainedBytes → Outcome RetainedBytes
subtract_retained current removed = or_panic (checked_sub current removed)
