-- ===== src/Time.antt =====
-- crates/calandria/src/time.rs: moments, spans and deadlines, each a `u64` of nanoseconds.
pub mod Moment
pub mod Span
pub mod Deadline
pub mod Laws
mod Tests
