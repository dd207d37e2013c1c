-- ===== src/Host.antt =====
-- crates/calandria/src/host/action.rs, snapshot.rs, config.rs and error.rs: what a host decides after
-- a turn, and the diagnostics that it keeps.
pub mod Embedded
pub mod Laws
mod Tests
use calandria.Prelude.{ℕ, Option, some, none, leb, if◌then◌else◌, ◌==◌}
use calandria.Words.{saturating_add}
use calandria.Time.Moment.{Moment}
use calandria.Time.Span.{Span}
use calandria.Time.Span
use calandria.Time.Deadline
use calandria.Turn.{Next, now, wake, wake_or, stop as next_stop, Turn, WorkCount}

pub record HostConfig : Type 0 where
  pub wait_ceiling : Span

pub data HostAction : Type 0 where
  continue : HostAction
  wait : Span → HostAction
  stop : HostAction

unfoldable pub from_wait : Span → HostAction
from_wait span = if span == 0 then continue else wait span

unfoldable pub for_next : Next → Moment → HostConfig → HostAction
for_next now moment config = continue
for_next wake moment config = from_wait config.wait_ceiling
for_next (wake_or deadline) moment config =
    from_wait (Span.min (Deadline.remaining_at deadline moment) config.wait_ceiling)
for_next next_stop moment config = stop

unfoldable pub for_turn : Turn → Moment → HostConfig → HostAction
for_turn turn moment config = for_next turn.next moment config

unfoldable pub wait_span : HostAction → Option Span
wait_span (wait span) = some span
wait_span continue = none
wait_span stop = none

pub record HostStep : Type 0 where
  pub started_at : Moment
  pub completed_at : Moment
  pub turn : Turn
  pub action : HostAction

pub data HostPhase : Type 0 where
  running stopped terminated failed : HostPhase

pub record HostSnapshot : Type 0 where
  pub phase : HostPhase
  pub turns : ℕ
  pub work : WorkCount
  pub last_moment : Option Moment
  pub last_turn : Option Turn
  pub last_action : Option HostAction

-- `HostSnapshot::new`
abbrev pub new_snapshot : HostSnapshot
new_snapshot = record {
  phase = running;
  turns = 0;
  work = 0;
  last_moment = none;
  last_turn = none;
  last_action = none;
}

-- `observe`, `record`, `stop`, `terminate` and `fail`
abbrev pub observe : Moment → HostSnapshot → HostSnapshot
observe moment s = record s { last_moment = some moment }

abbrev pub record_turn : Turn → HostAction → HostSnapshot → HostSnapshot
record_turn turn action s = record s {
  turns = saturating_add s.turns 1;
  work = saturating_add s.work turn.work;
  last_turn = some turn;
  last_action = some action;
}

abbrev pub stop_host : HostSnapshot → HostSnapshot
stop_host s = record s { phase = stopped }

abbrev pub terminate : HostSnapshot → HostSnapshot
terminate s = record s { phase = terminated }

abbrev pub fail : HostSnapshot → HostSnapshot
fail s = record s { phase = failed }

pub data HostError {ℓ} (DutyError ClockError : Type ℓ) : Type ℓ where
  not_running : HostPhase → HostError DutyError ClockError
  clock_failed : ClockError → HostError DutyError ClockError
  clock_regressed : Moment → Moment → HostError DutyError ClockError
  duty_failed : DutyError → HostError DutyError ClockError

-- `HostError::phase`
abbrev pub error_phase {ℓ} :
    {DutyError ClockError : Type ℓ} → HostError DutyError ClockError → Option HostPhase
error_phase (not_running phase) = some phase
error_phase (clock_failed _) = none
error_phase (clock_regressed _ _) = none
error_phase (duty_failed _) = none
