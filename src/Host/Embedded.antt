-- ===== src/Host/Embedded.antt =====
-- crates/calandria/src/host/embedded.rs: one bounded turn of a hosted duty. The duty and the clock
-- are parameters (`Duty::turn` and `Clock::now`), each with the state that it changes.
use calandria.Prelude.{
  ℕ, Option, some, none, Bool, true, false, Result, ok, err, ltb, if◌then◌else◌, List, [], ◌∷◌, suc,
  zero,
}
use calandria.Time.Moment.{Moment}
use calandria.Turn.{Turn}
use calandria.Host.{
  HostConfig, HostAction, stop, HostStep, HostPhase, running, HostSnapshot, new_snapshot, observe,
  record_turn, stop_host, fail, terminate, HostError, not_running, clock_failed, clock_regressed,
  duty_failed, for_turn,
}

pub record EmbeddedHost {ℓ} (D C : Type ℓ) : Type ℓ where
  pub duty : D
  pub clock : C
  pub config : HostConfig
  pub snapshot : HostSnapshot

-- Whether a moment is before the last one observed.
abbrev pub regresses : Option Moment → Moment → Bool
regresses none observed = false
regresses (some previous) observed = ltb observed previous

abbrev pub previous_of : Option Moment → Moment
previous_of none = 0
previous_of (some previous) = previous

abbrev pub is_running : HostPhase → Bool
is_running running = true
is_running _ = false

abbrev pub is_stop : HostAction → Bool
is_stop stop = true
is_stop _ = false

module _ {ℓ} {D C : Type ℓ} where
  -- `EmbeddedHost::new`
  abbrev pub new_host : D → C → HostConfig → EmbeddedHost D C
  new_host duty clock config = record {
    duty = duty;
    clock = clock;
    config = config;
    snapshot = new_snapshot;
  }

  abbrev pub failing : EmbeddedHost D C → EmbeddedHost D C
  failing h = record h { snapshot = fail h.snapshot }

  -- `terminate` of the host.
  abbrev pub terminating : EmbeddedHost D C → EmbeddedHost D C
  terminating h = record h { snapshot = terminate h.snapshot }

module _ {ℓ} {D C DE CE : Type ℓ} where
  -- The end of `observe_now`, from the clock's answer.
  unfoldable pub accept_moment :
      EmbeddedHost D C → Result Moment CE → EmbeddedHost D C × Result Moment (HostError DE CE)
  accept_moment h (err source) = (failing h, err (clock_failed source))
  accept_moment h (ok observed) =
      if regresses h.snapshot.last_moment observed
      then (failing h, err (clock_regressed (previous_of h.snapshot.last_moment) observed))
      else (record h { snapshot = observe observed h.snapshot }, ok observed)

  unfoldable pub observe_now :
      (C → C × Result Moment CE)
      → EmbeddedHost D C
      → EmbeddedHost D C × Result Moment (HostError DE CE)
  observe_now clock_now h =
      let (clock, answer) = clock_now h.clock in accept_moment (record h { clock = clock }) answer

  -- The end of `step`, from the second observation.
  unfoldable pub finish_step :
      Moment
      → Turn
      → EmbeddedHost D C × Result Moment (HostError DE CE)
      → EmbeddedHost D C × Result HostStep (HostError DE CE)
  finish_step started_at turn (h, err error) = (h, err error)
  finish_step started_at turn (h, ok completed_at) =
      let action = for_turn turn completed_at h.config in
      let recorded = record_turn turn action h.snapshot in
      (
        record h { snapshot = if is_stop action then stop_host recorded else recorded },
        ok (record {
          started_at = started_at;
          completed_at = completed_at;
          turn = turn;
          action = action;
        }),
      )

  -- `step` from the duty's answer.
  unfoldable pub after_turn :
      (C → C × Result Moment CE)
      → Moment
      → EmbeddedHost D C
      → Result Turn DE
      → EmbeddedHost D C × Result HostStep (HostError DE CE)
  after_turn clock_now started_at h (err source) = (failing h, err (duty_failed source))
  after_turn clock_now started_at h (ok turn) =
      finish_step started_at turn (observe_now clock_now h)

  -- `step` from the first observation.
  unfoldable pub after_start :
      (D → Moment → D × Result Turn DE)
      → (C → C × Result Moment CE)
      → EmbeddedHost D C × Result Moment (HostError DE CE)
      → EmbeddedHost D C × Result HostStep (HostError DE CE)
  after_start turn_duty clock_now (h, err error) = (h, err error)
  after_start turn_duty clock_now (h, ok started_at) =
      let (duty, answer) = turn_duty h.duty started_at in
      after_turn clock_now started_at (record h { duty = duty }) answer

  unfoldable pub step :
      (D → Moment → D × Result Turn DE)
      → (C → C × Result Moment CE)
      → EmbeddedHost D C
      → EmbeddedHost D C × Result HostStep (HostError DE CE)
  step turn_duty clock_now h =
      if is_running h.snapshot.phase
      then after_start turn_duty clock_now (observe_now clock_now h)
      else (h, err (not_running h.snapshot.phase))

  -- What the embedding caller gets from `n` steps in a row, in order.
  unfoldable pub steps :
      (D → Moment → D × Result Turn DE)
      → (C → C × Result Moment CE)
      → ℕ
      → EmbeddedHost D C
      → EmbeddedHost D C × List (Result HostStep (HostError DE CE))
  steps turn_duty clock_now zero h = (h, [])
  steps turn_duty clock_now (suc n) h =
      let (h', result) = step turn_duty clock_now h in
      let (last, results) = steps turn_duty clock_now n h' in (last, result ∷ results)
