-- ===== src/Host/Laws.antt =====
-- What a host promises of its waits, its phases and its clock.
use calandria.Prelude.{
  ℕ, ◌+◌, ◌≤◌, ◌≡◌, ◌≢◌, ◌⊎◌, inl, inr, refl, ap, subst, ◌∙◌, some, none, List, [], ◌∷◌, All,
  Result, ok, err, arith, true, false, zero, suc,
}
use calandria.Words.{saturating_add}
use calandria.Time.Moment.{Moment}
use calandria.Time.Span
use calandria.Time.Deadline
use calandria.Turn.{Next, wake_or, stop as next_stop, Turn, bounded_wait}
use calandria.Host.{
  HostConfig, continue, wait, stop, HostStep, HostPhase, running, stopped, failed, observe,
  HostError, error_phase, not_running, for_turn, for_next, from_wait,
}
use calandria.Host.Embedded.{
  EmbeddedHost, observe_now, accept_moment, finish_step, after_turn, after_start, step, steps,
  previous_of, is_running,
}

-- A moment no later than a deadline that the interest carries.
abbrev pub EndsBy : Next → Moment → Type 0
EndsBy (wake_or deadline) moment = moment ≤ deadline
EndsBy _ moment = Unit

-- A host stops when the interest is to stop; else it continues when the bounded wait of the
-- interest is zero; else it waits for exactly that wait, which is positive, within the ceiling, and
-- ends no later than a deadline that the interest carries.
pub for_next-bounded_wait :
    (next : Next) (moment : Moment) (config : HostConfig)
    → ((next ≡ next_stop) × (for_next next moment config ≡ stop))
      ⊎ ((next ≢ next_stop)
          × (bounded_wait next moment config.wait_ceiling ≡ 0)
          × (for_next next moment config ≡ continue))
      ⊎ ((next ≢ next_stop)
          × (1 ≤ bounded_wait next moment config.wait_ceiling)
          × (for_next next moment config ≡ wait (bounded_wait next moment config.wait_ceiling))
          × (bounded_wait next moment config.wait_ceiling ≤ config.wait_ceiling)
          × EndsBy next (moment + bounded_wait next moment config.wait_ceiling))
unfolding for_next from_wait bounded_wait Span.min Deadline.remaining_at
for_next-bounded_wait next moment config = ground arith

-- A step that succeeds at the moments of a clock that did not regress, and the phase after it.
abbrev pub Succeeds {ℓ} : {D C : Type ℓ} → EmbeddedHost D C → EmbeddedHost D C → HostStep → Type 0
Succeeds h h' done =
    (previous_of h.snapshot.last_moment ≤ done.started_at)
    × (done.started_at ≤ done.completed_at)
    × (done.action ≡ for_turn done.turn done.completed_at h.config)
    × (h'.snapshot.last_moment ≡ some done.completed_at)
    × (h'.snapshot.turns ≡ saturating_add h.snapshot.turns 1)
    × (h'.snapshot.work ≡ saturating_add h.snapshot.work done.turn.work)
    × (((done.action ≡ stop) × (h'.snapshot.phase ≡ stopped))
        ⊎ ((done.action ≢ stop) × (h'.snapshot.phase ≡ running)))

module _ {ℓ} {D C DE CE : Type ℓ} where
  -- A failure that stops a host with `turns` successful turns.
  abbrev pub Fails : ℕ → EmbeddedHost D C → HostError DE CE → Type 0
  Fails turns h' error =
      (h'.snapshot.phase ≡ failed) × (h'.snapshot.turns ≡ turns) × (error_phase error ≡ none)

  -- What an observation of the clock comes to.
  abbrev Observes : EmbeddedHost D C → EmbeddedHost D C → Result Moment (HostError DE CE) → Type 0
  Observes h h' (ok moment) =
      (previous_of h.snapshot.last_moment ≤ moment)
      × (h'.snapshot ≡ observe moment h.snapshot)
      × (h'.config ≡ h.config)
  Observes h h' (err error) = Fails h.snapshot.turns h' error

  -- What a step of a running host comes to.
  abbrev pub Steps :
      EmbeddedHost D C → EmbeddedHost D C → Result HostStep (HostError DE CE) → Type 0
  Steps h h' (ok done) = Succeeds h h' done
  Steps h h' (err error) = Fails h.snapshot.turns h' error

  accept_moment-Observes :
      (h : EmbeddedHost D C) (answer : Result Moment CE)
      (out : EmbeddedHost D C × Result Moment (HostError DE CE))
      → accept_moment h answer ≡ out
      → Observes h out.0 out.1
  unfolding accept_moment
  accept_moment-Observes h answer out e = ground arith

  observe_now-Observes :
      (clock_now : C → C × Result Moment CE) (h : EmbeddedHost D C)
      (out : EmbeddedHost D C × Result Moment (HostError DE CE))
      → observe_now clock_now h ≡ out
      → Observes h out.0 out.1
  unfolding observe_now
  observe_now-Observes clock_now h out e =
      accept_moment-Observes (record h { clock = (clock_now h.clock).0 }) (clock_now h.clock).1 out
        e

  finish_step-Steps :
      (h g k : EmbeddedHost D C) (started_at : Moment) (turn : Turn)
      (result : Result Moment (HostError DE CE))
      → h.snapshot.phase ≡ running
      → previous_of h.snapshot.last_moment ≤ started_at
      → g.snapshot ≡ observe started_at h.snapshot
      → g.config ≡ h.config
      → Observes g k result
      → Steps h
          (finish_step started_at turn (k, result)).0
          (finish_step started_at turn (k, result)).1
  unfolding finish_step
  finish_step-Steps h g k started_at turn (ok m) live since seen policy (later, now_seen, same) =
      ground arith
  finish_step-Steps h g k started_at turn (err e) live since seen policy fails = ground arith

  after_turn-Steps :
      (clock_now : C → C × Result Moment CE) (h g : EmbeddedHost D C) (started_at : Moment)
      (answer : Result Turn DE)
      → h.snapshot.phase ≡ running
      → previous_of h.snapshot.last_moment ≤ started_at
      → g.snapshot ≡ observe started_at h.snapshot
      → g.config ≡ h.config
      → Steps h
          (after_turn clock_now started_at g answer).0
          (after_turn clock_now started_at g answer).1
  unfolding after_turn
  after_turn-Steps clock_now h g started_at (err source) live since seen policy = ground arith
  after_turn-Steps clock_now h g started_at (ok turn) live since seen policy =
      let out = observe_now clock_now g in
      finish_step-Steps h g out.0 started_at turn out.1 live since seen policy
        (observe_now-Observes clock_now g out refl)

  after_start-Steps :
      (turn_duty : D → Moment → D × Result Turn DE) (clock_now : C → C × Result Moment CE)
      (h g : EmbeddedHost D C) (result : Result Moment (HostError DE CE))
      → h.snapshot.phase ≡ running
      → Observes h g result
      → Steps h
          (after_start turn_duty clock_now (g, result)).0
          (after_start turn_duty clock_now (g, result)).1
  unfolding after_start
  after_start-Steps turn_duty clock_now h g (ok started_at) live (since, seen, policy) =
      let out = turn_duty g.duty started_at in
      after_turn-Steps clock_now h (record g { duty = out.0 }) started_at out.1 live since seen
        policy
  after_start-Steps turn_duty clock_now h g (err error) live fails = fails

  -- One step of a running host either succeeds, at moments that do not regress, with its counts, its
  -- action and its phase those of the turn, or fails, which leaves the phase Failed and the count of
  -- turns as it was; it is never refused.
  pub step-Steps :
      (turn_duty : D → Moment → D × Result Turn DE) (clock_now : C → C × Result Moment CE)
      (h : EmbeddedHost D C)
      → h.snapshot.phase ≡ running
      → Steps h (step turn_duty clock_now h).0 (step turn_duty clock_now h).1
  unfolding step
  step-Steps turn_duty clock_now h live =
      let out = observe_now clock_now h in
      let runs : is_running h.snapshot.phase ≡ true = ap is_running live in
      let reached =
        after_start-Steps turn_duty clock_now h out.0 out.1 live
          (observe_now-Observes clock_now h out refl) in
      rw runs reached

module _ {ℓ} {DE CE : Type ℓ} where
  -- Every step was refused because the host was in `phase`.
  abbrev pub AllRefused : HostPhase → List (Result HostStep (HostError DE CE)) → Type ℓ
  AllRefused phase results = All (λ result. result ≡ err (not_running phase)) results

  -- The results of consecutive steps of a running host whose clock was last at `floor`: moments
  -- never regress, and after a stop or a failure every step is refused.
  pub Chronicle : Moment → List (Result HostStep (HostError DE CE)) → Type ℓ
  Chronicle floor [] = Unit
  Chronicle floor (ok done ∷ results) =
      (floor ≤ done.started_at)
      × (done.started_at ≤ done.completed_at)
      × (((done.action ≢ stop) × Chronicle done.completed_at results)
          ⊎ ((done.action ≡ stop) × AllRefused stopped results))
  Chronicle floor (err error ∷ results) = (error_phase error ≡ none) × AllRefused failed results

module _ {ℓ} {D C DE CE : Type ℓ} where
  steps-AllRefused :
      (turn_duty : D → Moment → D × Result Turn DE) (clock_now : C → C × Result Moment CE) (n : ℕ)
      (h : EmbeddedHost D C)
      → is_running h.snapshot.phase ≡ false
      → (steps turn_duty clock_now n h).0 ≡ h
        × AllRefused h.snapshot.phase (steps turn_duty clock_now n h).1
  unfolding steps step
  steps-AllRefused turn_duty clock_now zero h over = (refl, tt)
  steps-AllRefused turn_duty clock_now (suc n) h over =
      let (same, refused) = steps-AllRefused turn_duty clock_now n h over in
      (rw over same, rw over (refl, refused))

  Chronicle-cons :
      (h h' : EmbeddedHost D C) (result : Result HostStep (HostError DE CE))
      (results : List (Result HostStep (HostError DE CE)))
      → Steps h h' result
      → (h'.snapshot.phase ≡ running → Chronicle (previous_of h'.snapshot.last_moment) results)
      → ((phase : HostPhase)
          → h'.snapshot.phase ≡ phase
          → is_running phase ≡ false
          → AllRefused phase results)
      → Chronicle (previous_of h.snapshot.last_moment) (result ∷ results)
  unfolding Chronicle
  Chronicle-cons h h' (ok done) results (since, later, action, seen, turns, work, ends) on over = (
    since,
    later,
    elim ends [
      | inl (stops, phase) ↦ inr (stops, over stopped phase refl)
      | inr (goes, phase) ↦
          inl (goes, subst (λ last. Chronicle (previous_of last) results) seen (on phase))
    ],
  )
  Chronicle-cons h h' (err error) results (phase, turns, fresh) on over =
      (fresh, over failed phase refl)

  -- The results of `n` consecutive steps of a running host: each successful step starts no earlier
  -- than the last moment observed before it and completes no earlier than it starts; a step that
  -- stops the host, or that fails, is followed by refusals alone, all of them with that phase; and
  -- before it no step is refused.
  pub steps-Chronicle :
      (turn_duty : D → Moment → D × Result Turn DE) (clock_now : C → C × Result Moment CE) (n : ℕ)
      (h : EmbeddedHost D C)
      → h.snapshot.phase ≡ running
      → Chronicle (previous_of h.snapshot.last_moment) (steps turn_duty clock_now n h).1
  unfolding steps Chronicle
  steps-Chronicle turn_duty clock_now zero h live = tt
  steps-Chronicle turn_duty clock_now (suc n) h live =
      let out = step turn_duty clock_now h in
      Chronicle-cons h out.0 out.1 (steps turn_duty clock_now n out.0).1
        (step-Steps turn_duty clock_now h live)
        (λ still. steps-Chronicle turn_duty clock_now n out.0 still)
        (λ phase same over.
          subst (λ p. AllRefused p (steps turn_duty clock_now n out.0).1) same
            (steps-AllRefused turn_duty clock_now n out.0 (ap is_running same ∙ over)).1)
