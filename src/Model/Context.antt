-- ===== src/Model/Context.antt =====
-- crates/calandria-sim/src/model/context: what one action may do, a transaction on the timeline. The
-- `BTreeMap` of the inserted events is a list in the order of their tokens.
pub mod Undo
pub mod Ledger
pub mod Send
pub mod Cancel
pub mod Observe
use calandria.Prelude.{
  ℕ, ◌+◌, Option, none, some, Bool, true, false, List, [], ◌∷◌, ◌++◌, length, leb, ltb, ◌==◌, ◌&&◌,
  ◌||◌, not, if◌then◌else◌, Result, ok, err, Outcome, returns, panics, ◌>>=◌,
}
use calandria.Words.{or_panic}
use calandria.Time.Moment.{Moment}
use calandria.Time.Moment
use calandria.Time.Span.{Span}
use calandria.Retained.{RetainedBytes, zero_bytes, checked_add, subtract_retained}
use calandria.Timeline.{Timeline, EventToken, ScheduleError, schedule_at}
use calandria.Timeline
use calandria.Timeline.Transaction.{retained_for, restore, pending}
use calandria.Model.{
  DutyId, ActionId, Routed, SendError, SendFailure, CancelFailure, ObservationError,
  ObservationFailure, effect_capacity, retained_byte_overflow, retained_byte_capacity,
  unknown_target, target_stopped, time_overflow, beyond_time_limit, timeline_refused,
  cancel_effect_capacity, foreign_timeline, not_pending, cancel_byte_overflow, cancel_byte_capacity,
  observation_capacity, observation_byte_overflow, observation_byte_capacity,
}
use calandria.Model.Topology.{Topology, includes, contains}

pub record ActionContextLimits : Type 0 where
  pub effects : ℕ
  pub effect_bytes : RetainedBytes
  pub observations : ℕ
  pub observation_bytes : RetainedBytes
  pub max_time : Moment

pub record ActionContext {ℓ κ} (E : Type ℓ) (O : Type κ) : Type (ℓ ⊔ κ) where
  pub timeline : Timeline (Routed E)
  pub topology : Topology
  pub stopped : List DutyId
  pub action : ActionId
  pub now : Moment
  pub limits : ActionContextLimits
  pub effects : ℕ
  pub effect_bytes : RetainedBytes
  pub observations : List O
  pub observation_bytes : RetainedBytes
  pub inserted : List (EventToken × RetainedBytes)
  pub removed : List (EventToken × Routed E)
  pub committed : Bool

abbrev pub token_eq : EventToken → EventToken → Bool
token_eq a b = a.timeline == b.timeline && a.id == b.id && a.at == b.at

-- The derived order of tokens.
abbrev pub token_lt : EventToken → EventToken → Bool
token_lt a b =
    ltb a.timeline b.timeline
    || (a.timeline == b.timeline && (ltb a.id b.id || (a.id == b.id && ltb a.at b.at)))

-- `BTreeMap::insert`
unfoldable pub insert_token :
    EventToken
    → RetainedBytes
    → List (EventToken × RetainedBytes)
    → List (EventToken × RetainedBytes)
insert_token token bytes [] = (token, bytes) ∷ []
insert_token token bytes (x ∷ xs) =
    let rest = insert_token token bytes xs in
    if token_lt token x.0
    then (token, bytes) ∷ x ∷ xs
    else if token_eq token x.0
    then (token, bytes) ∷ xs
    else x ∷ rest

-- `BTreeMap::remove`
unfoldable pub remove_token :
    EventToken
    → List (EventToken × RetainedBytes)
    → Option (RetainedBytes × List (EventToken × RetainedBytes))
remove_token token [] = none
remove_token token (x ∷ xs) =
    let rest = remove_token token xs in
    if token_eq token x.0
    then some (x.1, xs)
    else elim rest [ none ↦ none | some (bytes, ys) ↦ some (bytes, x ∷ ys) ]

abbrev pub SendOutcome {ℓ κ} : Type ℓ → Type κ → Type (ℓ ⊔ κ)
SendOutcome E O = Outcome (ActionContext E O × Result EventToken (SendError E))

abbrev pub CancelOutcome {ℓ κ} : Type ℓ → Type κ → Type (ℓ ⊔ κ)
CancelOutcome E O = Outcome (ActionContext E O × Result (Unit {0}) CancelFailure)

module _ {ℓ} {E : Type ℓ} where
  unfoldable pub count_for : DutyId → List (EventToken × Routed E) → ℕ
  count_for duty [] = 0
  count_for duty (p ∷ ps) =
      let rest = count_for duty ps in if p.1.target == duty then rest + 1 else rest

  -- The loops of `Drop`.
  unfoldable pub cancel_all : Timeline E → List (EventToken × RetainedBytes) → Outcome (Timeline E)
  cancel_all t [] = returns t
  cancel_all t (x ∷ xs) =
      Timeline.cancel t x.0 >>= λ out. or_panic out.1 >>= λ dropped. cancel_all out.0 xs

  unfoldable pub restore_all : Timeline E → List (EventToken × E) → Outcome (Timeline E)
  restore_all t [] = returns t
  restore_all t (x ∷ xs) = restore t x.0 x.1 >>= λ t'. restore_all t' xs

module _ {ℓ κ} {E : Type ℓ} {O : Type κ} where
  abbrev pub context :
      Timeline (Routed E)
      → Topology
      → List DutyId
      → ActionId
      → Moment
      → ActionContextLimits
      → ActionContext E O
  context timeline topology stopped action now limits = record {
    timeline = timeline;
    topology = topology;
    stopped = stopped;
    action = action;
    now = now;
    limits = limits;
    effects = 0;
    effect_bytes = zero_bytes;
    observations = [];
    observation_bytes = zero_bytes;
    inserted = [];
    removed = [];
    committed = false;
  }

  abbrev pub pending_for : ActionContext E O → DutyId → ℕ
  pending_for c duty = count_for duty (pending c.timeline)

  abbrev pub refuse_send : ActionContext E O → E → SendFailure → SendOutcome E O
  refuse_send c event failure = returns (c, err (record { event = event; failure = failure }))

  -- The end of `admit`, from the answer of the timeline. Below its limit, a `usize`, the count of
  -- effects cannot overflow.
  unfoldable pub record_send :
      ActionContext E O
      → RetainedBytes
      → RetainedBytes
      → Timeline (Routed E) × Result EventToken (ScheduleError (Routed E))
      → SendOutcome E O
  record_send c retained next_bytes (timeline, err error) = returns (
    record c { timeline = timeline },
    err (record { event = error.event.event; failure = timeline_refused error.failure }),
  )
  record_send c retained next_bytes (timeline, ok token) = returns (
    record c {
      timeline = timeline;
      effects = c.effects + 1;
      effect_bytes = next_bytes;
      inserted = insert_token token retained c.inserted;
    },
    ok token,
  )

  module _ (retained_bytes : E → RetainedBytes) where
    unfoldable pub admit : ActionContext E O → DutyId → Moment → E → SendOutcome E O
    admit c target at event = elim (checked_add c.effect_bytes (retained_bytes event)) [
      | none ↦ refuse_send c event (retained_byte_overflow c.effect_bytes (retained_bytes event))
      | some next_bytes ↦
          if ltb c.limits.effect_bytes next_bytes
          then refuse_send c event
              (retained_byte_capacity c.limits.effect_bytes c.effect_bytes (retained_bytes event))
          else schedule_at c.timeline at
              (record { target = target; cause = some c.action; event = event })
            >>= λ out. record_send c (retained_bytes event) next_bytes out
    ]

    unfoldable pub validate_target : ActionContext E O → DutyId → Moment → E → SendOutcome E O
    validate_target c target at event =
        if leb c.limits.effects c.effects
        then refuse_send c event (effect_capacity c.limits.effects)
        else if not (contains c.topology target)
        then refuse_send c event (unknown_target target)
        else if includes c.stopped target
        then refuse_send c event (target_stopped target)
        else if ltb c.limits.max_time at
        then refuse_send c event (beyond_time_limit at c.limits.max_time)
        else admit c target at event

    abbrev pub send_at : ActionContext E O → DutyId → Moment → E → SendOutcome E O
    send_at c target at event = validate_target c target at event

    unfoldable pub send_after : ActionContext E O → DutyId → Span → E → SendOutcome E O
    send_after c target delay event = elim (Moment.checked_add c.now delay) [
      | none ↦ refuse_send c event (time_overflow c.now delay)
      | some at ↦ send_at c target at event
    ]

    unfoldable pub send : ActionContext E O → DutyId → E → SendOutcome E O
    send c target event = send_at c target c.now event

  -- `cancel` of an event that the same action inserted.
  unfoldable pub cancel_inserted :
      ActionContext E O
      → EventToken
      → RetainedBytes
      → List (EventToken × RetainedBytes)
      → CancelOutcome E O
  cancel_inserted c token retained inserted = Timeline.cancel c.timeline token >>= λ out.
      or_panic out.1 >>= λ dropped. subtract_retained c.effect_bytes retained >>= λ effect_bytes.
      returns (
        record c {
          timeline = out.0;
          inserted = inserted;
          effect_bytes = effect_bytes;
          effects = c.effects + 1;
        },
        ok tt,
      )

  -- `cancel` of an event that was pending before the action.
  unfoldable pub cancel_pending : ActionContext E O → EventToken → RetainedBytes → CancelOutcome E O
  cancel_pending c token retained = elim (checked_add c.effect_bytes retained) [
    | none ↦ returns (c, err (cancel_byte_overflow c.effect_bytes retained))
    | some next_bytes ↦
        if ltb c.limits.effect_bytes next_bytes
        then returns (c, err (cancel_byte_capacity c.limits.effect_bytes c.effect_bytes retained))
        else Timeline.cancel c.timeline token >>= λ out. or_panic out.1 >>= λ event. returns (
          record c {
            timeline = out.0;
            removed = c.removed ++ ((token, event) ∷ []);
            effect_bytes = next_bytes;
            effects = c.effects + 1;
          },
          ok tt,
        )
  ]

  unfoldable pub cancel : ActionContext E O → EventToken → CancelOutcome E O
  cancel c token =
      if leb c.limits.effects c.effects
      then returns (c, err (cancel_effect_capacity c.limits.effects))
      else if not (token.timeline == c.timeline.id)
      then returns (c, err (foreign_timeline c.timeline.id token.timeline))
      else elim (retained_for c.timeline token) [
        | none ↦ returns (c, err (not_pending token))
        | some retained ↦ elim (remove_token token c.inserted) [
          | some (_, inserted) ↦ cancel_inserted c token retained inserted
          | none ↦ cancel_pending c token retained
        ]
      ]

  module _ (observed_bytes : O → RetainedBytes) where
    abbrev pub refuse_observation :
        ActionContext E O
        → O
        → ObservationFailure
        → ActionContext E O × Result (Unit {0}) (ObservationError O)
    refuse_observation c observation failure =
        (c, err (record { observation = observation; failure = failure }))

    unfoldable pub observe :
        ActionContext E O → O → ActionContext E O × Result (Unit {0}) (ObservationError O)
    observe c observation =
        if leb c.limits.observations (length c.observations)
        then refuse_observation c observation (observation_capacity c.limits.observations)
        else elim (checked_add c.observation_bytes (observed_bytes observation)) [
          | none ↦
              refuse_observation c observation
                (observation_byte_overflow c.observation_bytes (observed_bytes observation))
          | some next_bytes ↦
              if ltb c.limits.observation_bytes next_bytes
              then refuse_observation c observation (
                  observation_byte_capacity c.limits.observation_bytes c.observation_bytes
                    (observed_bytes observation))
              else (
                record c {
                  observations = c.observations ++ (observation ∷ []);
                  observation_bytes = next_bytes;
                },
                ok tt,
              )
        ]

  -- The context, which is dropped, and the observations.
  abbrev pub commit : ActionContext E O → ActionContext E O × List O
  commit c = (
    record c { committed = true; inserted = []; removed = []; observations = [] },
    c.observations,
  )

  -- `Drop`: the timeline that the context leaves behind.
  unfoldable pub drop_context : ActionContext E O → Outcome (Timeline (Routed E))
  drop_context c =
      if c.committed
      then returns c.timeline
      else cancel_all c.timeline c.inserted >>= λ t. restore_all t c.removed
