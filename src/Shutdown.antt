-- ===== src/Shutdown.antt =====
-- crates/calandria/src/shutdown/shared.rs, requester.rs, completer.rs, factory.rs and error.rs: the
-- shutdown barrier. Each function on `State` is one critical section under the mutex. A subscriber
-- is the number of its caller; a notice is what is published to it, with `err closed` for a
-- completer that is dropped unsettled. The answer of the `request` callback is a parameter.
pub mod Barrier
pub mod Steps
pub mod Once
mod Tests
use calandria.Prelude.{
  ℕ, ◌+◌, Bool, true, false, Option, some, none, List, [], ◌∷◌, ◌++◌, map, length, leb, Result, ok,
  err, Outcome, returns, panics, ◌>>=◌, if◌then◌else◌,
}
use calandria.Completion.{CompletionError}
use calandria.Completion

pub data Phase : Type 0 where
  opened requesting requested completed closed : Phase

pub record State : Type 0 where
  pub phase : Phase
  pub subscribers : List ℕ

pub data RequestSuccess : Type 0 where
  admitted : RequestSuccess
  success_completed success_closed : ℕ → RequestSuccess

pub data RequestFailure : Type 0 where
  reopened failure_completed failure_closed : RequestFailure

pub data ShutdownSubscribeError {ℓ} (E : Type ℓ) : Type ℓ where
  full barrier_closed : ShutdownSubscribeError E
  request_failed : E → ShutdownSubscribeError E

abbrev pub Notice : Type 0
Notice = ℕ × Result (Unit {0}) CompletionError

-- `Completer::complete(())` and the drop of an unsettled completer.
abbrev pub published : ℕ → Notice
published subscriber = (subscriber, ok tt)

abbrev pub dropped : ℕ → Notice
dropped subscriber = (subscriber, err Completion.closed)

-- `Shared::new`
abbrev pub new : State
new = record { phase = opened; subscribers = [] }

pub finish_request_success : State → ℕ → Outcome (State × RequestSuccess)
finish_request_success s completer = elim s.phase [
  | requesting ↦
      returns
        (record s { phase = requested; subscribers = s.subscribers ++ (completer ∷ []) }, admitted)
  | completed ↦ returns (s, success_completed completer)
  | closed ↦ returns (s, success_closed completer)
  | opened ↦ panics
  | requested ↦ panics
]

pub finish_request_failure : State → Outcome (State × RequestFailure)
finish_request_failure s = elim s.phase [
  | requesting ↦ returns (record s { phase = opened }, reopened)
  | completed ↦ returns (s, failure_completed)
  | closed ↦ returns (s, failure_closed)
  | opened ↦ panics
  | requested ↦ panics
]

pub abort_request : State → State
abort_request s = elim s.phase [
  | requesting ↦ record s { phase = opened }
  | opened ↦ s
  | requested ↦ s
  | completed ↦ s
  | closed ↦ s
]

-- `matches!(state.phase, Phase::Completed | Phase::Closed)`
pub is_terminal : Phase → Bool
is_terminal completed = true
is_terminal closed = true
is_terminal _ = false

pub settle : State → Phase → State × List ℕ
unfolding is_terminal
settle s terminal =
    if is_terminal s.phase
    then (s, [])
    else (record { phase = terminal; subscribers = [] }, s.subscribers)

-- Where a call of `subscribe` stands.
pub data Caller {ℓ} (E : Type ℓ) : Type ℓ where
  -- at the head of the loop, or woken from the wait on the condition variable
  looping : Caller E
  -- in the callback, with its `RequestAttempt` armed
  publishing : Caller E
  returned : Result (Unit {0}) (ShutdownSubscribeError E) → Caller E
  unwound : Caller E
  panicked : Caller E

-- How the callback ends.
pub data Requested {ℓ} (E : Type ℓ) : Type ℓ where
  answers : Result (Unit {0}) E → Requested E
  unwinds : Requested E

-- What an access leaves: the state, the caller, and what it published.
abbrev pub Access {ℓ} : Type ℓ → Type ℓ
Access E = State × Caller E × List Notice

module _ {ℓ} {E : Type ℓ} where
  -- One pass of the loop of `subscribe`.
  pub subscribe_pass : ℕ → State → ℕ → Access E
  subscribe_pass capacity s completer = elim s.phase [
    | opened ↦ (record s { phase = requesting }, publishing, [])
    | requesting ↦ (s, looping, [])
    | requested ↦
        if leb capacity (length s.subscribers)
        then (s, returned (err full), dropped completer ∷ [])
        else (record s { subscribers = s.subscribers ++ (completer ∷ []) }, returned (ok tt), [])
    | completed ↦ (s, returned (ok tt), published completer ∷ [])
    | closed ↦ (s, returned (err barrier_closed), dropped completer ∷ [])
  ]

  after_success : ℕ → State × RequestSuccess → Access E
  after_success subscriber (s, admitted) = (s, returned (ok tt), [])
  after_success subscriber (s, success_completed completer) =
      (s, returned (ok tt), published completer ∷ [])
  after_success subscriber (s, success_closed completer) =
      (s, returned (err barrier_closed), dropped completer ∷ [])

  after_failure : ℕ → E → State × RequestFailure → Access E
  after_failure completer error (s, reopened) =
      (s, returned (err (request_failed error)), dropped completer ∷ [])
  after_failure completer error (s, failure_completed) =
      (s, returned (ok tt), published completer ∷ [])
  after_failure completer error (s, failure_closed) =
      (s, returned (err barrier_closed), dropped completer ∷ [])

  -- A panic in `finish_request_success` or `finish_request_failure`.
  unless_panics : {A : Type 0} → State → ℕ → (A → Access E) → Outcome A → Access E
  unless_panics s completer f (returns a) = f a
  unless_panics s completer f panics = (s, panicked, dropped completer ∷ [])

  -- `finish_success`, `finish_failure`, and the drop of the armed `RequestAttempt`.
  pub publish_first_request : State → ℕ → Requested E → Access E
  unfolding finish_request_success finish_request_failure abort_request after_success after_failure
      unless_panics
  publish_first_request s completer (answers (ok _)) =
      unless_panics s completer (after_success completer) (finish_request_success s completer)
  publish_first_request s completer (answers (err error)) =
      unless_panics s completer (after_failure completer error) (finish_request_failure s)
  publish_first_request s completer unwinds = (abort_request s, unwound, dropped completer ∷ [])

  -- The next access of a caller; one that has returned makes no more.
  pub caller_step : ℕ → State → ℕ → Caller E → Requested E → Access E
  unfolding subscribe_pass publish_first_request
  caller_step capacity s completer looping request = subscribe_pass capacity s completer
  caller_step capacity s completer publishing request = publish_first_request s completer request
  caller_step capacity s completer (returned r) request = (s, returned r, [])
  caller_step capacity s completer unwound request = (s, unwound, [])
  caller_step capacity s completer panicked request = (s, panicked, [])

pub record ShutdownCompleter : Type 0 where
  pub settled : Bool

-- `ShutdownCompleter::complete`
pub complete : ShutdownCompleter → State → ShutdownCompleter × State × List Notice
unfolding settle
complete c s =
    let out = settle s completed in
    if c.settled then (c, s, []) else (record { settled = true }, out.0, map published out.1)

-- The drop of a `ShutdownCompleter`.
pub drop_completer : ShutdownCompleter → State → State × List Notice
unfolding settle
drop_completer c s =
    let out = settle s closed in if c.settled then (s, []) else (out.0, map dropped out.1)

-- `ShutdownCompleter::close`, with the drop that ends it.
pub close : ShutdownCompleter → State → State × List Notice
unfolding settle drop_completer
close c s =
    let out = settle s closed in
    let last = drop_completer (record { settled = true }) out.0 in
    (last.0, map dropped out.1 ++ last.1)
