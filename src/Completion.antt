-- ===== src/Completion.antt =====
-- crates/calandria/src/completion/shared.rs and error.rs: the state that one completion pair shares.
-- Each function is one critical section under the mutex. It answers the state it leaves, what the
-- caller gets, and the waker it wakes after unlocking. `Poll::Pending` is `none`.
pub mod Handles
pub mod Once
mod Tests
use calandria.Prelude.{
  Bool, true, false, Option, some, none, Result, ok, err, Outcome, returns, panics, ◌>>=◌,
  if◌then◌else◌,
}

-- `CompletionError`, whose variant Consumed is `consumed_error`.
pub data CompletionError : Type 0 where
  closed consumed_error : CompletionError

pub data State {ℓ} (W T : Type ℓ) : Type ℓ where
  pending : Bool → Option W → State W T
  ready : Result T CompletionError → State W T
  consumed : State W T

-- What `poll` leaves registered; `will_wake` is `Waker::will_wake`.
unfoldable pub registered {ℓ} : {W : Type ℓ} → (W → W → Bool) → Option W → W → Option W
registered will_wake none current = some current
registered will_wake (some stored) current =
    if will_wake stored current then some stored else some current

module _ {ℓ} {W T : Type ℓ} where
  -- `Shared::new`
  abbrev pub new : State W T
  new = pending true none

  unfoldable pub complete : State W T → T → State W T × Result (Unit {0}) T × Option W
  complete (pending true waker) value = (ready (ok value), ok tt, waker)
  complete (pending false _) value = (consumed, err value, none)
  complete consumed value = (consumed, err value, none)
  complete (ready result) value = (ready result, err value, none)

  unfoldable pub close_producer : State W T → State W T × Option W
  close_producer (pending true waker) = (ready (err closed), waker)
  close_producer (pending false _) = (consumed, none)
  close_producer consumed = (consumed, none)
  close_producer (ready result) = (ready result, none)

  -- `matches!(&*state, State::Pending { .. })`
  unfoldable pub is_pending : State W T → Bool
  is_pending (pending _ _) = true
  is_pending _ = false

  -- The match on `mem::replace(&mut *state, State::Consumed)` that ends `wait`, `try_take` and
  -- `poll`.
  unfoldable pub extract : State W T → Outcome (Result T CompletionError)
  extract (ready result) = returns result
  extract consumed = returns (err consumed_error)
  extract (pending _ _) = panics

  -- One pass of the loop of `wait`; `none` when it waits on the condition variable again.
  unfoldable pub wait_pass : State W T → Outcome (State W T × Option (Result T CompletionError))
  wait_pass state =
      if is_pending state
      then returns (state, none)
      else extract state >>= λ result. returns (consumed, some result)

  unfoldable pub try_take : State W T → Outcome (State W T × Option (Result T CompletionError))
  try_take state =
      if is_pending state
      then returns (state, none)
      else extract state >>= λ result. returns (consumed, some result)

  unfoldable pub poll :
      (W → W → Bool) → State W T → W → Outcome (State W T × Option (Result T CompletionError))
  poll will_wake (pending observer_alive waker) current =
      returns (pending observer_alive (registered will_wake waker current), none)
  poll will_wake (ready result) current =
      extract (ready result) >>= λ taken. returns (consumed, some taken)
  poll will_wake consumed current = extract consumed >>= λ taken. returns (consumed, some taken)

  -- The second component is the result that is dropped.
  unfoldable pub abandon_observer : State W T → State W T × Option (Result T CompletionError)
  abandon_observer (pending _ _) = (pending false none, none)
  abandon_observer (ready result) = (consumed, some result)
  abandon_observer consumed = (consumed, none)
