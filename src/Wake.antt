-- ===== src/Wake.antt =====
-- crates/calandria/src/wake.rs: the phases of a coalesced wake handle.
-- Each step is one atomic access. `producer_step` is one access of a thread inside `wake`, and
-- `owner_step` one of the owner inside `acknowledge`. The atomics are taken to be sequentially
-- consistent. The backend is a parameter: the result of the call of `WakeSource::wake` that ends.
pub mod Interleaving
pub mod Alone
mod Tests
use calandria.Prelude.{Bool, true, false, Result, ok, err}

-- IDLE, WAKING, REQUESTED and WAKING_ACKNOWLEDGED
pub data Phase : Type 0 where
  idle waking requested waking_acknowledged : Phase

-- Where a producer stands in `wake` and `finish_wake`.
pub data Producer {ℓ} (E : Type ℓ) : Type ℓ where
  loading : Producer E
  claiming : Producer E
  calling : Producer E
  storing : Producer E
  returned : Result (Unit {0}) E → Producer E
  panicked : Producer E

-- Where the owner stands in `acknowledge`.
pub data Owner : Type 0 where
  resting loading_phase clearing marking : Owner

module _ {ℓ} {E : Type ℓ} where
  -- The load at the head of the loop of `wake`.
  pub wake_load : Phase → Producer E
  wake_load requested = returned (ok tt)
  wake_load idle = claiming
  wake_load waking = loading
  wake_load waking_acknowledged = loading

  -- The exchange IDLE → WAKING.
  pub wake_claim : Phase → Phase × Producer E
  wake_claim idle = (waking, calling)
  wake_claim phase = (phase, loading)

  -- `finish_wake` on a success: the exchange WAKING → REQUESTED.
  pub finish_success : Phase → Phase × Producer E
  finish_success waking = (requested, returned (ok tt))
  finish_success waking_acknowledged = (waking_acknowledged, storing)
  finish_success phase = (phase, panicked)

  -- `finish_wake` on a failure: the swap to IDLE, and the assertion on what was there.
  pub finish_failure : Phase → E → Phase × Producer E
  finish_failure waking error = (idle, returned (err error))
  finish_failure waking_acknowledged error = (idle, returned (err error))
  finish_failure phase error = (idle, panicked)

  pub finish_wake : Phase → Result (Unit {0}) E → Phase × Producer E
  unfolding finish_success finish_failure
  finish_wake phase (ok _) = finish_success phase
  finish_wake phase (err error) = finish_failure phase error

  -- The access that a producer makes next; `result` is what the backend answers, if it is called.
  -- A producer that has returned calls `wake` again.
  pub producer_step : Phase → Producer E → Result (Unit {0}) E → Phase × Producer E
  unfolding wake_load wake_claim finish_wake
  producer_step phase loading result = (phase, wake_load phase)
  producer_step phase claiming result = wake_claim phase
  producer_step phase calling result = finish_wake phase result
  producer_step phase storing result = (idle, returned (ok tt))
  producer_step phase (returned _) result = (phase, loading)
  producer_step phase panicked result = (phase, panicked)

-- The load at the head of the loop of `acknowledge`.
pub acknowledge_load : Phase → Owner
acknowledge_load idle = resting
acknowledge_load waking_acknowledged = resting
acknowledge_load requested = clearing
acknowledge_load waking = marking

-- The exchange REQUESTED → IDLE.
pub acknowledge_clear : Phase → Phase × Owner
acknowledge_clear requested = (idle, resting)
acknowledge_clear phase = (phase, loading_phase)

-- The exchange WAKING → WAKING_ACKNOWLEDGED.
pub acknowledge_mark : Phase → Phase × Owner
acknowledge_mark waking = (waking_acknowledged, resting)
acknowledge_mark phase = (phase, loading_phase)

pub owner_step : Phase → Owner → Phase × Owner
unfolding acknowledge_load acknowledge_clear acknowledge_mark
owner_step phase resting = (phase, loading_phase)
owner_step phase loading_phase = (phase, acknowledge_load phase)
owner_step phase clearing = acknowledge_clear phase
owner_step phase marking = acknowledge_mark phase

pub is_requested : Phase → Bool
is_requested idle = false
is_requested _ = true
