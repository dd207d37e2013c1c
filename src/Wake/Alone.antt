-- ===== src/Wake/Alone.antt =====
-- Calls of `wake` and `acknowledge` on a handle with no request in flight, which no other access
-- interrupts. The mailbox, which makes its calls under its lock, is modelled over these.
use calandria.Prelude.{ℕ, zero, suc, ◌≡◌, refl, Result, ok, err, Bool, true, false, ◌⊎◌, inl, inr}
use calandria.Wake.{
  Phase, idle, requested, Producer, loading, returned, Owner, resting, loading_phase, producer_step,
  owner_step,
}

-- The phase of a handle between two calls: whether a wake is requested.
abbrev pub between : Bool → Phase
between true = requested
between false = idle

-- `acknowledge`, by the accesses that the owner makes up to the end of the call.
pub acknowledge_run : ℕ → Phase × Owner → Phase × Owner
acknowledge_run zero s = s
acknowledge_run (suc n) (phase, resting) = (phase, resting)
acknowledge_run (suc n) (phase, o) = acknowledge_run n (owner_step phase o)

module _ {ℓ} {E : Type ℓ} where
  -- `wake` as a whole: a wake that is requested already is not requested again, and otherwise the
  -- backend's answer stands.
  unfoldable pub wake : Bool → Result (Unit {0}) E → Bool × Result (Unit {0}) E
  wake true result = (true, ok tt)
  wake false (ok _) = (true, ok tt)
  wake false (err error) = (false, err error)

  -- `wake`, by the accesses that a producer makes up to the end of the call.
  pub wake_run : ℕ → Phase × Producer E → Result (Unit {0}) E → Phase × Producer E
  wake_run zero s result = s
  wake_run (suc n) (phase, returned r) result = (phase, returned r)
  wake_run (suc n) (phase, p) result = wake_run n (producer_step phase p result) result

  -- The accesses of an uninterrupted `wake` end, within three, in the phase and the result that
  -- `wake` gives; those of an uninterrupted `acknowledge`, within two, in IDLE.
  pub wake_run-wake :
      (fuel : ℕ) (made : Bool) (result : Result (Unit {0}) E)
      → (wake_run (suc (suc (suc fuel))) (between made, loading) result
          ≡ (between (wake made result).0, returned (wake made result).1))
        × (acknowledge_run (suc (suc fuel)) (between made, loading_phase) ≡ (idle, resting))
  unfolding wake wake_run acknowledge_run producer_step owner_step
  wake_run-wake zero true result = (refl, refl)
  wake_run-wake (suc n) true result = (refl, refl)
  wake_run-wake zero false (ok _) = (refl, refl)
  wake_run-wake (suc n) false (ok _) = (refl, refl)
  wake_run-wake zero false (err error) = (refl, refl)
  wake_run-wake (suc n) false (err error) = (refl, refl)

-- A call of `wake` never takes a request back.
pub wake-keeps {ℓ} :
    {E : Type ℓ} (made : Bool) (result : Result (Unit {0}) E)
    → (made ≡ false) ⊎ ((wake made result).0 ≡ true)
unfolding wake
wake-keeps true result = inr refl
wake-keeps false result = inl refl
