-- ===== src/Simulation/Halted.antt =====
-- A failed or poisoned simulation (crates/calandria-sim/src/simulation) goes no further.
use calandria.Prelude.{◌≡◌, err, returns, inl, inr, Bool-cases}
use calandria.Time.Moment.{Moment}
use calandria.Model.{DutyId}
use calandria.Simulation.{
  Simulation, ModelOps, SchedulerOps, MonitorOps, StepError, Answer, Step, answers, fails, unwinds,
  poisoned, inactive,
}
use calandria.Simulation.Kernel.{step}
use calandria.Simulation.Inject
use calandria.Simulation.Inject.{InjectionError, InjectionFailure, inject_at}
use calandria.Simulation.Acts.{Sound, Halts, IsHalted}
use calandria.Simulation.Progress.{step-Steps}

module _ {ℓ} {M E O ME S SE N NE : Type ℓ} (model : ModelOps M E O ME)
    (scheduler : SchedulerOps S SE) (monitor : MonitorOps M O N NE) where
  -- Every step fails in one way and every injection is refused in another, the event returned, and
  -- neither changes the simulation.
  abbrev pub Refuses : Simulation M E S N → Type ℓ
  Refuses s =
      (error : StepError ME NE SE) × (failure : InjectionFailure) × (step model scheduler monitor s
        ≡ returns (s, fails error))
      × ((target : DutyId) (at : Moment) (event : E)
          → inject_at s target at event
            ≡ returns (s, err (record { event = event; failure = failure })))

  abbrev pub After : Answer (Step O) ME NE SE → Simulation M E S N → Type ℓ
  After (answers done) s = Sound model scheduler monitor s
  After (fails error) s = Sound model scheduler monitor s × Refuses s
  After unwinds s = Sound model scheduler monitor s × Refuses s

  IsHalted-Refuses : (s : Simulation M E S N) → IsHalted model scheduler monitor s → Refuses s
  unfolding step inject_at
  IsHalted-Refuses s (inl spoiled) = (
    poisoned,
    Inject.poisoned,
    simp (step, spoiled),
    λ target at event. simp (inject_at, spoiled),
  )
  IsHalted-Refuses s (inr over) = elim (Bool-cases s.poisoned) [
    | inl spoiled ↦ (
      poisoned,
      Inject.poisoned,
      simp (step, spoiled),
      λ target at event. simp (inject_at, spoiled),
    )
    | inr clean ↦ (
      inactive s.phase,
      Inject.inactive s.phase,
      simp (step, clean, over),
      λ target at event. simp (inject_at, clean, over),
    )
  ]

  Halts-After :
      (a : Answer (Step O) ME NE SE) (s : Simulation M E S N)
      → Sound model scheduler monitor s
      → Halts model scheduler monitor a s
      → After a s
  Halts-After (answers done) s o h = o
  Halts-After (fails error) s o h = (o, IsHalted-Refuses s h)
  Halts-After unwinds s o h = (o, IsHalted-Refuses s h)

  -- A step of a sound simulation does not panic of itself and leaves it sound. After a step that
  -- fails, or that unwinds from a panic of the model, the scheduler or the monitor, every further step
  -- fails and every injection is refused, and none of them changes the simulation.
  pub step-After :
      (s : Simulation M E S N)
      → Sound model scheduler monitor s
      → (s' : Simulation M E S N) × (a : Answer (Step O) ME NE SE) × (step model scheduler monitor s
          ≡ returns (s', a))
        × After a s'
  step-After s o =
      let (s', a, e, sound, limits, less, halts) = step-Steps model scheduler monitor s o in
      (s', a, e, Halts-After a s' sound halts)
