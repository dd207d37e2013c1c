-- ===== src/Simulation/Ends.antt =====
-- Runs of a simulation (crates/calandria-sim/src/simulation/run.rs) end.
use calandria.Prelude.{ℕ, zero, suc, ◌<◌, ◌≡◌, refl, ◌∙◌, some, true, returns, arith}
use calandria.Simulation.{
  Simulation, ModelOps, SchedulerOps, MonitorOps, Answer, Step, action, time_advanced, quiescent,
  completed_step, answers, fails, unwinds,
}
use calandria.Simulation.Run.{RunReport, run_to_quiescence, after_step}
use calandria.Simulation.Acts.{Sound}
use calandria.Simulation.Advance.{pace, goes_on}
use calandria.Simulation.Progress.{step-Steps}

module _ {ℓ} {M E O ME S SE N NE : Type ℓ} (model : ModelOps M E O ME)
    (scheduler : SchedulerOps S SE) (monitor : MonitorOps M O N NE) where
  -- A run that ends with an answer, in a sound simulation of the same limits.
  abbrev pub Ends : ℕ → Simulation M E S N → Type ℓ
  Ends fuel s =
      (s' : Simulation M E S N) × (a : Answer RunReport ME NE SE) × (run_to_quiescence model
          scheduler monitor fuel s
        ≡ returns (s', some a))
      × Sound model scheduler monitor s'
      × (s'.limits ≡ s.limits)

  after_step-Ends :
      (fuel : ℕ) (s s' : Simulation M E S N) (a : Answer (Step O) ME NE SE)
      → Sound model scheduler monitor s'
      → s'.limits ≡ s.limits
      → (goes_on model scheduler monitor a ≡ true → Ends fuel s')
      → (s'' : Simulation M E S N) × (b : Answer RunReport ME NE SE) × (after_step model scheduler
            monitor s' a
            (run_to_quiescence model scheduler monitor fuel s')
          ≡ returns (s'', some b))
        × Sound model scheduler monitor s''
        × (s''.limits ≡ s.limits)
  unfolding after_step
  after_step-Ends fuel s s' (answers (action done)) o same next =
      let (s'', b, e, sound, limits) = next refl in (s'', b, e, sound, limits ∙ same)
  after_step-Ends fuel s s' (answers (time_advanced start at)) o same next =
      let (s'', b, e, sound, limits) = next refl in (s'', b, e, sound, limits ∙ same)
  after_step-Ends fuel s s' (answers (quiescent at)) o same next = (s', _, refl, o, same)
  after_step-Ends fuel s s' (answers (completed_step at)) o same next = (s', _, refl, o, same)
  after_step-Ends fuel s s' (fails error) o same next = (s', _, refl, o, same)
  after_step-Ends fuel s s' unwinds o same next = (s', _, refl, o, same)

  pub run-Ends :
      (fuel : ℕ) (s : Simulation M E S N)
      → Sound model scheduler monitor s
      → pace model scheduler monitor s < fuel
      → Ends fuel s
  unfolding run_to_quiescence
  run-Ends zero s o enough = absurd (omega arith)
  run-Ends (suc fuel) s o enough =
      let (s', a, e, sound, limits, less, halts) = step-Steps model scheduler monitor s o in
      rw e (
        after_step-Ends fuel s s' a sound limits
          (λ goes. run-Ends fuel s' sound (omega (arith, less goes))))
