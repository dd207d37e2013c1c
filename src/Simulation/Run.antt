-- ===== src/Simulation/Run.antt =====
-- Running a simulation (crates/calandria-sim/src/simulation/run.rs): the loop is a recursion on fuel.
use calandria.Prelude.{ℕ, zero, suc, Option, none, some, Outcome, returns, ◌>>=◌}
use calandria.Simulation.{
  Simulation, ModelOps, SchedulerOps, MonitorOps, Answer, Step, SimulationSnapshot, action,
  time_advanced, quiescent, completed_step, answers, fails, unwinds,
}
use calandria.Simulation.Kernel.{step}

pub data RunEnd : Type 0 where
  completed : RunEnd
  quiescent_end : RunEnd

pub record RunReport : Type 0 where
  pub end : RunEnd
  pub snapshot : SimulationSnapshot

module _ {ℓ} {M E O ME S SE N NE : Type ℓ} (model : ModelOps M E O ME)
    (scheduler : SchedulerOps S SE) (monitor : MonitorOps M O N NE) where
  -- `none` is a run out of fuel.
  abbrev pub RunOutcome : Type ℓ
  RunOutcome = Outcome (Simulation M E S N × Option (Answer RunReport ME NE SE))

  -- The body of the loop, from the answer of the step, where `again` goes on.
  unfoldable pub after_step :
      Simulation M E S N → Answer (Step O) ME NE SE → RunOutcome → RunOutcome
  after_step s (answers (action done)) again = again
  after_step s (answers (time_advanced start next)) again = again
  after_step s (answers (quiescent snapshot)) again =
      returns (s, some (answers (record { end = quiescent_end; snapshot = snapshot })))
  after_step s (answers (completed_step snapshot)) again =
      returns (s, some (answers (record { end = completed; snapshot = snapshot })))
  after_step s (fails error) again = returns (s, some (fails error))
  after_step s unwinds again = returns (s, some unwinds)

  unfoldable pub run_to_quiescence : ℕ → Simulation M E S N → RunOutcome
  run_to_quiescence zero s = returns (s, none)
  run_to_quiescence (suc fuel) s = step model scheduler monitor s >>= λ out.
      after_step out.0 out.1 (run_to_quiescence fuel out.0)
