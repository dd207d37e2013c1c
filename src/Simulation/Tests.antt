-- ===== src/Simulation/Tests.antt =====
-- The theorems about simulations at one of two duties, whose model sends an event and then fails.
use calandria.Prelude.{
  ℕ, ◌≡◌, refl, Option, none, some, false, [], ◌∷◌, ◌+◌, Result, ok, err, returns, arith,
}
use calandria.Turn.{waiting}
use calandria.Model.Topology.{Topology}
use calandria.Model.Program.{done, sends_after, observes}
use calandria.Action.{ActionKey, ReadySet}
use calandria.Simulation.{
  Simulation, SimulationLimits, ModelOps, SchedulerOps, MonitorOps, Answer, Step, with_parts,
  initial, active,
}
use calandria.Simulation.Kernel.{step}
use calandria.Simulation.Acts.{Sound}
use calandria.Simulation.Injected.{inject_all, run_to_quiescence-Ends, with_parts-Builds}
use calandria.Simulation.Ends.{Ends}
use calandria.Simulation.Halted.{After, step-After}

abbrev ping : ModelOps ℕ ℕ ℕ ℕ
ping = record {
  event_bytes = λ event. 3;
  observed_bytes = λ observation. 1;
  turn = λ m duty now. sends_after 1 5 m (λ answer. done (m + 1, some (ok waiting)));
  deliver = λ m duty delivery. observes delivery.event (λ answer. done (m, some (err 7)));
}

abbrev fifo_first : ReadySet → Option (Result ActionKey ℕ)
fifo_first [] = none
fifo_first (a ∷ more) = some (ok a)

abbrev fifo : SchedulerOps ℕ ℕ
fifo = record {
  choose = λ s now ready. (s, fifo_first ready);
  committed = λ s meta turn. (s + 1, some (ok tt));
  finished = λ s. (s, some (ok tt));
}

abbrev noop : MonitorOps ℕ ℕ ℕ ℕ
noop = record { after_action = λ n view action. (n, some (ok tt)) }

abbrev limits : SimulationLimits
limits = record {
  max_duties = 2;
  timeline = record { pending_events = 4; retained_bytes = 64 };
  effects_per_action = 2;
  effect_bytes_per_action = 16;
  observations_per_action = 2;
  observation_bytes_per_action = 8;
  total_actions = 10;
  actions_per_moment = 5;
  max_virtual_time = 30;
}

abbrev duties : Topology
duties = record { duties = 1 ∷ 2 ∷ [] }

abbrev fresh : Simulation ℕ ℕ ℕ ℕ
fresh = record {
  model = 0;
  topology = duties;
  states = (1, initial) ∷ (2, initial) ∷ [];
  stopped = [];
  timeline = record {
    id = 9;
    clock = 4;
    limits = limits.timeline;
    measure = λ routed. 3;
    next_id = some 0;
    retained = 0;
    events = [];
  };
  limits = limits;
  scheduler = 0;
  monitor = 0;
  phase = active;
  poisoned = false;
  next_action = some 0;
  actions = 0;
  actions_at_moment = 0;
}

built : with_parts ping.event_bytes 9 4 0 duties limits 0 0 ≡ ok fresh
unfolding with_parts
built = refl

run_to_quiescence-Ends_example :
    (s' : Simulation ℕ ℕ ℕ ℕ) × (inject_all ping.event_bytes fresh ((2, 6, 5) ∷ (3, 6, 5) ∷ [])
      ≡ returns s')
    × Ends ping fifo noop 40 s'
run_to_quiescence-Ends_example =
    run_to_quiescence-Ends ping fifo noop 40 9 4 0 duties limits 0 0 fresh
      ((2, 6, 5) ∷ (3, 6, 5) ∷ []) (omega arith) built (omega arith)

fresh-Sound : Sound ping fifo noop fresh
fresh-Sound =
    (with_parts-Builds ping.event_bytes 9 4 0 duties limits 0 0 fresh (omega arith) built).0

step-After_example :
    (s' : Simulation ℕ ℕ ℕ ℕ) × (a : Answer (Step ℕ) ℕ ℕ ℕ) × (step ping fifo noop fresh
      ≡ returns (s', a))
    × After ping fifo noop a s'
step-After_example = step-After ping fifo noop fresh fresh-Sound
