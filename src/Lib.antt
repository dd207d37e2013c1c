-- ===== src/Lib.antt =====
-- Verification of calandria: bounded reactor primitives with explicit ownership.
--
-- The crate `calandria` (crates/calandria/src) is a set of small owners that a reactor composes. A
-- host runs bounded turns of a duty at moments of a monotonic clock and waits between them; timers,
-- resources and event batches are state of one owner; mailboxes, wake handles, completions and
-- shutdown barriers carry work and outcomes between threads. Each part below is a module, whose
-- children prove what it promises and hold its tests.
--
-- * Prelude, Words: names of the library, lists over native numbers, `Result`, and `Outcome` for
--   code that may panic; checked and saturating arithmetic of u64 and of a 64-bit usize.
-- * Time (time.rs): moments, spans and deadlines are nanosecond counts.
-- * Turn (turn.rs): work counts, `Next` as a data type, `bounded_wait` and both merges.
-- * Host (host/action.rs, config.rs, snapshot.rs, error.rs): `HostAction` and the diagnostics;
--   Host.Embedded (host/embedded.rs): `EmbeddedHost::step`, cut at each `?` and early return. The
--   duty and the clock are functions from their state to a new state and an answer.
-- * Retained (retained.rs): byte counts. Batch (batch/): the bounded event batch.
-- * Resource (resource/): slots with generations, tokens, and the table's admissions and removals.
-- * Timer (timer/): `BinaryHeap` is a list from which `heap_pop` takes the greatest element by the
--   order of Timer.Heap (timer/scheduled.rs); cancelling searches the list as the source does.
-- * Wake (wake.rs): one function for each atomic access of `wake`, `finish_wake` and `acknowledge`;
--   Wake.Interleaving runs any number of producers and the owner, one access at a time.
-- * Mailbox (mailbox/): two bounded lanes, senders, the receiver, counters, and the wake that is
--   coalesced as in Wake.Alone. Every call is one step under the mutex.
-- * Completion (completion/): the shared state as in shared.rs; Completion.Handles has the producer's
--   and the observer's handle, with what `Drop` does.
-- * Shutdown (shutdown/): each critical section of `subscribe` and of the completer;
--   Shutdown.Barrier runs any number of callers and the completer, one section at a time.
--
-- The crate `calandria-sim` (crates/calandria-sim/src) drives the same owners in virtual time.
--
-- * Timeline (timeline/, with clock.rs and event.rs): the bounded timeline of pending events; its
--   `BTreeMap` is a list in the order of the keys. Timeline.Transaction is transaction.rs.
-- * Model (model/): Model.Topology is the set of duties; Model.Context is what one action may do, a
--   transaction on the timeline (context/), and `drop_context` is its `Drop`; Model.Program has a
--   model's callback as any sequence of calls of the context, each chosen by the answers before it.
-- * Script (script/ and plan.rs): scripts of expected requests and their plans; a plan is the list of
--   its outcomes.
-- * Action (action.rs): actions, their canonical order, and ready sets.
-- * Scheduler (scheduler/): `choose_first` (fifo.rs) and `choose_round_robin` (round_robin.rs);
--   Scheduler.Seeded (seeded.rs and entropy.rs), whose words wrap at 64 bits; Scheduler.Replay
--   (replay/, with trace/entry.rs).
-- * Simulation (simulation/): the state and its construction (owner.rs, state.rs, limits.rs). The
--   model, the scheduler and the monitor are records of functions, one for each method of their
--   traits, and may answer that they panicked, which poisons the simulation. Simulation.Ready and
--   Simulation.Kernel are step.rs, Simulation.Execute execute.rs, Simulation.Run run.rs, and
--   Simulation.Inject injection.rs. Each is cut where the source calls a callback or returns early.
--
-- A measure of retained bytes, the answer of a wake backend, the request callback of a shutdown, a
-- duty, a clock and `Waker::will_wake` are parameters. Every `panic!` and `unwrap` that the source
-- reaches on an internal fault is the outcome `panics`, so that a theorem that a call returns says
-- that it does not panic. Loops are structural, on lists or on the budget of a drain; a wait on a
-- condition variable, and a spin, is another pass of its loop. `wake_run` of Wake.Alone takes the
-- number of accesses as fuel, and its theorem says how few are enough. `run_to_quiescence` of
-- Simulation.Run takes the number of steps as fuel: the limit on actions and the moments up to the
-- limit on time, together, are enough.
--
-- Not modelled: the thread parker (host/waiter.rs), io readiness (io/), the reactor and its groups
-- (reactor/), the trace monitor and `run_to_completion` of calandria-sim (trace/monitor.rs,
-- simulation/run.rs), and calandria-mio. A callback of a model is a finite sequence of calls, so
-- one that never returns is left out. Formatting, `Debug` and error messages have no behaviour
-- that these parts rely on. Allocation is taken to succeed, and the atomics to be sequentially
-- consistent.
pub mod Prelude
pub mod Words
pub mod Time
pub mod Turn
pub mod Host
pub mod Retained
pub mod Batch
pub mod Resource
pub mod Timer
pub mod Wake
pub mod Mailbox
pub mod Completion
pub mod Shutdown
pub mod Timeline
pub mod Model
pub mod Script
pub mod Action
pub mod Scheduler
pub mod Simulation
