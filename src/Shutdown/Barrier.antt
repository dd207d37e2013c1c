-- ===== src/Shutdown/Barrier.antt =====
-- One shutdown barrier with any number of calls of `subscribe` and its unique completer
-- (crates/calandria/src/shutdown), in every interleaving of their critical sections.
use calandria.Prelude.{ℕ, false, Option, some, none, List, [], ◌++◌, get_elem?, set, replicate, ◌≡◌}
use calandria.Shutdown.{
  State, new, Notice, Caller, looping, Requested, Access, caller_step, ShutdownCompleter, complete,
  drop_completer, close,
}

-- The notices have the latest access's first.
pub record System {ℓ} (E : Type ℓ) : Type ℓ where
  pub capacity : ℕ
  pub barrier : State
  pub callers : List (Caller E)
  pub completer : Option ShutdownCompleter
  pub notices : List Notice

module _ {ℓ} {E : Type ℓ} where
  abbrev pub after_caller : System E → ℕ → Access E → System E
  after_caller s i out = record s {
    barrier = out.0;
    callers = set s.callers i out.1;
    notices = out.2 ++ s.notices;
  }

  abbrev pub after_completer : System E → Option ShutdownCompleter → State × List Notice → System E
  after_completer s held out = record s {
    barrier = out.0;
    completer = held;
    notices = out.1 ++ s.notices;
  }

  -- One critical section: of a caller that the scheduler picks, or of the completer while it is
  -- held.
  pub data Step (s : System E) : System E → Type ℓ where
    calls :
        (i : ℕ) (c : Caller E) (request : Requested E)
        → get_elem? s.callers i ≡ some c
        → Step s (after_caller s i (caller_step s.capacity s.barrier i c request))
    completes :
        (c : ShutdownCompleter)
        → s.completer ≡ some c
        → Step s (
            after_completer s
              (some (complete c s.barrier).0)
              ((complete c s.barrier).1, (complete c s.barrier).2))
    closes :
        (c : ShutdownCompleter)
        → s.completer ≡ some c
        → Step s (after_completer s none (close c s.barrier))
    drops :
        (c : ShutdownCompleter)
        → s.completer ≡ some c
        → Step s (after_completer s none (drop_completer c s.barrier))

  pub data Reach (s : System E) : System E → Type ℓ where
    start : Reach s s
    next : {t u : System E} → Reach s t → Step t u → Reach s u

  -- `shutdown_barrier`, before any of `n` callers has entered `subscribe`.
  abbrev pub shutdown_barrier : ℕ → ℕ → System E
  shutdown_barrier capacity n = record {
    capacity = capacity;
    barrier = new;
    callers = replicate n looping;
    completer = some (record { settled = false });
    notices = [];
  }
