-- ===== src/Scheduler/Tests.antt =====
-- The theorems about the schedulers at concrete ready sets and traces.
use mathlib.Core.List.{Memᴰ}
use calandria.Prelude.{ℕ, ◌≡◌, refl, none, some, List, [], ◌∷◌, take, returns, arith}
use calandria.Turn.{stopped}
use calandria.Action.{ActionKey, ActionKind, ActionMeta, ReadySet}
use calandria.Scheduler.Fair.{Serves, choose_all-Serves}
use calandria.Scheduler.Replay.{Replay, TraceEntry, from_entries}
use calandria.Scheduler.Follow.{Call, chooses, commits, follow, Finishes, follow-trace}
use calandria.Scheduler.Seeded.{seeded, choose}
use calandria.Scheduler.Draw.{Draws, choose-Draws}

abbrev turn_of : ℕ → ActionKey
turn_of duty = record { duty = duty; kind = ActionKind.turn }

abbrev pair : ReadySet
pair = turn_of 4 ∷ turn_of 9 ∷ []

choose_all-Serves_example : Serves (some 4) 9 (pair ∷ pair ∷ [])
choose_all-Serves_example =
    choose_all-Serves (some 4) 9 (4 ∷ 9 ∷ []) (pair ∷ pair ∷ []) (Memᴰ.tail (Memᴰ.head refl))
      (
        (Memᴰ.head refl, (Memᴰ.tail (Memᴰ.head refl), tt)),
        ((Memᴰ.head refl, (Memᴰ.tail (Memᴰ.head refl), tt)), tt),
      )
      (Memᴰ.tail (Memᴰ.head refl), (Memᴰ.tail (Memᴰ.head refl), tt)) (omega arith)

abbrev meta : ActionMeta
meta = record { id = 0; key = turn_of 4; at = 10; cause = none }

abbrev trace : List TraceEntry
trace = record { meta = meta; turn = stopped 2 } ∷ []

abbrev calls : List Call
calls = commits meta (stopped 2) ∷ chooses 10 pair ∷ commits meta (stopped 2) ∷ []

follow-trace_example :
    (r : Replay) × (log : List TraceEntry) × (follow (from_entries trace) calls ≡ returns (r, log))
    × (log ≡ take r.cursor trace)
    × Finishes trace r log
follow-trace_example = follow-trace trace calls (omega arith)

choose-Draws_example : Draws (seeded 1 2) pair (choose (seeded 1 2) pair)
choose-Draws_example = choose-Draws (seeded 1 2) pair (omega arith) (omega arith) (omega arith)
