-- ===== src/Scheduler/Replay.antt =====
-- crates/calandria-sim/src/scheduler/replay and trace/entry.rs: the scheduler that follows a trace.
use calandria.Prelude.{
  ℕ, ◌-◌, Option, none, some, Bool, true, false, List, length, get_elem?, ◌==◌, ◌&&◌, not,
  if◌then◌else◌, Result, ok, err, Outcome, returns, ◌>>=◌,
}
use calandria.Words
use calandria.Words.{or_panic}
use calandria.Time.Moment.{Moment}
use calandria.Turn.{Turn, Next, now, wake, wake_or, stop}
use calandria.Action.{ActionKey, ActionMeta, ReadySet, action_eq, contains}

pub record TraceEntry : Type 0 where
  pub meta : ActionMeta
  pub turn : Turn

pub data ReplayDivergence : Type 0 where
  trace_exhausted : ℕ → Moment → ℕ → ReplayDivergence
  other_moment : ℕ → TraceEntry → Moment → ReplayDivergence
  unavailable : ℕ → TraceEntry → ℕ → ReplayDivergence
  other_commit : ℕ → TraceEntry → TraceEntry → ReplayDivergence
  trace_remaining : ℕ → ℕ → ReplayDivergence
  pending_commit : ℕ → ReplayDivergence
  unexpected_commit : ℕ → TraceEntry → ReplayDivergence

pub record Replay : Type 0 where
  pub entries : List TraceEntry
  pub cursor : ℕ
  pub position : ℕ
  pub awaiting_commit : Bool

abbrev pub next_eq : Next → Next → Bool
next_eq now now = true
next_eq now wake = false
next_eq now (wake_or b) = false
next_eq now stop = false
next_eq wake now = false
next_eq wake wake = true
next_eq wake (wake_or b) = false
next_eq wake stop = false
next_eq (wake_or a) now = false
next_eq (wake_or a) wake = false
next_eq (wake_or a) (wake_or b) = a == b
next_eq (wake_or a) stop = false
next_eq stop now = false
next_eq stop wake = false
next_eq stop (wake_or b) = false
next_eq stop stop = true

abbrev pub cause_eq : Option ℕ → Option ℕ → Bool
cause_eq none none = true
cause_eq none (some b) = false
cause_eq (some a) none = false
cause_eq (some a) (some b) = a == b

-- The derived equality of entries.
abbrev pub entry_eq : TraceEntry → TraceEntry → Bool
entry_eq a b =
    a.meta.id == b.meta.id
    && action_eq a.meta.key b.meta.key
    && a.meta.at == b.meta.at
    && cause_eq a.meta.cause b.meta.cause
    && a.turn.work == b.turn.work
    && next_eq a.turn.next b.turn.next

abbrev pub from_entries : List TraceEntry → Replay
from_entries entries = record {
  entries = entries;
  cursor = 0;
  position = 0;
  awaiting_commit = false;
}

abbrev pub remaining : Replay → ℕ
remaining r = length r.entries - r.cursor

abbrev pub expected : Replay → Option TraceEntry
expected r = get_elem? r.entries r.cursor

-- `choose` from the expected entry.
unfoldable pub choose_expected :
    Replay → Moment → ReadySet → Option TraceEntry → Replay × Result ActionKey ReplayDivergence
choose_expected r moment ready none = (r, err (trace_exhausted r.position moment (length ready)))
choose_expected r moment ready (some entry) =
    if not (entry.meta.at == moment)
    then (r, err (other_moment r.position entry moment))
    else if not (contains ready entry.meta.key)
    then (r, err (unavailable r.position entry (length ready)))
    else (record r { awaiting_commit = true }, ok entry.meta.key)

unfoldable pub choose : Replay → Moment → ReadySet → Replay × Result ActionKey ReplayDivergence
choose r moment ready =
    if r.awaiting_commit
    then (r, err (pending_commit r.position))
    else choose_expected r moment ready (expected r)

unfoldable pub committed :
    Replay → ActionMeta → Turn → Outcome (Replay × Result (Unit {0}) ReplayDivergence)
committed r meta turn =
    let actual : TraceEntry = record { meta = meta; turn = turn } in
    if not r.awaiting_commit
    then returns (r, err (unexpected_commit r.position actual))
    else or_panic (expected r) >>= λ entry.
        if not (entry_eq actual entry)
        then returns (r, err (other_commit r.position entry actual))
        else or_panic (Words.checked_add r.cursor 1) >>= λ cursor.
            or_panic (Words.checked_add r.position 1) >>= λ position.
            returns
              (record r { cursor = cursor; position = position; awaiting_commit = false }, ok tt)

unfoldable pub finished : Replay → Result (Unit {0}) ReplayDivergence
finished r =
    if r.awaiting_commit
    then err (pending_commit r.position)
    else if not (remaining r == 0)
    then err (trace_remaining r.position (remaining r))
    else ok tt
