-- ===== src/Scheduler.antt =====
-- crates/calandria-sim/src/scheduler: the policies that choose one action of a ready set.
pub mod Count
pub mod Fair
pub mod Replay
pub mod Entries
pub mod Follow
pub mod Seeded
pub mod Draw
mod Tests
use calandria.Prelude.{
  ℕ, ◌+◌, ◌*◌, ◌/◌, ◌^◌, Option, none, some, Bool, true, false, List, [], ◌∷◌, map, length,
  get_elem?, ltb, leb, ◌==◌, if◌then◌else◌, Result, ok, err, Outcome, returns, panics, ◌>>=◌,
}
use calandria.Words.{or_panic}
use calandria.Model.{DutyId}
use calandria.Action.{ActionKey, ReadySet, first}

-- `Fifo::choose`
unfoldable pub choose_first : ReadySet → Outcome ActionKey
choose_first ready = or_panic (first ready)

-- `Iterator::min`
unfoldable pub min_duty : List DutyId → Option DutyId
min_duty [] = none
min_duty (d ∷ ds) = elim (min_duty ds) [
  | none ↦ some d
  | some m ↦ if leb d m then some d else some m
]

unfoldable pub duties_after : DutyId → List DutyId → List DutyId
duties_after cursor [] = []
duties_after cursor (d ∷ ds) =
    let rest = duties_after cursor ds in if ltb cursor d then d ∷ rest else rest

unfoldable pub find_duty : DutyId → ReadySet → Option ActionKey
find_duty owner [] = none
find_duty owner (a ∷ more) =
    let rest = find_duty owner more in if a.duty == owner then some a else rest

abbrev pub duties_of : ReadySet → List DutyId
duties_of actions = map (λ a. a.duty) actions

unfoldable pub after_cursor : Option DutyId → ReadySet → Option DutyId
after_cursor none actions = none
after_cursor (some cursor) actions = min_duty (duties_after cursor (duties_of actions))

unfoldable pub next_owner : Option DutyId → ReadySet → Option DutyId
next_owner cursor actions = elim (after_cursor cursor actions) [
  | some d ↦ some d
  | none ↦ min_duty (duties_of actions)
]

-- `RoundRobin::choose`: the cursor, and the action.
unfoldable pub choose_round_robin : Option DutyId → ReadySet → Outcome (Option DutyId × ActionKey)
choose_round_robin cursor actions = or_panic (next_owner cursor actions) >>= λ owner.
    or_panic (find_duty owner actions) >>= λ action. returns (some owner, action)

-- The choices from one ready set after the other.
unfoldable pub choose_all : Option DutyId → List ReadySet → Outcome (Option DutyId × List ActionKey)
choose_all cursor [] = returns (cursor, [])
choose_all cursor (ready ∷ readies) = choose_round_robin cursor ready >>= λ out.
    choose_all out.0 readies >>= λ rest. returns (rest.0, out.1 ∷ rest.1)
