-- ===== src/Timeline/Transaction.antt =====
-- crates/calandria-sim/src/timeline/transaction.rs: lookup by token, and the restoring of a removed
-- event. Where `restore` asks the event for its size (`Retained`), it is measured by the measure that
-- the timeline was made with, which for a simulation is that size (`with_parts`).
use calandria.Prelude.{
  ℕ, Option, none, some, List, [], ◌∷◌, length, leb, ltb, ◌==◌, not, if◌then◌else◌, map, Outcome,
  returns, panics, ◌>>=◌,
}
use calandria.Words.{or_panic}
use calandria.Time.Moment.{Moment}
use calandria.Retained.{RetainedBytes, checked_add}
use calandria.Timeline.{Timeline, Entry, EventToken, insert, take_key, advance_to}

module _ {ℓ} {E : Type ℓ} where
  abbrev pub token_of : ℕ → Entry E → EventToken
  token_of id e = record { timeline = id; id = e.id; at = e.at }

  -- `advance_to` of a timeline.
  unfoldable pub advance_timeline : Timeline E → Moment → Outcome (Timeline E)
  advance_timeline t requested =
      or_panic (advance_to t.clock requested) >>= λ now. returns (record t { clock = now })

  unfoldable pub retained_for : Timeline E → EventToken → Option RetainedBytes
  retained_for t token =
      if token.timeline == t.id
      then elim (take_key token.at token.id t.events) [
        | none ↦ none
        | some (e, _) ↦ some e.retained
      ]
      else none

  unfoldable pub event : Timeline E → EventToken → Option E
  event t token =
      if token.timeline == t.id
      then elim (take_key token.at token.id t.events) [ none ↦ none | some (e, _) ↦ some e.event ]
      else none

  -- The entries that `tokens_at` enumerates.
  unfoldable pub entries_at : Moment → List (Entry E) → List (Entry E)
  entries_at at [] = []
  entries_at at (e ∷ es) = let rest = entries_at at es in if e.at == at then e ∷ rest else rest

  unfoldable pub tokens_at : Timeline E → Moment → List EventToken
  tokens_at t at = map (token_of t.id) (entries_at at t.events)

  abbrev pub pending : Timeline E → List (EventToken × E)
  pending t = map (λ e. (token_of t.id e, e.event)) t.events

  -- The end of `restore`, from the insertion.
  unfoldable pub restore_into :
      Timeline E → RetainedBytes → Option (List (Entry E)) → Outcome (Timeline E)
  restore_into t next_retained none = panics
  restore_into t next_retained (some events) =
      returns (record t { events = events; retained = next_retained })

  unfoldable pub restore : Timeline E → EventToken → E → Outcome (Timeline E)
  restore t token ev =
      if not (token.timeline == t.id)
      then panics
      else if ltb token.at t.clock
      then panics
      else if leb t.limits.pending_events (length t.events)
      then panics
      else or_panic (checked_add t.retained (t.measure ev)) >>= λ next_retained.
          if ltb t.limits.retained_bytes next_retained
          then panics
          else restore_into t next_retained (
              insert (record { at = token.at; id = token.id; event = ev; retained = t.measure ev })
                t.events)
