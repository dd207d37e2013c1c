-- ===== src/Scheduler/Follow.antt =====
-- What a replay (crates/calandria-sim/src/scheduler/replay/owner.rs) accepts is its trace.
use calandria.Prelude.{
  suc, ◌+◌, ◌≤◌, ◌<◌, ◌≡◌, refl, sym, ap, ◌∙◌, Option, none, some, true, false, List, [], ◌∷◌, ◌++◌,
  length, get_elem?, get_elem?-bound, get_elem?-lt, take, append-nil, append_assoc, length-take,
  subst, leb, ◌==◌, Result, ok, err, Outcome, returns, ◌>>=◌, ◌⊎◌, inl, inr, arith, Bool-cases,
}
use calandria.Words.{u64_max}
use calandria.Time.Moment.{Moment}
use calandria.Turn.{Turn}
use calandria.Action.{ActionKey, ActionMeta, ReadySet, contains}
use calandria.Scheduler.Replay.{
  TraceEntry, ReplayDivergence, Replay, entry_eq, from_entries, remaining, expected,
  choose_expected, choose, committed, finished, other_commit, trace_remaining, pending_commit,
  unexpected_commit,
}
use calandria.Scheduler.Entries.{entry_eq-eq, take-next, take-all}

pub data Call : Type 0 where
  chooses : Moment → ReadySet → Call
  commits : ActionMeta → Turn → Call

-- The entry of a commit that was accepted.
abbrev pub accepted : ActionMeta → Turn → Result (Unit {0}) ReplayDivergence → List TraceEntry
accepted meta turn (ok _) = record { meta = meta; turn = turn } ∷ []
accepted meta turn (err divergence) = []

unfoldable pub follow : Replay → List Call → Outcome (Replay × List TraceEntry)
follow r [] = returns (r, [])
follow r (chooses moment ready ∷ calls) = follow (choose r moment ready).0 calls
follow r (commits meta turn ∷ calls) = committed r meta turn >>= λ out.
    follow out.0 calls >>= λ rest. returns (rest.0, accepted meta turn out.1 ++ rest.1)

record IsOn (es : List TraceEntry) (r : Replay) : Type 0 where
  entries : r.entries ≡ es
  counted : r.position ≡ r.cursor
  within : r.cursor ≤ length es
  awaits : (r.awaiting_commit ≡ false) ⊎ (r.cursor < length es)

-- A choice does not move the cursor.
abbrev Stays : List TraceEntry → Replay → Replay × Result ActionKey ReplayDivergence → Type 0
Stays es r out = IsOn es out.0 × (out.0.cursor ≡ r.cursor)

choose_expected-Stays :
    (es : List TraceEntry) (r : Replay) (moment : Moment) (ready : ReadySet)
    (next : Option TraceEntry)
    → expected r ≡ next
    → IsOn es r
    → Stays es r (choose_expected r moment ready next)
unfolding choose_expected
choose_expected-Stays es r moment ready none e o = (o, refl)
choose_expected-Stays es r moment ready (some entry) e o =
    elim (Bool-cases (entry.meta.at == moment)) [
      | inr other ↦ rw other (o, refl)
      | inl timely ↦ elim (Bool-cases (contains ready entry.meta.key)) [
        | inr missing ↦ rw (timely, missing) (o, refl)
        | inl offered ↦
            let found : get_elem? es r.cursor ≡ some entry =
              ap (λ xs. get_elem? xs r.cursor) (sym o.entries) ∙ e in
            let ahead = get_elem?-bound es r.cursor entry found in
            rw (timely, offered)
              (
                record {
                  entries = o.entries;
                  counted = o.counted;
                  within = o.within;
                  awaits = inr ahead;
                },
                refl,
              )
      ]
    ]

choose-Stays :
    (es : List TraceEntry) (r : Replay) (moment : Moment) (ready : ReadySet)
    → IsOn es r
    → Stays es r (choose r moment ready)
unfolding choose
choose-Stays es r moment ready o = elim (Bool-cases r.awaiting_commit) [
  | inl waits ↦ simp (choose, waits) (o, refl)
  | inr free ↦ simp (choose, free) (choose_expected-Stays es r moment ready (expected r) refl o)
]

abbrev Commits :
    List TraceEntry
    → Replay
    → ActionMeta
    → Turn
    → Outcome (Replay × Result (Unit {0}) ReplayDivergence)
    → Type 0
Commits es r meta turn out =
    (r' : Replay) × (a : Result (Unit {0}) ReplayDivergence) × (out ≡ returns (r', a))
    × IsOn es r'
    × (take r.cursor es ++ accepted meta turn a ≡ take r'.cursor es)

committed-IsOn :
    (es : List TraceEntry) (r : Replay) (meta : ActionMeta) (turn : Turn)
    → length es ≤ u64_max
    → IsOn es r
    → Commits es r meta turn (committed r meta turn)
unfolding committed
committed-IsOn es r meta turn word o =
    let actual : TraceEntry = record { meta = meta; turn = turn } in
    elim (Bool-cases r.awaiting_commit) [
      | inr free ↦ (
        r,
        err (unexpected_commit r.position actual),
        simp (committed, free),
        o,
        append-nil (take r.cursor es),
      )
      | inl waits ↦
          let ahead : r.cursor < length es = elim o.awaits [ inl free ↦ absurd (cc) | inr h ↦ h ] in
          let (entry, found) = get_elem?-lt es r.cursor ahead in
          let next : expected r ≡ some entry = ap (λ xs. get_elem? xs r.cursor) o.entries ∙ found in
          elim (Bool-cases (entry_eq actual entry)) [
            | inr other ↦ (
              r,
              err (other_commit r.position entry actual),
              simp (committed, waits, next, other),
              o,
              append-nil (take r.cursor es),
            )
            | inl same ↦
                let entered = entry_eq-eq actual entry same in
                let fits : leb (r.cursor + 1) u64_max ≡ true = ground arith in
                let counted = o.counted in
                let next_cursor : suc r.cursor ≡ r.cursor + 1 = omega arith in
                let fits' : leb (r.position + 1) u64_max ≡ true = ground arith in
                (
                  record r {
                    cursor = r.cursor + 1;
                    position = r.position + 1;
                    awaiting_commit = false;
                  },
                  ok tt,
                  simp (committed, waits, next, same, fits, fits'),
                  record {
                    entries = o.entries;
                    counted = omega arith;
                    within = omega arith;
                    awaits = inl refl;
                  },
                  subst (λ k. take r.cursor es ++ (actual ∷ []) ≡ take k es) next_cursor
                      (take-next es r.cursor actual (found ∙ ap some (sym entered))),
                )
          ]
    ]

-- The end of a replay: complete after the whole trace, and otherwise in the middle of an action or
-- short of the trace.
abbrev pub Finishes : List TraceEntry → Replay → List TraceEntry → Type 0
Finishes es r log =
    ((finished r ≡ ok tt) × (log ≡ es))
    ⊎ ((divergence : ReplayDivergence) × (finished r ≡ err divergence)
        × ((r.awaiting_commit ≡ true) ⊎ (length log < length es)))

abbrev Follows : List TraceEntry → List TraceEntry → Outcome (Replay × List TraceEntry) → Type 0
Follows es before out =
    (r : Replay) × (log : List TraceEntry) × (out ≡ returns (r, log))
    × (before ++ log ≡ take r.cursor es)
    × IsOn es r

follow-Follows :
    (es : List TraceEntry) (r : Replay) (calls : List Call)
    → length es ≤ u64_max
    → IsOn es r
    → Follows es (take r.cursor es) (follow r calls)
unfolding follow
follow-Follows es r [] word o = (r, [], refl, append-nil (take r.cursor es), o)
follow-Follows es r (chooses moment ready ∷ calls) word o =
    let (stays, same) = choose-Stays es r moment ready o in
    let (r', log, e, logged, o') = follow-Follows es (choose r moment ready).0 calls word stays in
    (r', log, e, subst (λ n. take n es ++ log ≡ take r'.cursor es) same logged, o')
follow-Follows es r (commits meta turn ∷ calls) word o =
    let (m, a, e, on, moved) = committed-IsOn es r meta turn word o in
    let (r', log, e', logged, o') = follow-Follows es m calls word on in
    (
      r',
      accepted meta turn a ++ log,
      rw (e, e') refl,
      sym (append_assoc (take r.cursor es) (accepted meta turn a) log)
          ∙ (ap (λ xs. xs ++ log) moved ∙ logged),
      o',
    )

finished-Finishes :
    (es : List TraceEntry) (r : Replay) (log : List TraceEntry)
    → log ≡ take r.cursor es
    → IsOn es r
    → Finishes es r log
unfolding finished
finished-Finishes es r log logged o = elim (Bool-cases r.awaiting_commit) [
  | inl waits ↦ inr (pending_commit r.position, simp (finished, waits), inl waits)
  | inr free ↦
      let size : length r.entries ≡ length es = ap length o.entries in
      let within = o.within in
      elim (Bool-cases (remaining r == 0)) [
        | inl whole ↦
            let end : r.cursor ≡ length es = ground arith in
            inl (simp (finished, free, whole), logged ∙ take-all es r.cursor end)
        | inr short ↦
            let took = length-take r.cursor es in
            let size_log : length log ≡ length (take r.cursor es) = ap length logged in
            let left : length log < length es = ground arith in
            inr (trace_remaining r.position (remaining r), simp (finished, free, short), inr left)
      ]
]

-- Whatever choices and commits a replay of a trace is asked for, it does not panic, and the commits
-- that it accepts are the first entries of the trace, in order. It finishes when they are the whole
-- trace, and otherwise it is a divergence: a choice that is not committed, or a trace that is not
-- exhausted. The trace has no more entries than a `usize` counts.
pub follow-trace :
    (es : List TraceEntry) (calls : List Call)
    → length es ≤ u64_max
    → (r : Replay) × (log : List TraceEntry) × (follow (from_entries es) calls ≡ returns (r, log))
      × (log ≡ take r.cursor es)
      × Finishes es r log
follow-trace es calls word =
    let (r, log, e, logged, o) =
      follow-Follows es (from_entries es) calls word
        (record { entries = refl; counted = refl; within = omega arith; awaits = inl refl }) in
    (r, log, e, logged, finished-Finishes es r log logged o)
