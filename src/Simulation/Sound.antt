-- ===== src/Simulation/Sound.antt =====
-- What a simulation (crates/calandria-sim/src/simulation) keeps true, and the timeline that an action's
-- context or a cancellation leaves.
use calandria.Prelude.{
  ◌≤◌, ◌≡◌, refl, subst, sym, ap, Option, none, some, Bool, true, List, [], ◌∷◌, map, ◌==◌, ◌&&◌,
  not, Result, ok, err, returns, All, Removes-All, inl, inr, Bool-cases,
}
use calandria.Words.{u64_max}
use calandria.Turn.{Turn}
use calandria.Retained.{RetainedBytes}
use calandria.Timeline.{Timeline, Entry, EventToken}
use calandria.Timeline
use calandria.Timeline.Invariant.{IsValid}
use calandria.Timeline.Rollback.{without, cancel-Cancels}
use calandria.Model.{DutyId, Routed}
use calandria.Model.Topology.{Topology, includes}
use calandria.Model.Context.{ActionContext, ActionContextLimits, drop_context, pending_for}
use calandria.Model.Context.Undo.{IsUndoable-weighed}
use calandria.Model.Context.Ledger.{IsOpen, drop_context-IsOpen}
use calandria.Simulation.{Simulation, DutyState, KernelFailure, stopped_with_pending}
use calandria.Simulation.Execute.{is_stop, next_state, update_state, commit_context}

module _ {ℓ} {E : Type ℓ} (event_bytes : E → RetainedBytes) where
  -- A valid timeline that measures as the model does, and whose entries hold their measures.
  pub record IsMeasured (t : Timeline (Routed E)) : Type ℓ where
    pub valid : IsValid t
    pub measured : (r : Routed E) → t.measure r ≡ event_bytes r.event
    pub weighed : All (λ e. e.retained ≡ t.measure e.event) t.events
    pub word : t.limits.retained_bytes ≤ u64_max

  pub record IsSoundParts (t : Timeline (Routed E)) (states : List (DutyId × DutyState))
      (topology : Topology) : Type ℓ where
    pub timeline : IsMeasured t
    pub owners : map (λ p. p.0) states ≡ topology.duties

  abbrev pub IsSound : {M S N : Type ℓ} → Simulation M E S N → Type ℓ
  IsSound s = IsSoundParts s.timeline s.states s.topology

  -- A timeline after the one before it, at the same moment.
  abbrev pub Follows : Timeline (Routed E) → Timeline (Routed E) → Type ℓ
  Follows t t' = IsMeasured t' × (t'.clock ≡ t.clock)

  pub dropped-Follows :
      {O : Type ℓ} (observed_bytes : O → RetainedBytes) (t : Timeline (Routed E))
      (limits : ActionContextLimits) (c : ActionContext E O)
      → IsMeasured t
      → IsOpen observed_bytes t limits c
      → (t' : Timeline (Routed E)) × (drop_context c ≡ returns t') × Follows t t'
  dropped-Follows observed_bytes t limits c m o =
      let (next, undone, valid) =
        drop_context-IsOpen observed_bytes t limits c o m.weighed m.word in
      (
        record t { next_id = next },
        undone,
        (record { valid = valid; measured = m.measured; weighed = m.weighed; word = m.word }, refl),
      )

  stage-Follows :
      {O : Type ℓ} (observed_bytes : O → RetainedBytes) (t : Timeline (Routed E))
      (limits : ActionContextLimits) (c : ActionContext E O)
      → IsMeasured t
      → IsOpen observed_bytes t limits c
      → Follows t c.timeline
  stage-Follows observed_bytes t limits c m o = subst (Follows t) (sym o.timeline) (
    record {
      valid = o.undo.now;
      measured = m.measured;
      weighed = IsUndoable-weighed t o.next o.events o.ins o.rem o.undo m.weighed;
      word = m.word;
    },
    refl,
  )

  pub commit_context-Follows :
      {O : Type ℓ} (observed_bytes : O → RetainedBytes) (t : Timeline (Routed E))
      (limits : ActionContextLimits) (c : ActionContext E O) (duty : DutyId) (report : Turn)
      → IsMeasured t
      → IsOpen observed_bytes t limits c
      → (t' : Timeline (Routed E)) × (a : Result (List O) KernelFailure) × (commit_context duty
            report c
          ≡ returns (t', a))
        × Follows t t'
  unfolding commit_context drop_context
  commit_context-Follows observed_bytes t limits c duty report m o =
      elim (Bool-cases (is_stop report.next && not (pending_for c duty == 0))) [
        | inl stuck ↦
            let (t', undone, follows) = dropped-Follows observed_bytes t limits c m o in
            (
              t',
              err (stopped_with_pending duty (pending_for c duty)),
              rw (commit_context, stuck, undone) refl,
              follows,
            )
        | inr fine ↦ (
          c.timeline,
          ok c.observations,
          rw (commit_context, fine) refl,
          stage-Follows observed_bytes t limits c m o,
        )
      ]

  -- A cancellation, the event delivered or none.
  pub cancel-Follows :
      (t : Timeline (Routed E)) (token : EventToken)
      → IsMeasured t
      → (t' : Timeline (Routed E)) × (a : Option (Routed E)) × (Timeline.cancel t token
          ≡ returns (t', a))
        × Follows t t'
  cancel-Follows t token m = elim (cancel-Cancels t token m.valid) [
    | inl missing ↦ (t, none, missing, (m, refl))
    | inr (e, rest, found, r, valid) ↦ (
      without t e rest,
      some e.event,
      found,
      (
        record {
          valid = valid;
          measured = m.measured;
          weighed =
              (Removes-All (λ (x : Entry (Routed E)). x.retained ≡ t.measure x.event) r
                m.weighed).1;
          word = m.word;
        },
        refl,
      ),
    )
  ]

pub update_state-known :
    (duty : DutyId) (report : Turn) (by_delivery : Bool) (states : List (DutyId × DutyState))
    → includes (map (λ p. p.0) states) duty ≡ true
    → (states' : List (DutyId × DutyState)) × (update_state duty report by_delivery states
        ≡ some states')
      × (map (λ p. p.0) states' ≡ map (λ p. p.0) states)
unfolding update_state includes
update_state-known duty report by_delivery [] h = cc
update_state-known duty report by_delivery (p ∷ ps) h = elim (Bool-cases (p.0 == duty)) [
  | inl mine ↦ ((p.0, next_state report by_delivery p.1) ∷ ps, rw mine refl, refl)
  | inr other ↦
      let (qs, found, same) = update_state-known duty report by_delivery ps (rw other at h) in
      (p ∷ qs, rw (other, found) refl, ap (λ ds. p.0 ∷ ds) same)
]
