-- ===== src/Model/Context/Cancel.antt =====
-- The cancellations of an action (crates/calandria-sim/src/model/context/cancellation.rs) keep its
-- transaction.
use calandria.Prelude.{
  ◌+◌, ◌-◌, ◌<◌, ◌≡◌, ◌≢◌, ◌∙◌, refl, sym, ap, subst, none, some, List, [], ◌∷◌, ◌++◌,
  sum_by-append, All, Removes, Removes-sum, inl, inr, arith, true, Bool-cases, Outcome, returns,
  Result, ok, err, map-append, ◌==◌, ltb, leb,
}
use calandria.Words.{u64_max}
use calandria.Retained.{RetainedBytes}
use calandria.Timeline.{Timeline, Entry, EventToken}
use calandria.Timeline.Transaction.{token_of, retained_for}
use calandria.Timeline.Rollback.{retained_for-cases, retained_for-own}
use calandria.Model.{
  Routed, CancelFailure, cancel_effect_capacity, foreign_timeline, not_pending,
  cancel_byte_overflow, cancel_byte_capacity,
}
use calandria.Model.Context.{
  ActionContext, ActionContextLimits, cancel, cancel_inserted, cancel_pending, remove_token,
  CancelOutcome,
}
use calandria.Model.Context.Undo.{stage, IsUndoable-cancels_inserted, IsUndoable-cancels_pending}
use calandria.Model.Context.Ledger.{IsOpen, StaysOpen, inserted_of, removed_of, remove_token-cases}

module _ {ℓ κ} {E : Type ℓ} {O : Type κ} (observed_bytes : O → RetainedBytes)
    (t : Timeline (Routed E)) (limits : ActionContextLimits) where
  refuse_cancel-IsOpen :
      (c : ActionContext E O) (failure : CancelFailure)
      (r : Outcome (ActionContext E O × Result (Unit {0}) CancelFailure))
      → IsOpen observed_bytes t limits c
      → r ≡ returns (c, err failure)
      → StaysOpen observed_bytes t limits r
  refuse_cancel-IsOpen c failure r o e = (c, err failure, e, o)

  cancel_inserted-IsOpen :
      (c : ActionContext E O) (o : IsOpen observed_bytes t limits c) (e : Entry (Routed E))
      (rest : List (Entry (Routed E)))
      → c.effects < limits.effects
      → Removes e o.ins rest
      → StaysOpen observed_bytes t limits
          (cancel_inserted c (token_of t.id e) e.retained (inserted_of t.id rest))
  unfolding cancel_inserted
  cancel_inserted-IsOpen c o e rest room r =
      let (events, now, takes, undo) =
        IsUndoable-cancels_inserted t o.next o.events o.ins o.rem e rest o.undo r in
      let sum = Removes-sum (λ (x : Entry (Routed E)). x.retained) r in
      let enough : leb e.retained c.effect_bytes ≡ true = ground (arith, o.exact) in
      (
        record c {
          timeline = stage t o.next events;
          inserted = inserted_of t.id rest;
          effect_bytes = c.effect_bytes - e.retained;
          effects = c.effects + 1;
        },
        ok tt,
        rw (o.timeline, takes.0, enough) refl,
        record {
          next = o.next;
          events = events;
          ins = rest;
          rem = o.rem;
          timeline = refl;
          undo = undo;
          inserted = refl;
          removed = o.removed;
          uncommitted = o.uncommitted;
          limited = o.limited;
          effects = omega (arith, room);
          exact = omega (arith, o.exact);
          within = omega (arith, o.within);
          observations = o.observations;
          observed = o.observed;
          observed_within = o.observed_within;
        },
      )

  cancel_pending-IsOpen :
      (c : ActionContext E O) (o : IsOpen observed_bytes t limits c) (e : Entry (Routed E))
      (rest : List (Entry (Routed E)))
      → c.effects < limits.effects
      → Removes e o.events rest
      → All (λ x. x ≢ e) o.ins
      → StaysOpen observed_bytes t limits (cancel_pending c (token_of t.id e) e.retained)
  unfolding cancel_pending
  cancel_pending-IsOpen c o e rest room r apart =
      let (takes, undo) =
        IsUndoable-cancels_pending t o.next o.events o.ins o.rem e rest o.undo r apart in
      elim (Bool-cases (leb (c.effect_bytes + e.retained) u64_max)) [
        | inr wraps ↦
            refuse_cancel-IsOpen c (cancel_byte_overflow c.effect_bytes e.retained) _ o
              (rw (cancel_pending, wraps) refl)
        | inl fits ↦ elim (Bool-cases (ltb c.limits.effect_bytes (c.effect_bytes + e.retained))) [
          | inl over ↦
              refuse_cancel-IsOpen c
                (cancel_byte_capacity c.limits.effect_bytes c.effect_bytes e.retained) _ o
                (rw (cancel_pending, fits, over) refl)
          | inr within ↦
              let bounded : limits.effect_bytes ≡ c.limits.effect_bytes =
                ap (λ l. l.effect_bytes) (sym o.limited) in
              let last : removed_of t.id o.rem ++ ((token_of t.id e, e.event) ∷ [])
                  ≡ removed_of t.id (o.rem ++ (e ∷ [])) =
                sym (
                  map-append (λ (x : Entry (Routed E)). (token_of t.id x, x.event)) o.rem
                    (e ∷ [])) in
              (
                record c {
                  timeline = stage t o.next rest;
                  removed = removed_of t.id (o.rem ++ (e ∷ []));
                  effect_bytes = c.effect_bytes + e.retained;
                  effects = c.effects + 1;
                },
                ok tt,
                rw (cancel_pending, fits, within, o.timeline, takes.0, o.removed, last) refl,
                record {
                  next = o.next;
                  events = rest;
                  ins = o.ins;
                  rem = o.rem ++ (e ∷ []);
                  timeline = refl;
                  undo = undo;
                  inserted = o.inserted;
                  removed = refl;
                  uncommitted = o.uncommitted;
                  limited = o.limited;
                  effects = omega (arith, room);
                  exact = omega (
                    arith,
                    o.exact,
                    sum_by-append (λ (x : Entry (Routed E)). x.retained) o.rem (e ∷ []),
                  );
                  within = ground arith;
                  observations = o.observations;
                  observed = o.observed;
                  observed_within = o.observed_within;
                },
              )
        ]
      ]

  -- The end of `cancel`, for an event that is pending.
  abbrev cancel_held :
      ActionContext E O
      → EventToken
      → RetainedBytes
      → List (EventToken × RetainedBytes)
      → CancelOutcome E O
  cancel_held c token retained inserted = elim (remove_token token inserted) [
    | some (_, rest) ↦ cancel_inserted c token retained rest
    | none ↦ cancel_pending c token retained
  ]

  held-IsOpen :
      (c : ActionContext E O) (o : IsOpen observed_bytes t limits c) (e : Entry (Routed E))
      (rest : List (Entry (Routed E)))
      → c.effects < limits.effects
      → Removes e o.events rest
      → StaysOpen observed_bytes t limits
          (cancel_held c (token_of t.id e) e.retained (inserted_of t.id o.ins))
  held-IsOpen c o e rest room r = elim (remove_token-cases t.id e o.ins) [
    | inl (missing, apart) ↦
        rw (cancel_held, missing) (cancel_pending-IsOpen c o e rest room r apart)
    | inr (x, left, found, same, i) ↦
        let (events, now, takes, undo) =
          IsUndoable-cancels_inserted t o.next o.events o.ins o.rem x left o.undo i in
        let mine = retained_for-own (stage t o.next o.events) e rest o.undo.now r in
        let its = retained_for-own (stage t o.next o.events) x events o.undo.now now in
        let bytes : e.retained ≡ x.retained =
          let both : some e.retained ≡ some x.retained =
            sym mine ∙ ap (retained_for (stage t o.next o.events)) same ∙ its in
          cc in
        rw (cancel_held, found, bytes, same) (cancel_inserted-IsOpen c o x left room i)
  ]

  pub cancel-IsOpen :
      (c : ActionContext E O) (token : EventToken)
      → IsOpen observed_bytes t limits c
      → StaysOpen observed_bytes t limits (cancel c token)
  unfolding cancel
  cancel-IsOpen c token o = elim (Bool-cases (leb c.limits.effects c.effects)) [
    | inl full ↦ refuse_cancel-IsOpen c (cancel_effect_capacity c.limits.effects) _ o (rw full refl)
    | inr room ↦ elim (Bool-cases (token.timeline == c.timeline.id)) [
      | inr foreign ↦
          refuse_cancel-IsOpen c (foreign_timeline c.timeline.id token.timeline) _ o
            (rw (room, foreign) refl)
      | inl own ↦
          let id : token.timeline ≡ t.id =
            let named : token.timeline ≡ c.timeline.id = ground arith in
            named ∙ ap (λ s. s.id) o.timeline in
          let bounded : limits.effects ≡ c.limits.effects = ap (λ l. l.effects) (sym o.limited) in
          elim (retained_for-cases (stage t o.next o.events) token id) [
            | inl missing ↦
                let gone = subst (λ s. retained_for s token ≡ none) (sym o.timeline) missing in
                refuse_cancel-IsOpen c (not_pending token) _ o (rw (room, own, gone) refl)
            | inr (e, rest, found, named, r) ↦
                let held =
                  subst (λ s. retained_for s token ≡ some e.retained) (sym o.timeline) found in
                rw (room, own, held)
                  (subst (λ i. StaysOpen observed_bytes t limits (cancel_held c token e.retained i))
                    (sym o.inserted)
                    (subst
                      (λ k.
                        StaysOpen observed_bytes t limits
                          (cancel_held c k e.retained (inserted_of t.id o.ins)))
                      (sym named) (held-IsOpen c o e rest (ground arith) r)))
          ]
    ]
  ]
