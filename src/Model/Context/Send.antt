-- ===== src/Model/Context/Send.antt =====
-- The sends of an action (crates/calandria-sim/src/model/context/send.rs) keep its transaction.
use calandria.Prelude.{
  ℕ, ◌+◌, ◌≤◌, ◌<◌, ◌≡◌, ◌∙◌, refl, sym, ap, some, [], ◌∷◌, ◌++◌, sum_by-append, inl, inr, arith,
  Bool-cases, Option-cases, Outcome, returns, ◌>>=◌, Result, ok, err, ltb, leb,
}
use calandria.Words.{u64_max}
use calandria.Time.Moment.{Moment}
use calandria.Time.Moment
use calandria.Retained.{RetainedBytes}
use calandria.Timeline.{Timeline, Entry, EventToken, schedule_at}
use calandria.Timeline.Transaction.{token_of}
use calandria.Model.{
  Routed, SendError, SendFailure, effect_capacity, retained_byte_overflow, retained_byte_capacity,
  unknown_target, target_stopped, time_overflow, beyond_time_limit, timeline_refused,
}
use calandria.Model.Topology.{includes, contains}
use calandria.Model.Context.{
  ActionContext, ActionContextLimits, admit, validate_target, send_at, send_after, record_send,
}
use calandria.Model.Context.Undo.{stage, IsUndoable-schedules}
use calandria.Model.Context.Ledger.{IsOpen, StaysOpen, insert_token-last, inserted_of}

module _ {ℓ κ} {E : Type ℓ} {O : Type κ} (retained_bytes : E → RetainedBytes)
    (observed_bytes : O → RetainedBytes) (t : Timeline (Routed E)) (limits : ActionContextLimits)
    (measured : (r : Routed E) → t.measure r ≡ retained_bytes r.event) where
  refuse_send-IsOpen :
      (c : ActionContext E O) (event : E) (failure : SendFailure)
      (r : Outcome (ActionContext E O × Result EventToken (SendError E)))
      → IsOpen observed_bytes t limits c
      → r ≡ returns (c, err (record { event = event; failure = failure }))
      → StaysOpen observed_bytes t limits r
  refuse_send-IsOpen c event failure r o e =
      (c, err (record { event = event; failure = failure }), e, o)

  admitted-IsOpen :
      (c : ActionContext E O) (target at : ℕ) (event : E)
      → IsOpen observed_bytes t limits c
      → c.effects < limits.effects
      → c.effect_bytes + retained_bytes event ≤ limits.effect_bytes
      → StaysOpen observed_bytes t limits (
          schedule_at c.timeline at
            (record { target = target; cause = some c.action; event = event })
          >>= λ out.
              record_send c (retained_bytes event) (c.effect_bytes + retained_bytes event) out)
  unfolding record_send
  admitted-IsOpen c target at event o room fits =
      let routed : Routed E = record { target = target; cause = some c.action; event = event } in
      elim (IsUndoable-schedules t o.next o.events o.ins o.rem at routed o.undo) [
        | inl (failure, e) ↦ (
          record c { timeline = stage t o.next o.events },
          err (record { event = event; failure = timeline_refused failure }),
          rw (o.timeline, e) refl,
          record {
            next = o.next;
            events = o.events;
            ins = o.ins;
            rem = o.rem;
            timeline = refl;
            undo = o.undo;
            inserted = o.inserted;
            removed = o.removed;
            uncommitted = o.uncommitted;
            limited = o.limited;
            effects = o.effects;
            exact = o.exact;
            within = o.within;
            observations = o.observations;
            observed = o.observed;
            observed_within = o.observed_within;
          },
        )
        | inr (new, events, next, e, weighed, older, undo) ↦
            let bytes : new.retained ≡ retained_bytes event = weighed ∙ measured routed in
            let last = insert_token-last t.id new o.ins older in
            (
              record c {
                timeline = stage t next events;
                effects = c.effects + 1;
                effect_bytes = c.effect_bytes + retained_bytes event;
                inserted = inserted_of t.id (o.ins ++ (new ∷ []));
              },
              ok (token_of t.id new),
              rw (o.timeline, e, o.inserted, sym bytes, last) refl,
              record {
                next = next;
                events = events;
                ins = o.ins ++ (new ∷ []);
                rem = o.rem;
                timeline = refl;
                undo = undo;
                inserted = refl;
                removed = o.removed;
                uncommitted = o.uncommitted;
                limited = o.limited;
                effects = omega (arith, room);
                exact = omega (
                  arith,
                  o.exact,
                  bytes,
                  sum_by-append (λ (x : Entry (Routed E)). x.retained) o.ins (new ∷ []),
                );
                within = fits;
                observations = o.observations;
                observed = o.observed;
                observed_within = o.observed_within;
              },
            )
      ]

  admit-IsOpen :
      (c : ActionContext E O) (target at : ℕ) (event : E)
      → IsOpen observed_bytes t limits c
      → c.effects < limits.effects
      → StaysOpen observed_bytes t limits (admit retained_bytes c target at event)
  unfolding admit
  admit-IsOpen c target at event o room =
      elim (Bool-cases (leb (c.effect_bytes + retained_bytes event) u64_max)) [
        | inr wraps ↦
            refuse_send-IsOpen c event
              (retained_byte_overflow c.effect_bytes (retained_bytes event)) _ o
              (rw (admit, wraps) refl)
        | inl fits ↦
            elim (Bool-cases (ltb c.limits.effect_bytes (c.effect_bytes + retained_bytes event))) [
              | inl over ↦
                  refuse_send-IsOpen c event
                    (retained_byte_capacity c.limits.effect_bytes c.effect_bytes
                      (retained_bytes event))
                    _ o (rw (admit, fits, over) refl)
              | inr within ↦
                  let bounded : limits.effect_bytes ≡ c.limits.effect_bytes =
                    ap (λ l. l.effect_bytes) (sym o.limited) in
                  rw (admit, fits, within) (admitted-IsOpen c target at event o room (ground arith))
            ]
      ]

  pub send_at-IsOpen :
      (c : ActionContext E O) (target at : ℕ) (event : E)
      → IsOpen observed_bytes t limits c
      → StaysOpen observed_bytes t limits (send_at retained_bytes c target at event)
  unfolding validate_target
  send_at-IsOpen c target at event o = elim (Bool-cases (leb c.limits.effects c.effects)) [
    | inl full ↦ refuse_send-IsOpen c event (effect_capacity c.limits.effects) _ o (rw full refl)
    | inr room ↦ elim (Bool-cases (contains c.topology target)) [
      | inr unknown ↦
          refuse_send-IsOpen c event (unknown_target target) _ o (rw (room, unknown) refl)
      | inl known ↦ elim (Bool-cases (includes c.stopped target)) [
        | inl gone ↦
            refuse_send-IsOpen c event (target_stopped target) _ o (rw (room, known, gone) refl)
        | inr there ↦ elim (Bool-cases (ltb c.limits.max_time at)) [
          | inl late ↦
              refuse_send-IsOpen c event (beyond_time_limit at c.limits.max_time) _ o
                (rw (room, known, there, late) refl)
          | inr timely ↦
              let bounded : limits.effects ≡ c.limits.effects =
                ap (λ l. l.effects) (sym o.limited) in
              rw (room, known, there, timely) (admit-IsOpen c target at event o (ground arith))
        ]
      ]
    ]
  ]

  pub send_after-IsOpen :
      (c : ActionContext E O) (target delay : ℕ) (event : E)
      → IsOpen observed_bytes t limits c
      → StaysOpen observed_bytes t limits (send_after retained_bytes c target delay event)
  unfolding send_after
  send_after-IsOpen c target delay event o = elim (Option-cases (Moment.checked_add c.now delay)) [
    | inl overflow ↦
        refuse_send-IsOpen c event (time_overflow c.now delay) _ o (rw (send_after, overflow) refl)
    | inr (at, sum) ↦ rw (send_after, sum) (send_at-IsOpen c target at event o)
  ]
