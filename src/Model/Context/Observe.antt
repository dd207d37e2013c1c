-- ===== src/Model/Context/Observe.antt =====
-- The observations of an action (crates/calandria-sim/src/model/context/observation.rs) keep its
-- transaction.
use calandria.Prelude.{
  ◌+◌, ◌≡◌, refl, sym, ap, [], ◌∷◌, ◌++◌, length, sum_by-append, length-append, inl, inr, arith,
  Bool-cases, Result, ok, err, ltb, leb,
}
use calandria.Words.{u64_max}
use calandria.Retained.{RetainedBytes}
use calandria.Timeline.{Timeline}
use calandria.Model.{
  Routed, ObservationFailure, observation_capacity, observation_byte_overflow,
  observation_byte_capacity, ObservationError,
}
use calandria.Model.Context.{ActionContext, ActionContextLimits, observe}
use calandria.Model.Context.Ledger.{IsOpen}

module _ {ℓ κ} {E : Type ℓ} {O : Type κ} (observed_bytes : O → RetainedBytes)
    (t : Timeline (Routed E)) (limits : ActionContextLimits) where
  abbrev pub Observes : ActionContext E O × Result (Unit {0}) (ObservationError O) → Type (ℓ ⊔ κ)
  Observes r =
      (c' : ActionContext E O) × (a : Result (Unit {0}) (ObservationError O)) × (r ≡ (c', a))
      × IsOpen observed_bytes t limits c'

  refused_observation-IsOpen :
      (c : ActionContext E O) (observation : O) (failure : ObservationFailure)
      (r : ActionContext E O × Result (Unit {0}) (ObservationError O))
      → IsOpen observed_bytes t limits c
      → r ≡ (c, err (record { observation = observation; failure = failure }))
      → Observes r
  refused_observation-IsOpen c observation failure r o e =
      (c, err (record { observation = observation; failure = failure }), e, o)

  pub observe-IsOpen :
      (c : ActionContext E O) (observation : O)
      → IsOpen observed_bytes t limits c
      → Observes (observe observed_bytes c observation)
  unfolding observe
  observe-IsOpen c observation o =
      elim (Bool-cases (leb c.limits.observations (length c.observations))) [
        | inl full ↦
            refused_observation-IsOpen c observation (observation_capacity c.limits.observations) _
              o (rw (observe, full) refl)
        | inr room ↦
            elim (Bool-cases (leb (c.observation_bytes + observed_bytes observation) u64_max)) [
              | inr wraps ↦
                  refused_observation-IsOpen c observation
                    (observation_byte_overflow c.observation_bytes (observed_bytes observation)) _ o
                    (rw (observe, room, wraps) refl)
              | inl fits ↦
                  elim (Bool-cases (
                    ltb c.limits.observation_bytes
                      (c.observation_bytes + observed_bytes observation))) [
                        | inl over ↦
                            refused_observation-IsOpen c observation
                              (observation_byte_capacity c.limits.observation_bytes
                                c.observation_bytes (observed_bytes observation))
                              _ o (rw (observe, room, fits, over) refl)
                        | inr within ↦
                            let bounded : limits.observation_bytes ≡ c.limits.observation_bytes =
                              ap (λ l. l.observation_bytes) (sym o.limited) in
                            let many : limits.observations ≡ c.limits.observations =
                              ap (λ l. l.observations) (sym o.limited) in
                            let more = length-append c.observations (observation ∷ []) in
                            (
                              record c {
                                observations = c.observations ++ (observation ∷ []);
                                observation_bytes =
                                    c.observation_bytes + observed_bytes observation;
                              },
                              ok tt,
                              rw (observe, room, fits, within) refl,
                              record {
                                next = o.next;
                                events = o.events;
                                ins = o.ins;
                                rem = o.rem;
                                timeline = o.timeline;
                                undo = o.undo;
                                inserted = o.inserted;
                                removed = o.removed;
                                uncommitted = o.uncommitted;
                                limited = o.limited;
                                effects = o.effects;
                                exact = o.exact;
                                within = o.within;
                                observations = ground (arith, more);
                                observed = omega (
                                  arith,
                                  o.observed,
                                  sum_by-append observed_bytes c.observations (observation ∷ []),
                                );
                                observed_within = ground arith;
                              },
                            )
                      ]
            ]
      ]
