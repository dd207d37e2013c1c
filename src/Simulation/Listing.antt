-- ===== src/Simulation/Listing.antt =====
-- The ready set of a simulation (crates/calandria-sim/src/simulation/step.rs, `build_ready`) is of
-- duties of the topology.
use calandria.Prelude.{
  ◌≡◌, refl, subst, sym, some, true, List, [], ◌∷◌, ◌++◌, map, ◌==◌, Result, ok, err, Outcome,
  returns, All, All-append, Removes, here, there, ◌⊎◌, inl, inr, arith, Bool-cases,
}
use calandria.Time.Moment.{Moment}
use calandria.Timeline.{Entry}
use calandria.Timeline.Transaction.{token_of, event, entries_at, tokens_at}
use calandria.Timeline.Invariant.{IsValid}
use calandria.Timeline.Rollback.{event-own}
use calandria.Model.{DutyId, Routed}
use calandria.Model.Topology
use calandria.Model.Topology.{Topology, includes}
use calandria.Action.{ActionKey, ReadySet, delivery, action_lt, action_eq, action_eq-eq, contains}
use calandria.Simulation.{
  Simulation, DutyState, KernelFailure, unknown_delivery_target, delivery_targets_stopped,
}
use calandria.Simulation.Ready.{
  place_action, sort_actions, dedup_from, dedup, runnable_at, turns_at, deliveries, build_ready,
}

module _ {ℓ} (P : ActionKey → Type ℓ) where
  place_action-All :
      (a : ActionKey) (bs : List ActionKey) → P a → All P bs → All P (place_action a bs)
  unfolding place_action
  place_action-All a [] p ps = (p, tt)
  place_action-All a (b ∷ bs) p ps = elim (Bool-cases (action_lt b a)) [
    | inl before ↦ rw before (ps.0, place_action-All a bs p ps.1)
    | inr after ↦ rw after (p, ps)
  ]

  sort_actions-All : (bs : List ActionKey) → All P bs → All P (sort_actions bs)
  unfolding sort_actions
  sort_actions-All [] ps = tt
  sort_actions-All (b ∷ bs) ps =
      place_action-All b (sort_actions bs) ps.0 (sort_actions-All bs ps.1)

  dedup_from-All : (a : ActionKey) (bs : List ActionKey) → P a → All P bs → All P (dedup_from a bs)
  unfolding dedup_from
  dedup_from-All a [] p ps = (p, tt)
  dedup_from-All a (b ∷ bs) p ps = elim (Bool-cases (action_eq a b)) [
    | inl same ↦ rw same (dedup_from-All a bs p ps.1)
    | inr apart ↦ rw apart (p, dedup_from-All b bs ps.0 ps.1)
  ]

  dedup-All : (bs : List ActionKey) → All P bs → All P (dedup bs)
  unfolding dedup
  dedup-All [] ps = tt
  dedup-All (b ∷ bs) ps = dedup_from-All b bs ps.0 ps.1

  pub contains-All :
      (ready : ReadySet) (a : ActionKey) → All P ready → contains ready a ≡ true → P a
  unfolding contains
  contains-All [] a ps h = cc
  contains-All (b ∷ bs) a ps h = elim (Bool-cases (action_eq b a)) [
    | inl same ↦ subst P (action_eq-eq b a same) ps.0
    | inr apart ↦ contains-All bs a ps.1 (rw apart at h)
  ]

includes-weaken :
    (x : DutyId) (ds es : List DutyId)
    → All (λ d. includes ds d ≡ true) es
    → All (λ d. includes (x ∷ ds) d ≡ true) es
unfolding includes
includes-weaken x ds [] a = tt
includes-weaken x ds (e ∷ es) a = (ground (arith, a.0), includes-weaken x ds es a.1)

includes-all : (ds : List DutyId) → All (λ d. includes ds d ≡ true) ds
unfolding includes
includes-all [] = tt
includes-all (d ∷ ds) = (ground arith, includes-weaken d ds ds (includes-all ds))

turns_at-All {ℓ} :
    (P : DutyId → Type ℓ) (states : List (DutyId × DutyState)) (moment : Moment)
    → All P (map (λ p. p.0) states)
    → All (λ a. P a.duty) (turns_at states moment)
unfolding turns_at
turns_at-All P [] moment a = tt
turns_at-All P (p ∷ ps) moment a = elim (Bool-cases (runnable_at p.1.next moment)) [
  | inl runs ↦ rw runs (a.0, turns_at-All P ps moment a.1)
  | inr waits ↦ rw waits (turns_at-All P ps moment a.1)
]

module _ {ℓ} {E : Type ℓ} where
  All-Removes {κ} :
      (P : Entry E → Type κ) (xs : List (Entry E))
      → ((e : Entry E) (rest : List (Entry E)) → Removes e xs rest → P e)
      → All P xs
  All-Removes P [] h = tt
  All-Removes P (x ∷ xs) h = (h x xs here, All-Removes P xs (λ e rest r. h e (x ∷ rest) (there r)))

  entries_at-All {κ} :
      (P : Entry E → Type κ) (at : Moment) (xs : List (Entry E))
      → All P xs
      → All P (entries_at at xs)
  unfolding entries_at
  entries_at-All P at [] a = tt
  entries_at-All P at (x ∷ xs) a = elim (Bool-cases (x.at == at)) [
    | inl same ↦ rw same (a.0, entries_at-All P at xs a.1)
    | inr other ↦ rw other (entries_at-All P at xs a.1)
  ]

module _ {ℓ} {M E S N : Type ℓ} where
  abbrev InTopology : Simulation M E S N → ActionKey → Type 0
  InTopology s a = includes s.topology.duties a.duty ≡ true

  -- A failure, or keys of duties of the topology.
  abbrev pub Lists : Simulation M E S N → Outcome (Result (List ActionKey) KernelFailure) → Type 0
  Lists s r =
      ((failure : KernelFailure) × (r ≡ returns (err failure)))
      ⊎ ((keys : List ActionKey) × (r ≡ returns (ok keys)) × All (InTopology s) keys)

  deliveries-Lists :
      (s : Simulation M E S N) (es : List (Entry (Routed E)))
      → All (λ e. event s.timeline (token_of s.timeline.id e) ≡ some e.event) es
      → Lists s (deliveries s (map (token_of s.timeline.id) es))
  unfolding deliveries
  deliveries-Lists s [] a = inr ([], refl, tt)
  deliveries-Lists s (e ∷ es) a = elim (Bool-cases (Topology.contains s.topology e.event.target)) [
    | inr unknown ↦
        inl (
          unknown_delivery_target (token_of s.timeline.id e) e.event.target,
          rw (a.0, unknown) refl,
        )
    | inl known ↦ elim (Bool-cases (includes s.stopped e.event.target)) [
      | inl gone ↦ inl (
        delivery_targets_stopped (token_of s.timeline.id e) e.event.target,
        rw (a.0, known, gone) refl,
      )
      | inr live ↦ elim (deliveries-Lists s es a.1) [
        | inl (failure, stops) ↦ inl (failure, rw (a.0, known, live, stops) refl)
        | inr (keys, lists, all) ↦ inr (
          record { duty = e.event.target; kind = delivery (token_of s.timeline.id e) } ∷ keys,
          rw (a.0, known, live, lists) refl,
          (known, all),
        )
      ]
    ]
  ]

  pub build_ready-Lists :
      (s : Simulation M E S N)
      → IsValid s.timeline
      → map (λ p. p.0) s.states ≡ s.topology.duties
      → Lists s (build_ready s)
  unfolding build_ready tokens_at
  build_ready-Lists s v owners =
      let moment = s.timeline.clock in
      let held = entries_at-All _ moment s.timeline.events (
        All-Removes (λ e. event s.timeline (token_of s.timeline.id e) ≡ some e.event)
          s.timeline.events (λ e rest r. event-own s.timeline e rest v r)) in
      elim (deliveries-Lists s (entries_at moment s.timeline.events) held) [
        | inl (failure, stops) ↦ inl (failure, rw stops refl)
        | inr (keys, lists, all) ↦
            let known =
              subst (All (λ d. includes s.topology.duties d ≡ true)) (sym owners)
                (includes-all s.topology.duties) in
            let turns =
              turns_at-All (λ d. includes s.topology.duties d ≡ true) s.states moment known in
            inr (
              dedup (sort_actions (keys ++ turns_at s.states moment)),
              rw lists refl,
              dedup-All (InTopology s) _
                  (sort_actions-All (InTopology s) _ (All-append (InTopology s) keys _ all turns)),
            )
      ]
