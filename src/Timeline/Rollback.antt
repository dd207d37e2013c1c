-- ===== src/Timeline/Rollback.antt =====
-- Taking an event out of a timeline by its token and putting it back
-- (crates/calandria-sim/src/timeline/owner.rs and transaction.rs).
use calandria.Prelude.{
  ◌+◌, ◌-◌, ◌≤◌, ◌≡◌, refl, sym, Option, none, some, List, length, Removes, Removes-length,
  Removes-All, ◌⊎◌, inl, inr, arith, Bool-cases, Outcome, returns, ltb, leb, ◌==◌, true, false,
}
use calandria.Words.{u64_max}
use calandria.Timeline.{Timeline, Entry, EventToken, cancel, key_eq}
use calandria.Timeline.Transaction.{token_of, retained_for, event, restore, restore_into}
use calandria.Timeline.Order.{take_key-Removes, take_key-own, insert-own}
use calandria.Timeline.Invariant.{IsValid, removed-IsValid}

module _ {ℓ} {E : Type ℓ} where
  abbrev pub without : Timeline E → Entry E → List (Entry E) → Timeline E
  without t e rest = record t { retained = t.retained - e.retained; events = rest }

  token_of-named :
      (t : Timeline E) (e : Entry E) (token : EventToken)
      → token.timeline ≡ t.id
      → key_eq token.at token.id e.at e.id ≡ true
      → token ≡ token_of t.id e
  token_of-named t e token own named =
      let same_at : token.at ≡ e.at = ground arith in
      let same_id : token.id ≡ e.id = ground arith in let i = own in cc

  pub retained_for-own :
      (t : Timeline E) (e : Entry E) (rest : List (Entry E))
      → IsValid t
      → Removes e t.events rest
      → retained_for t (token_of t.id e) ≡ some e.retained
  unfolding retained_for
  retained_for-own t e rest v r =
      let mine : (t.id == t.id) ≡ true = ground arith in rw (mine, take_key-own e r v.sorted) refl

  pub retained_for-cases :
      (t : Timeline E) (token : EventToken)
      → token.timeline ≡ t.id
      → (retained_for t token ≡ none)
        ⊎ ((e : Entry E) × (rest : List (Entry E)) × (retained_for t token ≡ some e.retained)
            × (token ≡ token_of t.id e)
            × Removes e t.events rest)
  unfolding retained_for
  retained_for-cases t token own =
      let mine : (token.timeline == t.id) ≡ true = ground arith in
      elim (take_key-Removes token.at token.id t.events) [
        | inl (missing, all) ↦ inl (rw (mine, missing) refl)
        | inr (e, rest, found, named, r) ↦
            inr (e, rest, rw (mine, found) refl, token_of-named t e token own named, r)
      ]

  pub cancel-own :
      (t : Timeline E) (e : Entry E) (rest : List (Entry E))
      → IsValid t
      → Removes e t.events rest
      → (cancel t (token_of t.id e) ≡ returns (without t e rest, some e.event))
        × IsValid (without t e rest)
  unfolding cancel
  cancel-own t e rest v r =
      let (enough, valid) = removed-IsValid t e rest v r in
      let mine : (t.id == t.id) ≡ true = ground arith in
      (rw (mine, take_key-own e r v.sorted) (ground (arith, enough)), valid)

  -- An event is restored where there was one of its key, and of its bytes.
  pub restore-own :
      (t : Timeline E) (e : Entry E) (all : List (Entry E))
      → Removes e all t.events
      → e.retained ≡ t.measure e.event
      → IsValid (record t { retained = t.retained + e.retained; events = all })
      → t.limits.retained_bytes ≤ u64_max
      → restore t (token_of t.id e) e.event
        ≡ returns (record t { retained = t.retained + e.retained; events = all })
  unfolding restore restore_into
  restore-own t e all r measured v word =
      let mine : (t.id == t.id) ≡ true = ground arith in
      let ahead = (Removes-All (λ (x : Entry E). t.clock ≤ x.at) r v.future).0 in
      let future : ltb e.at t.clock ≡ false = ground arith in
      let counted : leb t.limits.pending_events (length t.events) ≡ false =
        ground (arith, v.counted, Removes-length r) in
      let fits : leb (t.retained + t.measure e.event) u64_max ≡ true = ground (arith, v.within) in
      let within : ltb t.limits.retained_bytes (t.retained + t.measure e.event) ≡ false =
        ground (arith, v.within) in
      rw (mine, future, counted, fits, within, sym measured, insert-own e r v.sorted) refl

  pub event-own :
      (t : Timeline E) (e : Entry E) (rest : List (Entry E))
      → IsValid t
      → Removes e t.events rest
      → event t (token_of t.id e) ≡ some e.event
  unfolding event
  event-own t e rest v r =
      let mine : (t.id == t.id) ≡ true = ground arith in rw (mine, take_key-own e r v.sorted) refl

  -- What a cancellation comes to.
  abbrev pub Cancels : Timeline E → Outcome (Timeline E × Option E) → Type ℓ
  Cancels t r =
      (r ≡ returns (t, none))
      ⊎ ((e : Entry E) × (rest : List (Entry E)) × (r ≡ returns (without t e rest, some e.event))
          × Removes e t.events rest
          × IsValid (without t e rest))

  pub cancel-Cancels :
      (t : Timeline E) (token : EventToken) → IsValid t → Cancels t (cancel t token)
  unfolding cancel
  cancel-Cancels t token v = elim (Bool-cases (token.timeline == t.id)) [
    | inr other ↦ inl (rw other refl)
    | inl own ↦ elim (take_key-Removes token.at token.id t.events) [
      | inl (missing, all) ↦ inl (rw (own, missing) refl)
      | inr (e, rest, found, named, r) ↦
          let (enough, valid) = removed-IsValid t e rest v r in
          inr (e, rest, rw (own, found) (ground (arith, enough)), r, valid)
    ]
  ]
