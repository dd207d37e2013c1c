-- ===== src/Timeline/Invariant.antt =====
-- What a timeline (crates/calandria-sim/src/timeline) keeps true, and that its operations keep it.
use calandria.Prelude.{
  ◌-◌, ◌≤◌, ◌<◌, ◌≡◌, refl, sym, subst, Option, none, some, List, [], ◌∷◌, length, sum_by, All,
  Pairs, Removes, here, Removes-length, Removes-sum, Removes-All, ◌⊎◌, inl, inr, arith, Bool-cases,
  Outcome, returns, ◌==◌,
}
use calandria.Timer.Invariant.{id_bound, IsWord}
use calandria.Timeline.{Timeline, Entry, EventToken, Delivery, cancel, pop_next, advance_to}
use calandria.Timeline.Order.{Before, Removes-sorted, take_key-Removes}

module _ {ℓ} {E : Type ℓ} where
  pub record IsValid (t : Timeline E) : Type ℓ where
    pub counted : length t.events ≤ t.limits.pending_events
    pub exact : t.retained ≡ sum_by (λ e. e.retained) t.events
    pub within : t.retained ≤ t.limits.retained_bytes
    pub fresh : All (λ e. e.id < id_bound t.next_id) t.events
    pub word : IsWord t.next_id
    pub future : All (λ e. t.clock ≤ e.at) t.events
    pub sorted : Pairs Before t.events

  -- What a call comes to that does not move the clock: no panic, and a valid timeline.
  abbrev pub Keeps {κ} : {A : Type κ} → Timeline E → Outcome (Timeline E × A) → Type (ℓ ⊔ κ)
  Keeps {A = A} t r =
      (t' : Timeline E) × (a : A) × (r ≡ returns (t', a)) × IsValid t' × (t'.clock ≡ t.clock)

  pub All-later :
      (e : Entry E) (xs : List (Entry E)) → All (Before e) xs → All (λ x. e.at ≤ x.at) xs
  All-later e [] a = tt
  All-later e (x ∷ xs) a = (ground arith, All-later e xs a.1)

  pub removed-IsValid :
      (t : Timeline E) (e : Entry E) (rest : List (Entry E))
      → IsValid t
      → Removes e t.events rest
      → (e.retained ≤ t.retained)
        × IsValid (record t { retained = t.retained - e.retained; events = rest })
  removed-IsValid t e rest v r =
      let sum = Removes-sum (λ (x : Entry E). x.retained) r in
      (
        omega (arith, v.exact),
        record {
          counted = omega (arith, v.counted, Removes-length r);
          exact = omega (arith, v.exact);
          within = omega (arith, v.within);
          fresh = (Removes-All (λ (x : Entry E). x.id < id_bound t.next_id) r v.fresh).1;
          word = v.word;
          future = (Removes-All (λ (x : Entry E). t.clock ≤ x.at) r v.future).1;
          sorted = Removes-sorted r v.sorted;
        },
      )

  pub cancel-Keeps : (t : Timeline E) (token : EventToken) → IsValid t → Keeps t (cancel t token)
  unfolding cancel
  cancel-Keeps t token v = elim (Bool-cases (token.timeline == t.id)) [
    | inr other ↦ (t, none, rw other refl, v, refl)
    | inl own ↦ elim (take_key-Removes token.at token.id t.events) [
      | inl (missing, all) ↦ (t, none, rw (own, missing) refl, v, refl)
      | inr (e, rest, found, named, r) ↦
          let (enough, valid) = removed-IsValid t e rest v r in
          (
            record t { retained = t.retained - e.retained; events = rest },
            some e.event,
            rw (own, found) (ground (arith, enough)),
            valid,
            refl,
          )
    ]
  ]

  -- What a pop comes to: it finds none where nothing is pending, and otherwise takes out the first
  -- event, at whose moment the clock then stands.
  abbrev pub PopsNext : Timeline E → Outcome (Timeline E × Option (Delivery E)) → Type ℓ
  PopsNext t r =
      ((r ≡ returns (t, none)) × (t.events ≡ []))
      ⊎ ((e : Entry E) × (rest : List (Entry E)) × (t' : Timeline E) × (r
            ≡ returns (
              t',
              some (record {
                token = record { timeline = t.id; id = e.id; at = e.at };
                event = e.event;
              }),
            ))
          × (t.events ≡ e ∷ rest)
          × (t'.events ≡ rest)
          × (t'.clock ≡ e.at)
          × (t.clock ≤ e.at)
          × All (Before e) rest
          × IsValid t')

  pop-head :
      (t : Timeline E) (events : List (Entry E))
      → t.events ≡ events
      → IsValid t
      → PopsNext t (pop_next t)
  unfolding pop_next advance_to
  pop-head t [] none_left v = inl (rw none_left refl, none_left)
  pop-head t (e ∷ rest) pending v =
      let r : Removes e t.events rest = subst (λ xs. Removes e xs rest) (sym pending) here in
      let (enough, valid) = removed-IsValid t e rest v r in
      let ahead = (Removes-All (λ (x : Entry E). t.clock ≤ x.at) r v.future).0 in
      let first : Pairs Before (e ∷ rest) = rw pending at v.sorted in
      inr (
        e,
        rest,
        record t { clock = e.at; retained = t.retained - e.retained; events = rest },
        rw pending (ground (arith, ahead, enough)),
        pending,
        refl,
        refl,
        ahead,
        first.0,
        record {
          counted = valid.counted;
          exact = valid.exact;
          within = valid.within;
          fresh = valid.fresh;
          word = valid.word;
          future = All-later e rest first.0;
          sorted = valid.sorted;
        },
      )

  -- In a valid timeline a pop does not panic: it finds none and changes nothing when nothing is
  -- pending, and otherwise delivers the event that comes first by moment and then by identity, moves
  -- the clock forward to its moment, and leaves a valid timeline of all the others.
  pub pop_next-PopsNext : (t : Timeline E) → IsValid t → PopsNext t (pop_next t)
  pop_next-PopsNext t v = pop-head t t.events refl v
