-- ===== src/Model/Context/Undo.antt =====
-- What the transaction of an action (crates/calandria-sim/src/model/context) knows of the timeline:
-- without the inserted events it holds what the first timeline holds without the removed ones.
use calandria.Prelude.{
  ℕ, ◌+◌, ◌≤◌, ◌<◌, ◌≡◌, ◌≢◌, refl, sym, ap, subst, Option, some, List, [], ◌∷◌, ◌++◌, sum_by, All,
  Removes, RemovesAll, done, more, RemovesAll-All, Removes-sum, Removes-All, ◌⊎◌, inl, inr, arith,
  Removes-postpone, RemovesAll-advance, RemovesAll-snoc, RemovesAll-split, Outcome, returns, ◌>>=◌,
  Result, ok, map, RemovesAll-sum, RemovesAll-length, All-append, RemovesAll-All_back,
}
use calandria.Words
use calandria.Words.{u64_max}
use calandria.Timer.Invariant.{id_bound, IsWord}
use calandria.Timer.Schedule.{bound_next}
use calandria.Timeline.{Timeline, Entry, EventToken, ScheduleError, schedule_at}
use calandria.Timeline
use calandria.Timeline.Transaction.{token_of}
use calandria.Timeline.Order.{RemovesAll-sorted}
use calandria.Timeline.Invariant.{IsValid}
use calandria.Timeline.Schedule.{Refuses, new_entry, with_entry, schedule_at-Schedules}
use calandria.Timeline.Rollback.{cancel-own, restore-own, without}
use calandria.Model.Context.{cancel_all, restore_all}

module _ {ℓ} {E : Type ℓ} where
  abbrev pub bytes_of : List (Entry E) → ℕ
  bytes_of es = sum_by (λ e. e.retained) es

  -- A timeline at another moment of its transaction.
  abbrev pub stage : Timeline E → Option ℕ → List (Entry E) → Timeline E
  stage t next events = record t { next_id = next; retained = bytes_of events; events = events }

  pub record IsUndoable (t : Timeline E) (next : Option ℕ) (events ins rem : List (Entry E))
      : Type ℓ where
    pub first : IsValid t
    pub now : IsValid (stage t next events)
    pub older : All (λ e. e.id < id_bound next) t.events
    pub common : List (Entry E)
    pub left : RemovesAll ins events common
    pub right : RemovesAll rem t.events common
    pub weighed : All (λ e. e.retained ≡ t.measure e.event) ins

  pub stage-first : (t : Timeline E) → IsValid t → t ≡ stage t t.next_id t.events
  stage-first t v = ap (λ k. record t { retained = k }) v.exact

  pub IsUndoable-first : (t : Timeline E) → IsValid t → IsUndoable t t.next_id t.events [] []
  IsUndoable-first t v = record {
    first = v;
    now = subst IsValid (stage-first t v) v;
    older = v.fresh;
    common = t.events;
    left = done;
    right = done;
    weighed = tt;
  }

  older-next :
      (xs : List (Entry E)) (id : ℕ)
      → id ≤ u64_max
      → All (λ e. e.id < id) xs
      → All (λ e. e.id < id_bound (Words.checked_add id 1)) xs
  older-next [] id word a = tt
  older-next (x ∷ xs) id word a =
      let (above, _) = bound_next id word in (omega (arith, a.0, above), older-next xs id word a.1)

  -- A scheduled event becomes an inserted one.
  abbrev pub Inserts :
      Timeline E
      → Option ℕ
      → List (Entry E)
      → List (Entry E)
      → List (Entry E)
      → ℕ
      → E
      → Outcome (Timeline E × Result EventToken (ScheduleError E))
      → Type ℓ
  Inserts t next events ins rem at event r =
      (e : Entry E) × (events' : List (Entry E)) × (next' : Option ℕ) × (r
        ≡ returns (stage t next' events', ok (token_of t.id e)))
      × (e.retained ≡ t.measure event)
      × All (λ x. x.id < e.id) ins
      × IsUndoable t next' events' (ins ++ (e ∷ [])) rem

  pub IsUndoable-schedules :
      (t : Timeline E) (next : Option ℕ) (events ins rem : List (Entry E)) (at : ℕ) (event : E)
      → IsUndoable t next events ins rem
      → Refuses (stage t next events) event (schedule_at (stage t next events) at event)
        ⊎ Inserts t next events ins rem at event (schedule_at (stage t next events) at event)
  IsUndoable-schedules t next events ins rem at event u =
      elim (schedule_at-Schedules (stage t next events) at event u.now) [
        | inl refused ↦ inl refused
        | inr (id, ys, named, e, r, valid) ↦
            let new = new_entry at id event (t.measure event) in
            let same : with_entry (stage t next events) id (t.measure event) ys
                ≡ stage t (Words.checked_add id 1) ys =
              ap (λ k. record t { next_id = Words.checked_add id 1; retained = k; events = ys })
                (omega (arith, Removes-sum (λ (x : Entry E). x.retained) r)) in
            let (ws, all, last) = Removes-postpone r u.left in
            let older : All (λ x. x.id < id) t.events =
              subst (λ n. All (λ x. x.id < id_bound n) t.events) named u.older in
            let fresh : All (λ x. x.id < id) events =
              subst (λ n. All (λ x. x.id < id_bound n) events) named u.now.fresh in
            inr (
              new,
              ys,
              Words.checked_add id 1,
              subst
                  (λ s.
                    schedule_at (stage t next events) at event
                    ≡ returns (s, ok (token_of t.id new)))
                  same e,
              refl,
              (RemovesAll-All (λ (x : Entry E). x.id < id) u.left fresh).0,
              record {
                first = u.first;
                now = subst IsValid same valid;
                older = older-next t.events id (subst IsWord named u.now.word) older;
                common = u.common;
                left = RemovesAll-snoc all last;
                right = u.right;
                weighed =
                    All-append (λ (x : Entry E). x.retained ≡ t.measure x.event) ins (new ∷ [])
                      u.weighed (refl, tt);
              },
            )
      ]

  without-stage :
      (t : Timeline E) (next : Option ℕ) (e : Entry E) (events rest : List (Entry E))
      → Removes e events rest
      → without (stage t next events) e rest ≡ stage t next rest
  without-stage t next e events rest r =
      ap (λ k. record t { next_id = next; retained = k; events = rest })
        (omega (arith, Removes-sum (λ (x : Entry E). x.retained) r))

  abbrev Takes : Timeline E → Option ℕ → Entry E → List (Entry E) → List (Entry E) → Type ℓ
  Takes t next e events rest =
      (Timeline.cancel (stage t next events) (token_of t.id e)
        ≡ returns (stage t next rest, some e.event))
      × IsValid (stage t next rest)

  cancel-stage :
      (t : Timeline E) (next : Option ℕ) (e : Entry E) (events rest : List (Entry E))
      → IsValid (stage t next events)
      → Removes e events rest
      → Takes t next e events rest
  cancel-stage t next e events rest v r =
      let (found, valid) = cancel-own (stage t next events) e rest v r in
      let same = without-stage t next e events rest r in
      (
        subst
            (λ s.
              Timeline.cancel (stage t next events) (token_of t.id e) ≡ returns (s, some e.event))
            same found,
        subst IsValid same valid,
      )

  -- An inserted event is taken out of the timeline.
  pub IsUndoable-cancels_inserted :
      (t : Timeline E) (next : Option ℕ) (events ins rem : List (Entry E)) (e : Entry E)
      (rest : List (Entry E))
      → IsUndoable t next events ins rem
      → Removes e ins rest
      → (events' : List (Entry E)) × Removes e events events'
        × Takes t next e events events'
        × IsUndoable t next events' rest rem
  IsUndoable-cancels_inserted t next events ins rem e rest u r =
      let (ws, now, all) = RemovesAll-advance r u.left in
      let takes = cancel-stage t next e events ws u.now now in
      (
        ws,
        now,
        takes,
        record {
          first = u.first;
          now = takes.1;
          older = u.older;
          common = u.common;
          left = all;
          right = u.right;
          weighed = (Removes-All (λ (x : Entry E). x.retained ≡ t.measure x.event) r u.weighed).1;
        },
      )

  -- An event that was pending from the start is taken out of the timeline.
  pub IsUndoable-cancels_pending :
      (t : Timeline E) (next : Option ℕ) (events ins rem : List (Entry E)) (e : Entry E)
      (rest : List (Entry E))
      → IsUndoable t next events ins rem
      → Removes e events rest
      → All (λ x. x ≢ e) ins
      → Takes t next e events rest × IsUndoable t next rest ins (rem ++ (e ∷ []))
  IsUndoable-cancels_pending t next events ins rem e rest u r apart =
      let (ws, all, last) = RemovesAll-split u.left r apart in
      let takes = cancel-stage t next e events rest u.now r in
      (
        takes,
        record {
          first = u.first;
          now = takes.1;
          older = u.older;
          common = ws;
          left = all;
          right = RemovesAll-snoc u.right last;
          weighed = u.weighed;
        },
      )

  -- What is left of the first events makes a valid timeline.
  pub left-IsValid :
      (t : Timeline E) (next : Option ℕ) (out ws : List (Entry E))
      → IsValid t
      → IsWord next
      → All (λ e. e.id < id_bound next) t.events
      → RemovesAll out t.events ws
      → IsValid (stage t next ws)
  left-IsValid t next out ws v word older r = record {
    counted = omega (arith, v.counted, RemovesAll-length r);
    exact = refl;
    within = omega (arith, v.within, v.exact, RemovesAll-sum (λ (x : Entry E). x.retained) r);
    fresh = (RemovesAll-All (λ (x : Entry E). x.id < id_bound next) r older).1;
    word = word;
    future = (RemovesAll-All (λ (x : Entry E). t.clock ≤ x.at) r v.future).1;
    sorted = RemovesAll-sorted r v.sorted;
  }

  cancel_all-stage :
      (t : Timeline E) (next : Option ℕ) (ins events rest : List (Entry E))
      → IsValid (stage t next events)
      → RemovesAll ins events rest
      → cancel_all (stage t next events) (map (λ e. (token_of t.id e, e.retained)) ins)
        ≡ returns (stage t next rest)
  unfolding cancel_all
  cancel_all-stage t next [] events rest v done = refl
  cancel_all-stage t next (e ∷ ins) events rest v (more {ys = ys} r rs) =
      let (found, valid) = cancel-stage t next e events ys v r in
      rw found (cancel_all-stage t next ins ys rest valid rs)

  restore_all-stage :
      (t : Timeline E) (next : Option ℕ) (rem events : List (Entry E))
      → IsValid t
      → IsWord next
      → All (λ e. e.id < id_bound next) t.events
      → All (λ e. e.retained ≡ t.measure e.event) rem
      → t.limits.retained_bytes ≤ u64_max
      → RemovesAll rem t.events events
      → restore_all (stage t next events) (map (λ e. (token_of t.id e, e.event)) rem)
        ≡ returns (stage t next t.events)
  unfolding restore_all
  restore_all-stage t next [] events v word older measured bounded done = refl
  restore_all-stage t next (e ∷ rem) events v word older measured bounded (more r rs) =
      let (ws, all, last) = Removes-postpone r rs in
      let valid = left-IsValid t next rem ws v word older all in
      let same : stage t next ws
          ≡ record t { next_id = next; retained = bytes_of events + e.retained; events = ws } =
        ap (λ k. record t { next_id = next; retained = k; events = ws })
          (omega (arith, Removes-sum (λ (x : Entry E). x.retained) last)) in
      let restored =
        restore-own (stage t next events) e ws last measured.0 (subst IsValid same valid) bounded in
      rw (restored, sym same) (restore_all-stage t next rem ws v word older measured.1 bounded all)

  -- Undoing a transaction gives back the first timeline, with the identities that were given out.
  pub IsUndoable-undo :
      (t : Timeline E) (next : Option ℕ) (events ins rem : List (Entry E))
      → IsUndoable t next events ins rem
      → All (λ e. e.retained ≡ t.measure e.event) t.events
      → t.limits.retained_bytes ≤ u64_max
      → (cancel_all (stage t next events) (map (λ e. (token_of t.id e, e.retained)) ins) >>= λ s.
          restore_all s (map (λ e. (token_of t.id e, e.event)) rem))
        ≡ returns (stage t next t.events)
  IsUndoable-undo t next events ins rem u measured bounded =
      rw (cancel_all-stage t next ins events u.common u.now u.left) (
        restore_all-stage t next rem u.common u.first u.now.word u.older
          (RemovesAll-All (λ (x : Entry E). x.retained ≡ t.measure x.event) u.right measured).0
          bounded u.right)

  -- The entries of the transaction's timeline hold their measures, as the first ones do.
  pub IsUndoable-weighed :
      (t : Timeline E) (next : Option ℕ) (events ins rem : List (Entry E))
      → IsUndoable t next events ins rem
      → All (λ e. e.retained ≡ t.measure e.event) t.events
      → All (λ e. e.retained ≡ t.measure e.event) events
  IsUndoable-weighed t next events ins rem u weighed =
      RemovesAll-All_back (λ (x : Entry E). x.retained ≡ t.measure x.event) u.left u.weighed
        (RemovesAll-All (λ (x : Entry E). x.retained ≡ t.measure x.event) u.right weighed).1
