-- ===== src/Model/Context/Ledger.antt =====
-- What the context of an action (crates/calandria-sim/src/model/context) keeps true: its records of
-- insertions and removals undo them, and its counts are exact and within its limits.
use calandria.Prelude.{
  ℕ, ◌+◌, ◌≤◌, ◌<◌, ◌≡◌, ◌≢◌, refl, sym, ap, subst, Option, none, some, List, [], ◌∷◌, ◌++◌, length,
  sum_by, All, Removes, here, there, done, ◌⊎◌, inl, inr, arith, true, false, Bool-cases, Outcome,
  returns, map,
}
use calandria.Words.{u64_max}
use calandria.Retained.{RetainedBytes}
use calandria.Timeline.{Timeline, Entry, EventToken}
use calandria.Timeline.Transaction.{token_of}
use calandria.Timeline.Invariant.{IsValid}
use calandria.Model.{Routed, DutyId, ActionId}
use calandria.Model.Topology.{Topology}
use calandria.Model.Context.{
  ActionContext, ActionContextLimits, context, insert_token, remove_token, token_lt, token_eq,
  drop_context,
}
use calandria.Model.Context.Undo.{
  stage, bytes_of, stage-first, IsUndoable, IsUndoable-first, IsUndoable-undo, left-IsValid,
}

module _ {ℓ} {E : Type ℓ} where
  abbrev pub inserted_of : ℕ → List (Entry E) → List (EventToken × RetainedBytes)
  inserted_of id es = map (λ e. (token_of id e, e.retained)) es

  abbrev pub removed_of : ℕ → List (Entry E) → List (EventToken × E)
  removed_of id es = map (λ e. (token_of id e, e.event)) es

  -- A token of the newest identity comes last.
  pub insert_token-last :
      (id : ℕ) (e : Entry E) (ins : List (Entry E))
      → All (λ x. x.id < e.id) ins
      → insert_token (token_of id e) e.retained (inserted_of id ins)
        ≡ inserted_of id (ins ++ (e ∷ []))
  unfolding insert_token
  insert_token-last id e [] a = refl
  insert_token-last id e (x ∷ ins) a =
      let older = a.0 in
      let after : token_lt (token_of id e) (token_of id x) ≡ false = ground arith in
      let apart : token_eq (token_of id e) (token_of id x) ≡ false = ground arith in
      rw (after, apart, insert_token-last id e ins a.1) refl

  token_of-apart :
      (id : ℕ) (e x : Entry E) → token_eq (token_of id e) (token_of id x) ≡ false → x ≢ e
  token_of-apart id e x other same =
      let own : token_eq (token_of id e) (token_of id e) ≡ true = ground arith in
      let both = subst (λ y. token_eq (token_of id e) (token_of id y) ≡ true) (sym same) own in cc

  pub remove_token-cases :
      (id : ℕ) (e : Entry E) (ins : List (Entry E))
      → ((remove_token (token_of id e) (inserted_of id ins) ≡ none) × All (λ x. x ≢ e) ins)
        ⊎ ((x : Entry E) × (rest : List (Entry E)) × (remove_token
                (token_of id e)
                (inserted_of id ins)
              ≡ some (x.retained, inserted_of id rest))
            × (token_of id e ≡ token_of id x)
            × Removes x ins rest)
  unfolding remove_token
  remove_token-cases id e [] = inl (refl, tt)
  remove_token-cases id e (x ∷ ins) = elim (Bool-cases (token_eq (token_of id e) (token_of id x))) [
    | inl same ↦
        let same_id : e.id ≡ x.id = ground arith in
        let same_at : e.at ≡ x.at = ground arith in inr (x, ins, rw same refl, cc, here)
    | inr other ↦ elim (remove_token-cases id e ins) [
      | inl (missing, apart) ↦
          inl (rw (other, missing) refl, ((λ same. token_of-apart id e x other same), apart))
      | inr (y, rest, found, same, r) ↦ inr (y, x ∷ rest, rw (other, found) refl, same, there r)
    ]
  ]

module _ {ℓ κ} {E : Type ℓ} {O : Type κ} (observed_bytes : O → RetainedBytes) where
  pub record IsOpen (t : Timeline (Routed E)) (limits : ActionContextLimits) (c : ActionContext E O)
      : Type (ℓ ⊔ κ) where
    pub next : Option ℕ
    pub events : List (Entry (Routed E))
    pub ins : List (Entry (Routed E))
    pub rem : List (Entry (Routed E))
    pub timeline : c.timeline ≡ stage t next events
    pub undo : IsUndoable t next events ins rem
    pub inserted : c.inserted ≡ inserted_of t.id ins
    pub removed : c.removed ≡ removed_of t.id rem
    pub uncommitted : c.committed ≡ false
    pub limited : c.limits ≡ limits
    pub effects : c.effects ≤ limits.effects
    pub exact : c.effect_bytes ≡ bytes_of ins + bytes_of rem
    pub within : c.effect_bytes ≤ limits.effect_bytes
    pub observations : length c.observations ≤ limits.observations
    pub observed : c.observation_bytes ≡ sum_by observed_bytes c.observations
    pub observed_within : c.observation_bytes ≤ limits.observation_bytes

  -- What a call comes to: no panic, and a context that is still undone to the first timeline.
  abbrev pub StaysOpen {μ} :
      {A : Type μ}
      → Timeline (Routed E)
      → ActionContextLimits
      → Outcome (ActionContext E O × A)
      → Type (ℓ ⊔ κ ⊔ μ)
  StaysOpen {A = A} t limits r =
      (c' : ActionContext E O) × (a : A) × (r ≡ returns (c', a)) × IsOpen t limits c'

  pub context-IsOpen :
      (t : Timeline (Routed E)) (topology : Topology) (stopped : List DutyId) (action : ActionId)
      (now : ℕ) (limits : ActionContextLimits)
      → IsValid t
      → IsOpen t limits (context t topology stopped action now limits)
  context-IsOpen t topology stopped action now limits v = record {
    next = t.next_id;
    events = t.events;
    ins = [];
    rem = [];
    timeline = stage-first t v;
    undo = IsUndoable-first t v;
    inserted = refl;
    removed = refl;
    uncommitted = refl;
    limited = refl;
    effects = omega arith;
    exact = refl;
    within = omega arith;
    observations = omega arith;
    observed = refl;
    observed_within = omega arith;
  }

  pub drop_context-IsOpen :
      (t : Timeline (Routed E)) (limits : ActionContextLimits) (c : ActionContext E O)
      → IsOpen t limits c
      → All (λ e. e.retained ≡ t.measure e.event) t.events
      → t.limits.retained_bytes ≤ u64_max
      → (next : Option ℕ) × (drop_context c ≡ returns (record t { next_id = next }))
        × IsValid (record t { next_id = next })
  unfolding drop_context
  drop_context-IsOpen t limits c o measured bounded =
      let undone = IsUndoable-undo t o.next o.events o.ins o.rem o.undo measured bounded in
      let same : stage t o.next t.events ≡ record t { next_id = o.next } =
        ap (λ k. record t { next_id = o.next; retained = k }) (sym o.undo.first.exact) in
      (
        o.next,
        rw (o.uncommitted, o.timeline, o.inserted, o.removed, undone, same) refl,
        subst IsValid same
            (left-IsValid t o.next [] t.events o.undo.first o.undo.now.word o.undo.older done),
      )
