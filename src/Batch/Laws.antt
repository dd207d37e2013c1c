-- ===== src/Batch/Laws.antt =====
-- The behaviour of each operation of an event batch, against the list of the events that it holds.
use calandria.Prelude.{
  ◌+◌, ◌-◌, ◌≤◌, ◌<◌, ◌≡◌, refl, Option, none, some, [], ◌∷◌, ◌++◌, length, arith, map-append, ok,
  err, returns, ◌⊎◌, inl, inr, Bool-cases, leb, ltb,
}
use calandria.Words.{u64_max}
use calandria.Batch.{
  Entry, EventBatch, EventBatchFailure, event_capacity, retained_byte_overflow,
  retained_byte_capacity, try_push, pop, clear, drain, iter, snapshot,
}
use calandria.Batch.Invariant.{IsBounded, pop_last-append, pop_last-PopsLast, pop_split}

module _ {ℓ} {E : Type ℓ} where
  -- Whether there is room for one more event.
  abbrev pub HasRoom : EventBatch E → E → Type 0
  HasRoom b event =
      (length b.events < b.limits.events) × (b.retained + b.measure event ≤ b.limits.retained_bytes)

  -- A push is accepted exactly when the batch has room for one more event and its bytes; it then
  -- appends the event to those retained, and a refused push hands the event back and changes
  -- nothing. The byte limit is a u64.
  pub try_push_lem :
      (b : EventBatch E) (event : E)
      → b.limits.retained_bytes ≤ u64_max
      → (HasRoom b event
          × (iter (try_push b event).0 ≡ iter b ++ (event ∷ []))
          × ((try_push b event).1 ≡ ok tt))
        ⊎ ((¬ HasRoom b event)
            × ((failure : EventBatchFailure) × (try_push b event
                  ≡ (b, err (record { event = event; failure = failure })))))
  unfolding try_push iter
  try_push_lem b event h = elim (Bool-cases (leb b.limits.events (length b.events))) [
    | inl full ↦ inr (λ room. ground arith, (event_capacity b.limits.events, ground arith))
    | inr counted ↦ elim (Bool-cases (leb (b.retained + b.measure event) u64_max)) [
      | inr wraps ↦ inr (
        λ room. ground arith,
        (retained_byte_overflow b.retained (b.measure event), ground arith),
      )
      | inl fits ↦ elim (Bool-cases (ltb b.limits.retained_bytes (b.retained + b.measure event))) [
        | inl over ↦ inr (
          λ room. ground arith,
          (
            retained_byte_capacity b.limits.retained_bytes b.retained (b.measure event),
            ground arith,
          ),
        )
        | inr within ↦ inl (
          (ground arith, ground arith),
          ground (
            arith,
            map-append (λ (entry : Entry E). entry.event) b.events
                (record { event = event; retained = b.measure event } ∷ []),
          ),
          ground arith,
        )
      ]
    ]
  ]

  -- A pop takes back exactly what the last accepted push has put in.
  pub pop-try_push :
      (b : EventBatch E) (event : E)
      → (try_push b event).1 ≡ ok tt
      → pop (try_push b event).0 ≡ returns (b, some event)
  unfolding try_push pop
  pop-try_push b event h =
      ground
        (arith, pop_last-append b.events (record { event = event; retained = b.measure event }))

  -- In a bounded batch a pop never panics: it takes the last event off the events retained, or
  -- finds none.
  pub pop_lem :
      (b : EventBatch E)
      → IsBounded b
      → (b' : EventBatch E) × (out : Option E) × (pop b ≡ returns (b', out))
        × IsBounded b'
        × (((iter b ≡ []) × (out ≡ none) × (b' ≡ b))
            ⊎ ((event : E) × (out ≡ some event) × (iter b ≡ iter b' ++ (event ∷ []))))
  unfolding pop iter
  pop_lem b v = elim (pop_last-PopsLast b.events) [
    | inl (p, q) ↦ (b, none, ground arith, v, inl (ground arith, refl, refl))
    | inr (rest, last, p, q) ↦
        let facts = pop_split b rest last p v in
        (
          record b { events = rest; retained = b.retained - last.retained },
          some last.event,
          ground (arith, facts),
          facts.1,
          inr (
            last.event,
            refl,
            rw p (map-append (λ (entry : Entry E). entry.event) rest (last ∷ [])),
          ),
        )
  ]

  -- What a batch holds after being drained: nothing, and what it hands out is what it held.
  pub drain_lem :
      (b : EventBatch E)
      → ((drain b).1 ≡ iter b)
        × (iter (drain b).0 ≡ [])
        × ((snapshot (drain b).0).retained_bytes ≡ 0)
        × ((drain b).0 ≡ clear b)
  unfolding drain iter snapshot clear
  drain_lem b = (refl, refl, refl, refl)
