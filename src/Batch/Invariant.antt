-- ===== src/Batch/Invariant.antt =====
-- The bounds of an event batch, and that its accounting is exact.
use calandria.Prelude.{
  ℕ, ◌-◌, ◌≤◌, ◌≡◌, refl, ap, Option, none, some, List, [], ◌∷◌, ◌++◌, length, sum_by, arith,
  length-append, sum_by-append, ◌⊎◌, inl, inr,
}
use calandria.Batch.{
  EventBatchLimits, Entry, EventBatch, pop_last, with_measure, try_push, clear, drain,
}

-- A batch stays within both limits, and counts exactly the bytes of the entries that it holds.
pub record IsBounded {ℓ} {E : Type ℓ} (b : EventBatch E) : Type ℓ where
  pub counted : length b.events ≤ b.limits.events
  pub exact : b.retained ≡ sum_by (λ entry. entry.retained) b.events
  pub within : b.retained ≤ b.limits.retained_bytes

-- `pop_last` fails on the empty list only, and otherwise splits off the last element.
abbrev pub PopsLast {ℓ} : {A : Type ℓ} → List A → Option (List A × A) → Type ℓ
PopsLast {A = A} xs r =
    ((xs ≡ []) × (r ≡ none))
    ⊎ ((rest : List A) × (last : A) × (xs ≡ rest ++ (last ∷ [])) × (r ≡ some (rest, last)))

pop_last-cons {ℓ} :
    {A : Type ℓ} (x : A) (xs : List A) (r : Option (List A × A))
    → pop_last xs ≡ r
    → PopsLast xs r
    → PopsLast (x ∷ xs) (pop_last (x ∷ xs))
pop_last-cons x xs r e (inl (p, q)) = inr ([], x, ap (◌∷◌ x) p, ground (arith, e, q))
pop_last-cons x xs r e (inr (rest, last, p, q)) =
    inr (x ∷ rest, last, ap (◌∷◌ x) p, ground (arith, e, q))

pub pop_last-PopsLast {ℓ} : {A : Type ℓ} (xs : List A) → PopsLast xs (pop_last xs)
pop_last-PopsLast [] = inl (refl, refl)
pop_last-PopsLast (x ∷ xs) = pop_last-cons x xs (pop_last xs) refl (pop_last-PopsLast xs)

pub pop_last-append {ℓ} :
    {A : Type ℓ} (xs : List A) (x : A) → pop_last (xs ++ (x ∷ [])) ≡ some (xs, x)
pop_last-append [] x = refl
pop_last-append (y ∷ ys) x = ground (arith, pop_last-append ys x)

module _ {ℓ} {E : Type ℓ} where
  pub with_measure-IsBounded :
      (limits : EventBatchLimits) (measure : E → ℕ) → IsBounded (with_measure limits measure)
  unfolding with_measure
  with_measure-IsBounded limits measure = omega arith

  pub try_push-IsBounded :
      (b : EventBatch E) (event : E) → IsBounded b → IsBounded (try_push b event).0
  unfolding try_push
  try_push-IsBounded b event v = ground (
    arith,
    length-append b.events (record { event = event; retained = b.measure event } ∷ []),
    sum_by-append (λ entry. entry.retained) b.events
        (record { event = event; retained = b.measure event } ∷ []),
  )

  -- The entry at the end is accounted for, and the batch without it is bounded.
  pub pop_split :
      (b : EventBatch E) (rest : List (Entry E)) (last : Entry E)
      → b.events ≡ rest ++ (last ∷ [])
      → IsBounded b
      → (last.retained ≤ b.retained)
        × IsBounded (record b { events = rest; retained = b.retained - last.retained })
  pop_split b rest last p v = ground (
    arith,
    v.exact,
    ap (sum_by (λ entry. entry.retained)) p,
    sum_by-append (λ entry. entry.retained) rest (last ∷ []),
    ap length p,
    length-append rest (last ∷ []),
  )

  pub clear-IsBounded : (b : EventBatch E) → IsBounded b → IsBounded (clear b)
  unfolding clear
  clear-IsBounded b v = omega arith

  pub drain-IsBounded : (b : EventBatch E) → IsBounded b → IsBounded (drain b).0
  unfolding drain
  drain-IsBounded b v = omega arith
