-- ===== src/Timer/Due.antt =====
-- `TimerQueue::pop_due`: the earliest timer, once its deadline has come.
use calandria.Prelude.{
  ℕ, ◌≤◌, ◌<◌, ◌≡◌, Option, none, some, false, List, [], ◌∷◌, arith, All, Removes, Removes-All,
  Removes-All_back, ◌↔◌, ◌⊎◌, inl, inr, Outcome, returns, Bool-cases, subst, sym, leb,
}
use calandria.Time.Deadline
use calandria.Timer.Heap.{Timer, heap_peek}
use calandria.Timer.Order.{Fires, heap_pop-HeapPops}
use calandria.Timer.{TimerQueue, pop_due, is_due, next_deadline}
use calandria.Timer.Invariant.{IsValid, without, without-IsValid}

module _ {ℓ} {T : Type ℓ} where
  -- No timer is due.
  abbrev pub NoneDue : TimerQueue T → ℕ → Type 0
  NoneDue q now = All (λ timer. now < timer.token.deadline) q.timers

  later-NoneDue :
      (top : Timer T) (xs : List (Timer T)) (now : ℕ)
      → now < top.token.deadline
      → All (Fires top) xs
      → All (λ timer. now < timer.token.deadline) xs
  later-NoneDue top [] now h a = tt
  later-NoneDue top (x ∷ xs) now h a = (ground arith, later-NoneDue top xs now h a.1)

  -- What a pop of a valid queue comes to: it finds none and changes nothing where no timer is due,
  -- and otherwise takes out a due timer that fires no later than any other.
  abbrev pub PopsDue : TimerQueue T → ℕ → Outcome (TimerQueue T × Option (Timer T)) → Type ℓ
  PopsDue q now r =
      ((r ≡ returns (q, none)) × NoneDue q now)
      ⊎ ((timer : Timer T) × (rest : List (Timer T)) × (r
            ≡ returns (without q timer rest, some timer))
          × (timer.token.deadline ≤ now)
          × Removes timer q.timers rest
          × All (Fires timer) rest
          × IsValid (without q timer rest))

  -- In a valid queue `pop_due` does not panic: it finds none and changes nothing exactly when no
  -- timer is due, and otherwise takes out a due timer that comes first by deadline and then by
  -- identity, which leaves a valid queue of all the others.
  pub pop_due-PopsDue : (q : TimerQueue T) (now : ℕ) → IsValid q → PopsDue q now (pop_due q now)
  unfolding pop_due is_due next_deadline heap_peek Deadline.is_elapsed_at
  pop_due-PopsDue q now v = elim (heap_pop-HeapPops q.timers) [
    | inl (empty, p) ↦
        inl (ground (arith, p), subst (All (λ t. now < t.token.deadline)) (sym empty) tt)
    | inr (top, rest, p, r, fires) ↦ elim (Bool-cases (leb top.token.deadline now)) [
      | inr later ↦
          let ahead : now < top.token.deadline = ground arith in
          inl (
            ground (arith, p, later),
            Removes-All_back (λ (t : Timer T). now < t.token.deadline) r ahead
                (later-NoneDue top rest now ahead fires),
          )
      | inl due ↦
          let (enough, valid, apart) = without-IsValid q top rest v r in
          inr (top, rest, ground (arith, p, due, enough), ground arith, r, fires, valid)
    ]
  ]

  -- The flag that reports more work is clear exactly when no timer is due.
  pub is_due-NoneDue : (q : TimerQueue T) (now : ℕ) → (is_due q now ≡ false) ↔ NoneDue q now
  unfolding is_due next_deadline heap_peek Deadline.is_elapsed_at
  is_due-NoneDue q now = elim (heap_pop-HeapPops q.timers) [
    | inl (empty, p) ↦ (
      λ h. subst (All (λ t. now < t.token.deadline)) (sym empty) tt,
      λ none_due. ground (arith, p),
    )
    | inr (top, rest, p, r, fires) ↦ (
      λ h.
          let ahead : now < top.token.deadline = ground (arith, p) in
          Removes-All_back (λ (t : Timer T). now < t.token.deadline) r ahead
            (later-NoneDue top rest now ahead fires),
      λ none_due.
          let ahead = (Removes-All (λ (t : Timer T). now < t.token.deadline) r none_due).0 in
          ground (arith, p, ahead),
    )
  ]
