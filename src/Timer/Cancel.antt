-- ===== src/Timer/Cancel.antt =====
-- `TimerQueue::cancel`: it takes out exactly the timer that the token names.
use calandria.Prelude.{
  ℕ, ◌≡◌, ◌≢◌, refl, sym, ◌∙◌, ap, subst, none, some, false, List, [], ◌∷◌, arith, All, Removes,
  ◌⊎◌, inl, inr, returns, Bool-cases, ◌==◌,
}
use calandria.Timer.Heap.{Timer, TimerToken, token_eq}
use calandria.Timer.Order.{position-Finds, token_eq-eq}
use calandria.Timer.{TimerQueue, cancel}
use calandria.Timer.Invariant.{IsValid, Apart, without, without-IsValid}

module _ {ℓ} {T : Type ℓ} where
  -- No timer of the queue goes by this token.
  abbrev pub Absent : TimerQueue T → TimerToken → Type 0
  Absent q token = All (λ timer. timer.token ≢ token) q.timers

  not-named :
      (xs : List (Timer T)) (token : TimerToken)
      → All (λ x. token_eq x.token token ≡ false) xs
      → All (λ x. x.token ≢ token) xs
  not-named [] token h = tt
  not-named (x ∷ xs) token h = ((λ same. ground arith), not-named xs token h.1)

  other-owner :
      (xs : List (Timer T)) (owner : ℕ) (token : TimerToken)
      → token.owner ≢ owner
      → All (λ x. x.token.owner ≡ owner) xs
      → All (λ x. x.token ≢ token) xs
  other-owner [] owner token h a = tt
  other-owner (x ∷ xs) owner token h a = (
    (λ same. h (ap (λ (t : TimerToken). t.owner) (sym same) ∙ a.0)),
    other-owner xs owner token h a.1,
  )

  absent_of_Apart :
      (xs : List (Timer T)) (timer : Timer T)
      → All (Apart timer) xs
      → All (λ x. x.token ≢ timer.token) xs
  absent_of_Apart [] timer a = tt
  absent_of_Apart (x ∷ xs) timer a =
      ((λ same. a.0 (ap (λ (t : TimerToken). t.id) (sym same))), absent_of_Apart xs timer a.1)

  -- Cancelling in a valid queue does not panic. Where no timer goes by the token it finds none and
  -- changes nothing; otherwise it hands out the timer of that token, leaves all others with the
  -- accounting restored, and the token names no timer of the valid queue that is left.
  pub cancel_lem :
      (q : TimerQueue T) (token : TimerToken)
      → IsValid q
      → ((cancel q token ≡ returns (q, none)) × Absent q token)
        ⊎ ((timer : Timer T) × (rest : List (Timer T)) × (cancel q token
              ≡ returns (without q timer rest, some timer))
            × (timer.token ≡ token)
            × Removes timer q.timers rest
            × IsValid (without q timer rest)
            × Absent (without q timer rest) token)
  unfolding cancel
  cancel_lem q token v = elim (Bool-cases (token.owner == q.owner)) [
    | inr other ↦ inl (rw other refl, other-owner q.timers q.owner token (ground arith) v.owned)
    | inl own ↦ elim (position-Finds token q.timers) [
      | inl (missing, all) ↦ inl (rw own (rw missing refl), not-named q.timers token all)
      | inr (index, timer, rest, found, taken, r, same) ↦
          let (enough, valid, apart) = without-IsValid q timer rest v r in
          let named = token_eq-eq timer.token token same in
          inr (
            timer,
            rest,
            ground (arith, own, found, taken, enough),
            named,
            r,
            valid,
            subst (λ (t : TimerToken). All (λ (x : Timer T). x.token ≢ t) rest) named
                (absent_of_Apart rest timer apart),
          )
    ]
  ]
