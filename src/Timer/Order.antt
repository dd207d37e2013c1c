-- ===== src/Timer/Order.antt =====
-- The order in which timers fire, and what the containers of a timer queue take out.
use Prim.Native.Nat.{Ordering}
use calandria.Prelude.{
  ℕ, suc, ◌≤◌, ◌<◌, ◌≡◌, refl, Option, none, some, true, false, List, [], ◌∷◌, arith, ◌⊎◌, inl, inr,
  All, Removes, here, there, Removes-All_back, subst, sym, Bool-cases,
}
use calandria.Timer.Heap.{Timer, TimerToken, token_eq, cmp, heap_pop, position, swap_remove}

pub token_eq-eq : (a b : TimerToken) → token_eq a b ≡ true → a ≡ b
token_eq-eq a b h = ground arith

module _ {ℓ} {T : Type ℓ} where
  -- `a` fires no later than `b`: an earlier deadline, or the same and an identity no greater.
  abbrev pub Fires : Timer T → Timer T → Type 0
  Fires a b =
      (a.token.deadline < b.token.deadline)
      ⊎ ((a.token.deadline ≡ b.token.deadline) × (a.token.id ≤ b.token.id))

  pub Fires-trans : (a b c : Timer T) → Fires a b → Fires b c → Fires a c
  Fires-trans a b c h k = ground arith

  pub Fires-All :
      (a b : Timer T) (xs : List (Timer T)) → Fires a b → All (Fires b) xs → All (Fires a) xs
  Fires-All a b [] h k = tt
  Fires-All a b (x ∷ xs) h k = (Fires-trans a b x h k.0, Fires-All a b xs h k.1)

  -- What `heap_pop` comes to.
  abbrev pub HeapPops : List (Timer T) → Option (Timer T × List (Timer T)) → Type ℓ
  HeapPops xs r =
      ((xs ≡ []) × (r ≡ none))
      ⊎ ((top : Timer T) × (rest : List (Timer T)) × (r ≡ some (top, rest))
          × Removes top xs rest
          × All (Fires top) rest)

  cmp-lt : (x top : Timer T) → cmp x top ≡ Ordering.lt → Fires top x
  cmp-lt x top h = ground arith

  cmp-not_lt : (x top : Timer T) → (cmp x top ≡ Ordering.lt → ⊥) → Fires x top
  cmp-not_lt x top h = ground arith

  heap_pop-cons :
      (x : Timer T) (xs : List (Timer T))
      → HeapPops xs (heap_pop xs)
      → HeapPops (x ∷ xs) (heap_pop (x ∷ xs))
  unfolding heap_pop
  heap_pop-cons x xs (inl (p, q)) =
      inr (x, [], ground (arith, q), subst (λ ys. Removes x (x ∷ ys) []) (sym p) here, tt)
  heap_pop-cons x xs (inr (top, rest, q, r, fires)) = go (cmp x top) refl
    where
      go : (o : Ordering) → cmp x top ≡ o → HeapPops (x ∷ xs) (heap_pop (x ∷ xs))
      go Ordering.lt e = inr (top, x ∷ rest, ground (arith, q, e), there r, (cmp-lt x top e, fires))
      go Ordering.eq e =
          let first = cmp-not_lt x top (λ l. cc) in
          inr (
            x,
            xs,
            ground (arith, q, e),
            here,
            Removes-All_back (Fires x) r first (Fires-All x top rest first fires),
          )
      go Ordering.gt e =
          let first = cmp-not_lt x top (λ l. cc) in
          inr (
            x,
            xs,
            ground (arith, q, e),
            here,
            Removes-All_back (Fires x) r first (Fires-All x top rest first fires),
          )

  -- A pop fails on the empty heap only, and otherwise takes out a timer that fires no later than
  -- any other.
  pub heap_pop-HeapPops : (xs : List (Timer T)) → HeapPops xs (heap_pop xs)
  unfolding heap_pop
  heap_pop-HeapPops [] = inl (refl, refl)
  heap_pop-HeapPops (x ∷ xs) = heap_pop-cons x xs (heap_pop-HeapPops xs)

  -- What finding a token and taking it out comes to.
  abbrev pub Finds : TimerToken → List (Timer T) → Option ℕ → Type ℓ
  Finds token xs r =
      ((r ≡ none) × All (λ x. token_eq x.token token ≡ false) xs)
      ⊎ ((index : ℕ) × (timer : Timer T) × (rest : List (Timer T)) × (r ≡ some index)
          × (swap_remove index xs ≡ some (timer, rest))
          × Removes timer xs rest
          × (token_eq timer.token token ≡ true))

  position-cons :
      (token : TimerToken) (x : Timer T) (xs : List (Timer T))
      → token_eq x.token token ≡ false
      → Finds token xs (position token xs)
      → Finds token (x ∷ xs) (position token (x ∷ xs))
  unfolding position swap_remove
  position-cons token x xs other (inl (q, all)) = inl (rw (other, q) refl, (other, all))
  position-cons token x xs other (inr (index, timer, rest, q, s, r, same)) =
      inr (suc index, timer, x ∷ rest, rw (other, q) (ground arith), rw s refl, there r, same)

  pub position-Finds :
      (token : TimerToken) (xs : List (Timer T)) → Finds token xs (position token xs)
  unfolding position swap_remove
  position-Finds token [] = inl (refl, tt)
  position-Finds token (x ∷ xs) = elim (Bool-cases (token_eq x.token token)) [
    | inl same ↦ inr (0, x, xs, rw same refl, refl, here, same)
    | inr other ↦ position-cons token x xs other (position-Finds token xs)
  ]
