-- ===== src/Timeline/Order.antt =====
-- The ordered map of a timeline: insertion keeps its order, and removal finds exactly a key.
use calandria.Prelude.{
  ℕ, ◌<◌, ◌≡◌, refl, none, some, true, false, List, [], ◌∷◌, All, Pairs, Removes, here, there,
  Removes-All, Removes-All_back, RemovesAll, done, more, ◌⊎◌, inl, inr, arith, Bool-cases,
}
use calandria.Timeline.{Entry, insert, take_key, key_lt, key_eq}

module _ {ℓ} {E : Type ℓ} where
  -- The order of the keys.
  abbrev pub Before : Entry E → Entry E → Type 0
  Before a b = (a.at < b.at) ⊎ ((a.at ≡ b.at) × (a.id < b.id))

  All-Before :
      (e x : Entry E) (xs : List (Entry E)) → Before e x → All (Before x) xs → All (Before e) xs
  All-Before e x [] h a = tt
  All-Before e x (y ∷ ys) h a = (ground arith, All-Before e x ys h a.1)

  -- An entry of a new identity is put in its place.
  pub insert-Removes :
      (e : Entry E) (xs : List (Entry E))
      → All (λ x. x.id < e.id) xs
      → Pairs Before xs
      → (ys : List (Entry E)) × (insert e xs ≡ some ys) × Removes e ys xs × Pairs Before ys
  unfolding insert
  insert-Removes e [] below p = (e ∷ [], refl, here, (tt, tt))
  insert-Removes e (x ∷ xs) below p =
      let (ys, found, r, sorted) = insert-Removes e xs below.1 p.1 in
      elim (Bool-cases (key_lt e.at e.id x.at x.id)) [
        | inl first ↦
            let before : Before e x = ground arith in
            (e ∷ x ∷ xs, rw first refl, here, ((before, All-Before e x xs before p.0), p))
        | inr later ↦
            let new = below.0 in
            let before : Before x e = ground arith in
            let apart : key_eq e.at e.id x.at x.id ≡ false = ground arith in
            (
              x ∷ ys,
              rw (later, apart, found) refl,
              there r,
              (Removes-All_back (Before x) r before p.0, sorted),
            )
      ]

  -- What is left of an ordered list is ordered.
  pub Removes-sorted :
      {e : Entry E} {xs rest : List (Entry E)}
      → Removes e xs rest
      → Pairs Before xs
      → Pairs Before rest
  Removes-sorted here p = p.1
  Removes-sorted (there {y = y} r) p = ((Removes-All (Before y) r p.0).1, Removes-sorted r p.1)

  pub take_key-Removes :
      (at id : ℕ) (xs : List (Entry E))
      → ((take_key at id xs ≡ none) × All (λ x. key_eq at id x.at x.id ≡ false) xs)
        ⊎ ((e : Entry E) × (rest : List (Entry E)) × (take_key at id xs ≡ some (e, rest))
            × (key_eq at id e.at e.id ≡ true)
            × Removes e xs rest)
  unfolding take_key
  take_key-Removes at id [] = inl (refl, tt)
  take_key-Removes at id (x ∷ xs) = elim (Bool-cases (key_eq at id x.at x.id)) [
    | inl same ↦ inr (x, xs, rw same refl, same, here)
    | inr other ↦ elim (take_key-Removes at id xs) [
      | inl (missing, all) ↦ inl (rw (other, missing) refl, (other, all))
      | inr (e, rest, found, same, r) ↦ inr (e, x ∷ rest, rw (other, found) refl, same, there r)
    ]
  ]

  pub RemovesAll-sorted :
      {out xs rest : List (Entry E)} → RemovesAll out xs rest → Pairs Before xs → Pairs Before rest
  RemovesAll-sorted done p = p
  RemovesAll-sorted (more r rs) p = RemovesAll-sorted rs (Removes-sorted r p)

  -- An entry of an ordered list is found by its key, and goes back to its place.
  pub take_key-own :
      (e : Entry E) {xs rest : List (Entry E)}
      → Removes e xs rest
      → Pairs Before xs
      → take_key e.at e.id xs ≡ some (e, rest)
  unfolding take_key
  take_key-own e here p =
      let same : key_eq e.at e.id e.at e.id ≡ true = ground arith in rw same refl
  take_key-own e (there {y = y} r) p =
      let before = (Removes-All (Before y) r p.0).0 in
      let apart : key_eq e.at e.id y.at y.id ≡ false = ground arith in
      rw (apart, take_key-own e r p.1) refl

  insert-first :
      (e : Entry E) (xs : List (Entry E)) → All (Before e) xs → insert e xs ≡ some (e ∷ xs)
  unfolding insert
  insert-first e [] p = refl
  insert-first e (x ∷ xs) p =
      let before = p.0 in
      let first : key_lt e.at e.id x.at x.id ≡ true = ground arith in rw first refl

  pub insert-own :
      (e : Entry E) {xs rest : List (Entry E)}
      → Removes e xs rest
      → Pairs Before xs
      → insert e rest ≡ some xs
  unfolding insert
  insert-own e (here {xs = xs}) p = insert-first e xs p.0
  insert-own e (there {y = y} r) p =
      let before = (Removes-All (Before y) r p.0).0 in
      let later : key_lt e.at e.id y.at y.id ≡ false = ground arith in
      let apart : key_eq e.at e.id y.at y.id ≡ false = ground arith in
      rw (later, apart, insert-own e r p.1) refl
