-- ===== src/Prelude/Commuting.antt =====
-- Removals from one list in another order.
use mathlib.Core.Path.{◌≡◌, refl}
use mathlib.Core.Logic.{◌≢◌, ◌⊎◌, inl, inr}
use mathlib.Core.List.{List, [], ◌∷◌, ◌++◌}
use calandria.Prelude.Lists.{All}
use calandria.Prelude.Removal.{Removes, here, there, RemovesAll, done, more}

module _ {ℓ} {A : Type ℓ} where
  Removes-swap :
      {a b : A} {xs ys zs : List A}
      → Removes a xs ys
      → Removes b ys zs
      → (ws : List A) × Removes b xs ws × Removes a ws zs
  Removes-swap {a} {zs = zs} here s = (a ∷ zs, there s, here)
  Removes-swap (there {xs = xs} r) here = (xs, here, r)
  Removes-swap (there {y = y} r) (there s) =
      let (ws, first, last) = Removes-swap r s in (y ∷ ws, there first, there last)

  -- The first removal may come last.
  pub Removes-postpone :
      {a : A} {out xs ys zs : List A}
      → Removes a xs ys
      → RemovesAll out ys zs
      → (ws : List A) × RemovesAll out xs ws × Removes a ws zs
  Removes-postpone {xs = xs} r done = (xs, done, r)
  Removes-postpone r (more s rs) =
      let (ws, first, last) = Removes-swap r s in
      let (vs, all, final) = Removes-postpone last rs in (vs, more first all, final)

  -- One of the removals may come first.
  pub RemovesAll-advance :
      {a : A} {out rest xs zs : List A}
      → Removes a out rest
      → RemovesAll out xs zs
      → (ws : List A) × Removes a xs ws × RemovesAll rest ws zs
  RemovesAll-advance here (more {ys = ys} r rs) = (ys, r, rs)
  RemovesAll-advance (there i) (more r rs) =
      let (ws, first, all) = RemovesAll-advance i rs in
      let (vs, now, later) = Removes-swap r first in (vs, now, more later all)

  pub RemovesAll-snoc :
      {a : A} {out xs ys zs : List A}
      → RemovesAll out xs ys
      → Removes a ys zs
      → RemovesAll (out ++ (a ∷ [])) xs zs
  RemovesAll-snoc done s = more s done
  RemovesAll-snoc (more r rs) s = more r (RemovesAll-snoc rs s)

  -- Two removals from one list are of the same place, or commute.
  Removes-split :
      {a b : A} {xs ys zs : List A}
      → Removes a xs ys
      → Removes b xs zs
      → (a ≡ b) ⊎ ((ws : List A) × Removes a zs ws × Removes b ys ws)
  Removes-split here here = inl refl
  Removes-split here (there {rest = rest} s) = inr (rest, here, s)
  Removes-split (there {rest = rest} r) here = inr (rest, r, here)
  Removes-split (there {y = y} r) (there s) = elim (Removes-split r s) [
    | inl same ↦ inl same
    | inr (ws, first, last) ↦ inr (y ∷ ws, there first, there last)
  ]

  -- What is none of the elements taken out can be taken out on either side.
  pub RemovesAll-split :
      {b : A} {out xs ys zs : List A}
      → RemovesAll out xs ys
      → Removes b xs zs
      → All (λ a. a ≢ b) out
      → (ws : List A) × RemovesAll out zs ws × Removes b ys ws
  RemovesAll-split {zs = zs} done s apart = (zs, done, s)
  RemovesAll-split (more r rs) s apart = elim (Removes-split r s) [
    | inl same ↦ absurd (apart.0 same)
    | inr (ws, first, last) ↦
        let (vs, all, final) = RemovesAll-split rs last apart.1 in (vs, more first all, final)
  ]
