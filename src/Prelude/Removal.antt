-- ===== src/Prelude/Removal.antt =====
-- Taking one element out of a list, the order of the others kept.
use mathlib.Core.List.{List, [], ◌∷◌, ◌++◌, Perm}
use mathlib.Core.List.Perm
use Prim.Native.Nat.{ℕ, ◌+◌}
use mathlib.Core.Path.{◌≡◌, refl}
use native.Mathlib.Omega.{arith}
use calandria.Prelude.Lists.{length, sum_by, All}

pub data Removes {ℓ} {A : Type ℓ} (x : A) : List A → List A → Type ℓ where
  here : {xs : List A} → Removes x (x ∷ xs) xs
  there : {y : A} {xs rest : List A} → Removes x xs rest → Removes x (y ∷ xs) (y ∷ rest)

module _ {ℓ} {A : Type ℓ} {x : A} where
  pub Removes-length : {xs rest : List A} → Removes x xs rest → length xs ≡ length rest + 1
  Removes-length here = omega arith
  Removes-length (there r) = omega (arith, Removes-length r)

  pub Removes-sum :
      {xs rest : List A} (f : A → ℕ) → Removes x xs rest → sum_by f xs ≡ f x + sum_by f rest
  Removes-sum f here = refl
  Removes-sum f (there r) = omega (arith, Removes-sum f r)

  pub Removes-All {κ} :
      {xs rest : List A} (P : A → Type κ) → Removes x xs rest → All P xs → P x × All P rest
  Removes-All P here h = h
  Removes-All P (there r) h = let (p, hs) = Removes-All P r h.1 in (p, (h.0, hs))

  pub Removes-All_back {κ} :
      {xs rest : List A} (P : A → Type κ) → Removes x xs rest → P x → All P rest → All P xs
  Removes-All_back P here p h = (p, h)
  Removes-All_back P (there r) p h = (h.0, Removes-All_back P r p h.1)

  pub Removes-Perm : {xs rest : List A} → Removes x xs rest → Perm xs (x ∷ rest)
  Removes-Perm {xs} here = Perm.refl _
  Removes-Perm (there {y = y} r) = Perm.trans (Perm.cons y (Removes-Perm r)) (Perm.swap x y _)

module _ {ℓ} {A : Type ℓ} where
  -- A relation between any two elements of a list holds of what is left.
  abbrev pub Pairs {κ} : (A → A → Type κ) → List A → Type κ
  Pairs R [] = Unit
  Pairs R (y ∷ ys) = All (R y) ys × Pairs R ys

  pub Removes-Pairs {κ} :
      {x : A} {xs rest : List A} (R : A → A → Type κ)
      → ((a b : A) → R a b → R b a)
      → Removes x xs rest
      → Pairs R xs
      → All (R x) rest × Pairs R rest
  Removes-Pairs R swap here h = h
  Removes-Pairs {x} R swap (there {y = y} r) h =
      let (apart, rest) = Removes-All (R y) r h.0 in
      let (all, pairs) = Removes-Pairs R swap r h.1 in ((swap y x apart, all), (rest, pairs))

-- Taking several elements out, one after the other.
pub data RemovesAll {ℓ} {A : Type ℓ} : List A → List A → List A → Type ℓ where
  done : {xs : List A} → RemovesAll [] xs xs
  more :
      {x : A} {out xs ys rest : List A}
      → Removes x xs ys
      → RemovesAll out ys rest
      → RemovesAll (x ∷ out) xs rest

module _ {ℓ} {A : Type ℓ} where
  pub RemovesAll-All {κ} :
      {out xs rest : List A} (P : A → Type κ)
      → RemovesAll out xs rest
      → All P xs
      → All P out × All P rest
  RemovesAll-All P done h = (tt, h)
  RemovesAll-All P (more r rs) h =
      let (p, hs) = Removes-All P r h in let (ps, rest) = RemovesAll-All P rs hs in ((p, ps), rest)

  pub RemovesAll-All_back {κ} :
      {out xs rest : List A} (P : A → Type κ)
      → RemovesAll out xs rest
      → All P out
      → All P rest
      → All P xs
  RemovesAll-All_back P done ps rest = rest
  RemovesAll-All_back P (more r rs) ps rest =
      Removes-All_back P r ps.0 (RemovesAll-All_back P rs ps.1 rest)

  pub RemovesAll-sum :
      {out xs rest : List A} (f : A → ℕ)
      → RemovesAll out xs rest
      → sum_by f xs ≡ sum_by f out + sum_by f rest
  RemovesAll-sum f done = omega arith
  RemovesAll-sum f (more r rs) = omega (arith, Removes-sum f r, RemovesAll-sum f rs)

  pub RemovesAll-length :
      {out xs rest : List A} → RemovesAll out xs rest → length xs ≡ length out + length rest
  RemovesAll-length done = omega arith
  RemovesAll-length (more r rs) = omega (arith, Removes-length r, RemovesAll-length rs)

  pub RemovesAll-Perm : {out xs rest : List A} → RemovesAll out xs rest → Perm xs (out ++ rest)
  RemovesAll-Perm {xs} done = Perm.refl _
  RemovesAll-Perm (more {x = x} r rs) =
      Perm.trans (Removes-Perm r) (Perm.cons x (RemovesAll-Perm rs))
