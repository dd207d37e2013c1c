-- ===== src/Resource/Stale.antt =====
-- Histories of a resource table: it stays valid, and a token once removed never resolves again.
use calandria.Prelude.{
  ℕ, zero, suc, ◌+◌, ◌≡◌, refl, some, List, [], ◌∷◌, get_elem?, set, arith, Eq, inl, inr, ok, err,
  Outcome, returns, ◌>>=◌, leb, Bool-cases, subst, sym, returns-inj, ◌∙◌,
}
use calandria.Words.{u64_max}
use calandria.Resource.{
  Slot, vacant, occupied, exhausted, ResourceToken, ResourceTable, ResourceTokenFailure, get,
  get_mut, remove, admit, resolve, slot_vacant, slot_exhausted, generation_mismatch,
}
use calandria.Resource.Invariant.{IsValid, Past, Ages, Rewrites, get_lem}
use calandria.Resource.Admission.{admit-Keeps}
use calandria.Resource.Removal.{remove-Keeps, get_mut-Keeps, remove-ok, remove-inv, removed}

-- One call that changes the table.
pub data Op {ℓ} (K : Type ℓ) (R : Type ℓ) : Type ℓ where
  admits : K → R → Op K R
  removes : ResourceToken → Op K R
  writes : ResourceToken → (R → R) → Op K R

module _ {ℓ} {K R : Type ℓ} ⦃e : Eq K⦄ where
  unfoldable pub step : ResourceTable K R → Op K R → Outcome (ResourceTable K R)
  step t (admits k r) = admit t k r >>= λ out. returns out.0
  step t (removes token) = remove t token >>= λ out. returns out.0
  step t (writes token write) = get_mut t token write >>= λ out. returns out.0

  unfoldable pub run : ResourceTable K R → List (Op K R) → Outcome (ResourceTable K R)
  run t [] = returns t
  run t (op ∷ ops) = step t op >>= λ t'. run t' ops

  abbrev pub PastAt : List (Slot K R) → ℕ → ℕ → Type 0
  PastAt [] i g = Unit
  PastAt (s ∷ slots) zero g = Past g s
  PastAt (s ∷ slots) (suc i) g = PastAt slots i g

  pub PastAt-set :
      (slots : List (Slot K R)) (i j g : ℕ) (s s' : Slot K R)
      → get_elem? slots j ≡ some s
      → Ages s s'
      → PastAt slots i g
      → PastAt (set slots j s') i g
  PastAt-set [] i j g s s' f a p = p
  PastAt-set (x ∷ slots) zero zero g s s' f a p =
      let same : x ≡ s = cc in a g (subst (Past g) same p)
  PastAt-set (x ∷ slots) zero (suc j) g s s' f a p = p
  PastAt-set (x ∷ slots) (suc i) zero g s s' f a p = p
  PastAt-set (x ∷ slots) (suc i) (suc j) g s s' f a p = PastAt-set slots i j g s s' f a p

  pub PastAt-get :
      (slots : List (Slot K R)) (i g : ℕ) (s : Slot K R)
      → get_elem? slots i ≡ some s
      → PastAt slots i g
      → Past g s
  PastAt-get [] i g s f p = cc
  PastAt-get (x ∷ slots) zero g s f p = let same : x ≡ s = cc in subst (Past g) same p
  PastAt-get (x ∷ slots) (suc i) g s f p = PastAt-get slots i g s f p

  pub PastAt-set_self :
      (slots : List (Slot K R)) (i g : ℕ) (s : Slot K R) → Past g s → PastAt (set slots i s) i g
  PastAt-set_self [] i g s p = tt
  PastAt-set_self (x ∷ slots) zero g s p = p
  PastAt-set_self (x ∷ slots) (suc i) g s p = PastAt-set_self slots i g s p

  -- A token whose generation lies in the past of its slot is refused.
  pub PastAt-refused :
      (t : ResourceTable K R) (token : ResourceToken)
      → IsValid t
      → PastAt t.slots token.slot token.generation
      → (failure : ResourceTokenFailure) × (get t token ≡ returns (err failure))
  unfolding resolve
  PastAt-refused t token v p = elim (get_lem t token v) [
    | inl refused ↦ refused
    | inr (vacant g, found, q) ↦ (slot_vacant token.slot g, ground (arith, q))
    | inr (exhausted, found, q) ↦ (slot_exhausted token.slot, ground (arith, q))
    | inr (occupied g k r, found, q) ↦
        let later = PastAt-get t.slots token.slot token.generation (occupied g k r) found p in
        (generation_mismatch token.slot g token.generation, ground (arith, q))
  ]

  -- A step of a valid table returns a valid table, whose slots differ in one place at most.
  pub StepsTo : ResourceTable K R → Outcome (ResourceTable K R) → Type ℓ
  StepsTo t r = (t' : ResourceTable K R) × (r ≡ returns t') × IsValid t' × Rewrites t.slots t'.slots

  pub step-StepsTo : (t : ResourceTable K R) (op : Op K R) → IsValid t → StepsTo t (step t op)
  unfolding step StepsTo
  step-StepsTo t (admits k r) v = let (t', out, q, v', w) = admit-Keeps t k r v in (t', rw q, v', w)
  step-StepsTo t (removes token) v =
      let (t', out, q, v', w) = remove-Keeps t token v in (t', rw q, v', w)
  step-StepsTo t (writes token write) v =
      let (t', out, q, v', w) = get_mut-Keeps t token write v in (t', rw q, v', w)

  PastAt-Rewrites :
      (slots slots' : List (Slot K R)) (i g : ℕ)
      → Rewrites slots slots'
      → PastAt slots i g
      → PastAt slots' i g
  PastAt-Rewrites slots slots' i g (inl same) p = subst (λ xs. PastAt xs i g) (sym same) p
  PastAt-Rewrites slots slots' i g (inr (j, s, s', found, ages, q)) p =
      subst (λ xs. PastAt xs i g) (sym q) (PastAt-set slots i j g s s' found ages p)

  -- What any history keeps true: the table is valid, and what is past stays past.
  run-PastAt :
      (t : ResourceTable K R) (ops : List (Op K R)) (i g : ℕ)
      → IsValid t
      → PastAt t.slots i g
      → (t' : ResourceTable K R) × (run t ops ≡ returns t') × IsValid t' × PastAt t'.slots i g
  unfolding run StepsTo
  run-PastAt t [] i g v p = (t, refl, v, p)
  run-PastAt t (op ∷ ops) i g v p =
      let (t₁, q, v₁, w) = step-StepsTo t op v in
      let (t₂, q₂, v₂, p₂) = run-PastAt t₁ ops i g v₁ (PastAt-Rewrites t.slots t₁.slots i g w p) in
      (t₂, rw q q₂, v₂, p₂)

  -- No history of admissions, removals and writes makes a valid table panic, and it stays valid:
  -- its counts are exact, its identities unique, and its slots as many as its capacity.
  pub run-IsValid :
      (t : ResourceTable K R) (ops : List (Op K R))
      → IsValid t
      → (t' : ResourceTable K R) × (run t ops ≡ returns t') × IsValid t'
  unfolding run StepsTo
  run-IsValid t [] v = (t, refl, v)
  run-IsValid t (op ∷ ops) v =
      let (t₁, q, v₁, w) = step-StepsTo t op v in
      let (t₂, q₂, v₂) = run-IsValid t₁ ops v₁ in (t₂, rw q q₂, v₂)

  removed-PastAt : (t : ResourceTable K R) (i g : ℕ) → PastAt (removed t i g).slots i g
  removed-PastAt t i g = elim (Bool-cases (leb (g + 1) u64_max)) [
    | inl more ↦ rw more (PastAt-set_self t.slots i g (vacant (g + 1)) (omega arith))
    | inr over ↦ rw over (PastAt-set_self t.slots i g exhausted tt)
  ]

  -- A token whose resource was removed from a valid table is refused after every later history,
  -- however its slot is used again.
  pub get-run-remove :
      (t t₁ t₂ : ResourceTable K R) (token : ResourceToken) (k : K) (r : R) (ops : List (Op K R))
      → IsValid t
      → remove t token ≡ returns (t₁, ok (k, r))
      → run t₁ ops ≡ returns t₂
      → (failure : ResourceTokenFailure) × (get t₂ token ≡ returns (err failure))
  get-run-remove t t₁ t₂ token k r ops v h later =
      let (q, same) = remove-inv t t₁ token k r v h in
      let v₁ : IsValid t₁ = subst IsValid (sym same) (remove-ok t token k r v q).1 in
      let past : PastAt t₁.slots token.slot token.generation =
        subst (λ (t' : ResourceTable K R). PastAt t'.slots token.slot token.generation) (sym same)
          (removed-PastAt t token.slot token.generation) in
      let (t₂', q₂, v₂, p₂) = run-PastAt t₁ ops token.slot token.generation v₁ past in
      let end : t₂' ≡ t₂ = returns-inj t₂' t₂ (sym q₂ ∙ later) in
      subst
        (λ (t' : ResourceTable K R).
          (failure : ResourceTokenFailure) × (get t' token ≡ returns (err failure)))
        end (PastAt-refused t₂' token v₂ p₂)
