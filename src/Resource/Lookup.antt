-- ===== src/Resource/Lookup.antt =====
-- What the searches over the slots of a resource table find.
use calandria.Prelude.{
  ℕ, zero, suc, ◌+◌, ◌<◌, ◌≡◌, refl, none, some, Bool, true, false, List, [], ◌∷◌, length,
  get_elem?, set, sum_by, arith, Eq, subst, sym, ◌≤◌, ◌∙◌,
}
use calandria.Resource.{Slot, vacant, occupied, exhausted, next_vacant_from, any_identity}

module _ {ℓ} {K R : Type ℓ} where
  -- One for an occupied slot, and one for an exhausted slot.
  abbrev pub occupied_one : Slot K R → ℕ
  occupied_one (vacant g) = 0
  occupied_one (occupied g k r) = 1
  occupied_one exhausted = 0

  abbrev pub exhausted_one : Slot K R → ℕ
  exhausted_one (vacant g) = 0
  exhausted_one (occupied g k r) = 0
  exhausted_one exhausted = 1

  -- The first vacant slot, counted from `index`.
  abbrev pub VacantAt : ℕ → List (Slot K R) → ℕ × ℕ → Type ℓ
  VacantAt index slots found =
      (j : ℕ) × (found.0 ≡ index + j) × (get_elem? slots j ≡ some (vacant found.1))

  VacantAt-cons :
      (index : ℕ) (slot : Slot K R) (slots : List (Slot K R)) (found : ℕ × ℕ)
      → VacantAt (index + 1) slots found
      → VacantAt index (slot ∷ slots) found
  VacantAt-cons index slot slots found (j, e, p) = (suc j, omega arith, p)

  next_vacant_from-VacantAt :
      (index : ℕ) (slots : List (Slot K R)) (found : ℕ × ℕ)
      → next_vacant_from index slots ≡ some found
      → VacantAt index slots found
  unfolding next_vacant_from
  next_vacant_from-VacantAt index [] found e = cc
  next_vacant_from-VacantAt index (vacant g ∷ slots) found e = (0, ground arith, ground arith)
  next_vacant_from-VacantAt index (occupied g k r ∷ slots) found e =
      VacantAt-cons index (occupied g k r) slots found
        (next_vacant_from-VacantAt (index + 1) slots found e)
  next_vacant_from-VacantAt index (exhausted ∷ slots) found e =
      VacantAt-cons index exhausted slots found
        (next_vacant_from-VacantAt (index + 1) slots found e)

  pub next_vacant_from-some :
      (slots : List (Slot K R)) (index g : ℕ)
      → next_vacant_from 0 slots ≡ some (index, g)
      → get_elem? slots index ≡ some (vacant g)
  next_vacant_from-some slots index g e =
      let (j, p, q) = next_vacant_from-VacantAt 0 slots (index, g) e in
      let same : index ≡ j = omega arith in
      subst (λ i. get_elem? slots i ≡ some (vacant g)) (sym same) q

  -- Where no slot is vacant, each is live or exhausted.
  pub next_vacant_from-none :
      (index : ℕ) (slots : List (Slot K R))
      → next_vacant_from index slots ≡ none
      → sum_by occupied_one slots + sum_by exhausted_one slots ≡ length slots
  unfolding next_vacant_from
  next_vacant_from-none index [] e = refl
  next_vacant_from-none index (vacant g ∷ slots) e = cc
  next_vacant_from-none index (occupied g k r ∷ slots) e =
      omega (arith, next_vacant_from-none (index + 1) slots e)
  next_vacant_from-none index (exhausted ∷ slots) e =
      omega (arith, next_vacant_from-none (index + 1) slots e)

  -- Live and exhausted slots never outnumber the slots.
  pub occupied-exhausted-le :
      (slots : List (Slot K R))
      → sum_by occupied_one slots + sum_by exhausted_one slots ≤ length slots
  occupied-exhausted-le [] = omega arith
  occupied-exhausted-le (vacant g ∷ slots) = omega (arith, occupied-exhausted-le slots)
  occupied-exhausted-le (occupied g k r ∷ slots) = omega (arith, occupied-exhausted-le slots)
  occupied-exhausted-le (exhausted ∷ slots) = omega (arith, occupied-exhausted-le slots)

  -- A live slot is counted.
  pub occupied-pos :
      (slots : List (Slot K R)) (i g : ℕ) (k : K) (r : R)
      → get_elem? slots i ≡ some (occupied g k r)
      → 0 < sum_by occupied_one slots
  occupied-pos [] i g k r e = cc
  occupied-pos (s ∷ slots) zero g k r e = let p : occupied_one s ≡ 1 = ground arith in omega arith
  occupied-pos (s ∷ slots) (suc i) g k r e = omega (arith, occupied-pos slots i g k r e)

eq_false_sym {ℓ} : {K : Type ℓ} ⦃e : Eq K⦄ (a b : K) → e.eq a b ≡ false → e.eq b a ≡ false
eq_false_sym ⦃e⦄ a b h = ground (arith, e.eq_iff a b, e.eq_iff b a)

module _ {ℓ} {K R : Type ℓ} ⦃e : Eq K⦄ where
  -- No two live slots own one identity.
  abbrev pub Unique : List (Slot K R) → Type 0
  Unique [] = Unit
  Unique (vacant g ∷ slots) = Unique slots
  Unique (exhausted ∷ slots) = Unique slots
  Unique (occupied g k r ∷ slots) = (any_identity slots k ≡ false) × Unique slots

  -- Emptying a slot brings in no identity.
  abbrev pub emptied : Slot K R → Bool
  emptied (occupied g k r) = false
  emptied _ = true

  pub any_identity-emptied :
      (slots : List (Slot K R)) (i : ℕ) (v : Slot K R) (k : K)
      → emptied v ≡ true
      → any_identity slots k ≡ false
      → any_identity (set slots i v) k ≡ false
  unfolding any_identity
  any_identity-emptied [] i v k ev h = h
  any_identity-emptied (s ∷ slots) zero v k ev h = ground arith
  any_identity-emptied (vacant g ∷ slots) (suc i) v k ev h = any_identity-emptied slots i v k ev h
  any_identity-emptied (exhausted ∷ slots) (suc i) v k ev h = any_identity-emptied slots i v k ev h
  any_identity-emptied (occupied g j r ∷ slots) (suc i) v k ev h =
      ground (arith, any_identity-emptied slots i v k ev)

  pub Unique-emptied :
      (slots : List (Slot K R)) (i : ℕ) (v : Slot K R)
      → emptied v ≡ true
      → Unique slots
      → Unique (set slots i v)
  unfolding any_identity
  Unique-emptied [] i v ev h = h
  Unique-emptied (vacant g ∷ slots) zero v ev h = ground arith
  Unique-emptied (exhausted ∷ slots) zero v ev h = ground arith
  Unique-emptied (occupied g k r ∷ slots) zero v ev h = ground arith
  Unique-emptied (vacant g ∷ slots) (suc i) v ev h = Unique-emptied slots i v ev h
  Unique-emptied (exhausted ∷ slots) (suc i) v ev h = Unique-emptied slots i v ev h
  Unique-emptied (occupied g k r ∷ slots) (suc i) v ev h =
      (any_identity-emptied slots i v k ev h.0, Unique-emptied slots i v ev h.1)

  -- Writing an identity into a slot brings in that one only.
  pub any_identity-set_occupied :
      (slots : List (Slot K R)) (i g : ℕ) (k j : K) (r : R)
      → e.eq k j ≡ false
      → any_identity slots j ≡ false
      → any_identity (set slots i (occupied g k r)) j ≡ false
  unfolding any_identity
  any_identity-set_occupied [] i g k j r ne h = h
  any_identity-set_occupied (vacant _ ∷ slots) zero g k j r ne h = ground arith
  any_identity-set_occupied (exhausted ∷ slots) zero g k j r ne h = ground arith
  any_identity-set_occupied (occupied _ _ _ ∷ slots) zero g k j r ne h = ground arith
  any_identity-set_occupied (vacant _ ∷ slots) (suc i) g k j r ne h =
      any_identity-set_occupied slots i g k j r ne h
  any_identity-set_occupied (exhausted ∷ slots) (suc i) g k j r ne h =
      any_identity-set_occupied slots i g k j r ne h
  any_identity-set_occupied (occupied _ k' _ ∷ slots) (suc i) g k j r ne h =
      ground (arith, any_identity-set_occupied slots i g k j r ne)

  pub Unique-set_occupied :
      (slots : List (Slot K R)) (i g : ℕ) (k : K) (r : R)
      → any_identity slots k ≡ false
      → Unique slots
      → Unique (set slots i (occupied g k r))
  unfolding any_identity
  Unique-set_occupied [] i g k r fresh h = h
  Unique-set_occupied (vacant _ ∷ slots) zero g k r fresh h = (fresh, h)
  Unique-set_occupied (exhausted ∷ slots) zero g k r fresh h = (fresh, h)
  Unique-set_occupied (occupied _ k' _ ∷ slots) zero g k r fresh h = (ground arith, h.1)
  Unique-set_occupied (vacant _ ∷ slots) (suc i) g k r fresh h =
      Unique-set_occupied slots i g k r fresh h
  Unique-set_occupied (exhausted ∷ slots) (suc i) g k r fresh h =
      Unique-set_occupied slots i g k r fresh h
  Unique-set_occupied (occupied _ k' _ ∷ slots) (suc i) g k r fresh h = (
    any_identity-set_occupied slots i g k k' r (eq_false_sym k' k (ground arith)) h.0,
    Unique-set_occupied slots i g k r (ground arith) h.1,
  )

  -- A slot written again under its own identity keeps the others' identities.
  any_identity-rewrite :
      (slots : List (Slot K R)) (i g : ℕ) (k j : K) (r r' : R)
      → get_elem? slots i ≡ some (occupied g k r)
      → any_identity (set slots i (occupied g k r')) j ≡ any_identity slots j
  unfolding any_identity
  any_identity-rewrite [] i g k j r r' h = cc
  any_identity-rewrite (s ∷ slots) zero g k j r r' h = ground arith
  any_identity-rewrite (vacant _ ∷ slots) (suc i) g k j r r' h =
      any_identity-rewrite slots i g k j r r' h
  any_identity-rewrite (exhausted ∷ slots) (suc i) g k j r r' h =
      any_identity-rewrite slots i g k j r r' h
  any_identity-rewrite (occupied _ _ _ ∷ slots) (suc i) g k j r r' h =
      ground (arith, any_identity-rewrite slots i g k j r r' h)

  pub Unique-rewrite :
      (slots : List (Slot K R)) (i g : ℕ) (k : K) (r r' : R)
      → get_elem? slots i ≡ some (occupied g k r)
      → Unique slots
      → Unique (set slots i (occupied g k r'))
  Unique-rewrite [] i g k r r' h u = cc
  Unique-rewrite (vacant _ ∷ slots) zero g k r r' h u = cc
  Unique-rewrite (exhausted ∷ slots) zero g k r r' h u = cc
  Unique-rewrite (occupied _ _ _ ∷ slots) zero g k r r' h u = ground arith
  Unique-rewrite (vacant _ ∷ slots) (suc i) g k r r' h u = Unique-rewrite slots i g k r r' h u
  Unique-rewrite (exhausted ∷ slots) (suc i) g k r r' h u = Unique-rewrite slots i g k r r' h u
  Unique-rewrite (occupied _ j _ ∷ slots) (suc i) g k r r' h u =
      (any_identity-rewrite slots i g k j r r' h ∙ u.0, Unique-rewrite slots i g k r r' h u.1)
