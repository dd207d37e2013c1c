-- ===== src/Resource/Tokens.antt =====
-- The tokens of a resource table: what an admission gives out, and when it is refused.
use calandria.Prelude.{
  ◌+◌, ◌<◌, ◌≡◌, ◌≢◌, refl, some, true, false, get_elem?, set, arith, Eq, ◌⊎◌, inl, inr, ok, err,
  returns, Bool-cases, Option-cases, ◌==◌,
}
use calandria.Resource.{
  vacant, occupied, ResourceToken, ResourceTable, identity_in_use, capacity_reached,
  token_space_exhausted, admit, any_identity, contains_identity, next_vacant,
}
use calandria.Resource.Lookup.{next_vacant_from-some, next_vacant_from-none, occupied-exhausted-le}
use calandria.Resource.Invariant.{IsValid}
use calandria.Resource.Admission.{fill-IsValid}

module _ {ℓ} {K R : Type ℓ} ⦃e : Eq K⦄ where
  -- The table after an admission at a slot.
  abbrev pub filled : ResourceTable K R → ResourceToken → K → R → ResourceTable K R
  filled t token k r = record t {
    slots = set t.slots token.slot (occupied token.generation k r);
    active = t.active + 1;
  }

  -- What an admission was, when it succeeds.
  record Admitted (t t' : ResourceTable K R) (token : ResourceToken) (k : K) (r : R) : Type ℓ where
    new : any_identity t.slots k ≡ false
    own : token.owner ≡ t.owner
    free : get_elem? t.slots token.slot ≡ some (vacant token.generation)
    after : t' ≡ filled t token k r

  -- An admission into a valid table is refused with the identity and the resource handed back and
  -- the table unchanged: for an identity in use, else when every slot is live, else when every
  -- slot is live or exhausted. In every other case it succeeds, and counts one more live resource.
  pub admit_lem :
      (t : ResourceTable K R) (k : K) (r : R)
      → IsValid t
      → ((contains_identity t k ≡ true)
          × (admit t k r
              ≡ returns
                  (t, err (record { identity = k; resource = r; failure = identity_in_use }))))
        ⊎ ((contains_identity t k ≡ false)
            × (t.active ≡ t.capacity)
            × (admit t k r
                ≡ returns (
                  t,
                  err (record {
                    identity = k;
                    resource = r;
                    failure = capacity_reached t.capacity;
                  }),
                )))
        ⊎ ((contains_identity t k ≡ false)
            × (t.active < t.capacity)
            × (t.active + t.exhausted_count ≡ t.capacity)
            × (admit t k r
                ≡ returns (
                  t,
                  err (record { identity = k; resource = r; failure = token_space_exhausted }),
                )))
        ⊎ ((contains_identity t k ≡ false)
            × ((token : ResourceToken) × (token.owner ≡ t.owner)
                × (get_elem? t.slots token.slot ≡ some (vacant token.generation))
                × (admit t k r ≡ returns (filled t token k r, ok token))))
  unfolding admit
  admit_lem t k r v = elim (Bool-cases (any_identity t.slots k)) [
    | inl used ↦ inl (used, ground arith)
    | inr fresh ↦ elim (Bool-cases (t.active == t.capacity)) [
      | inl full ↦ inr (inl (fresh, ground arith, ground arith))
      | inr room ↦ elim (Option-cases (next_vacant t)) [
        | inl gone ↦
            let counted = next_vacant_from-none 0 t.slots gone in
            let below = occupied-exhausted-le t.slots in
            let total : t.active + t.exhausted_count ≡ t.capacity =
              omega (arith, v.live, v.retired, v.sized) in
            let unequal : t.active ≢ t.capacity = ground arith in
            inr (inr (inl (fresh, omega arith, total, ground arith)))
        | inr ((index, g), found) ↦
            let there = next_vacant_from-some t.slots index g found in
            let fits = fill-IsValid t index g k r v fresh there in
            inr (
              inr (
                inr (
                  fresh,
                  (
                    record { owner = t.owner; slot = index; generation = g },
                    refl,
                    there,
                    ground (arith, found, fits),
                  ),
                )))
      ]
    ]
  ]
