-- ===== src/Resource/Admission.antt =====
-- `admit` of crates/calandria/src/resource/table.rs keeps a table valid, and never panics.
use calandria.Prelude.{
  ℕ, ◌+◌, ◌≤◌, ◌≡◌, refl, some, false, get_elem?, set, sum_by-set, length-set, arith, Eq, inl, inr,
  ok, err, Bool-cases, Option-cases, ◌==◌,
}
use calandria.Words.{u64_max}
use calandria.Resource.{
  vacant, occupied, ResourceTable, next_vacant, any_identity, admit, identity_in_use,
  capacity_reached, token_space_exhausted,
}
use calandria.Resource.Invariant.{IsValid, Keeps}
use calandria.Resource.Lookup.{
  occupied_one, exhausted_one, next_vacant_from-some, occupied-exhausted-le, Unique-set_occupied,
}

module _ {ℓ} {K R : Type ℓ} ⦃e : Eq K⦄ where
  -- Writing an identity that is new into a vacant slot.
  pub fill-IsValid :
      (t : ResourceTable K R) (index g : ℕ) (k : K) (r : R)
      → IsValid t
      → any_identity t.slots k ≡ false
      → get_elem? t.slots index ≡ some (vacant g)
      → (t.active + 1 ≤ u64_max)
        × IsValid (record t { slots = set t.slots index (occupied g k r); active = t.active + 1 })
  fill-IsValid t index g k r v fresh found =
      let live = sum_by-set occupied_one t.slots index (vacant g) (occupied g k r) found in
      let retired = sum_by-set exhausted_one t.slots index (vacant g) (occupied g k r) found in
      let size = length-set t.slots index (occupied g k r) in
      let room = occupied-exhausted-le (set t.slots index (occupied g k r)) in
      (
        omega (arith, v.sized, v.usize, v.live),
        record {
          sized = omega (arith, v.sized);
          usize = v.usize;
          live = omega (arith, v.live);
          retired = omega (arith, v.retired);
          unique = Unique-set_occupied t.slots index g k r fresh v.unique;
        },
      )

  pub admit-Keeps : (t : ResourceTable K R) (k : K) (r : R) → IsValid t → Keeps t (admit t k r)
  unfolding admit
  admit-Keeps t k r v = elim (Bool-cases (any_identity t.slots k)) [
    | inl used ↦ (
      t,
      err (record { identity = k; resource = r; failure = identity_in_use }),
      ground arith,
      v,
      inl refl,
    )
    | inr fresh ↦ elim (Bool-cases (t.active == t.capacity)) [
      | inl full ↦ (
        t,
        err (record { identity = k; resource = r; failure = capacity_reached t.capacity }),
        ground arith,
        v,
        inl refl,
      )
      | inr room ↦ elim (Option-cases (next_vacant t)) [
        | inl gone ↦ (
          t,
          err (record { identity = k; resource = r; failure = token_space_exhausted }),
          ground arith,
          v,
          inl refl,
        )
        | inr ((index, g), found) ↦
            let filled =
              fill-IsValid t index g k r v fresh (next_vacant_from-some t.slots index g found) in
            (
              record t { slots = set t.slots index (occupied g k r); active = t.active + 1 },
              ok (record { owner = t.owner; slot = index; generation = g }),
              ground (arith, found, filled),
              filled.1,
              inr (
                index,
                vacant g,
                occupied g k r,
                next_vacant_from-some t.slots index g found,
                λ g' p. p,
                refl,
              ),
            )
      ]
    ]
  ]
