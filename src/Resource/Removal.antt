-- ===== src/Resource/Removal.antt =====
-- `remove` and `get_mut` of crates/calandria/src/resource keep a table valid, and never panic.
use calandria.Prelude.{
  ℕ, ◌+◌, ◌-◌, ◌≤◌, ◌<◌, ◌≡◌, refl, some, get_elem?, set, sum_by-set, length-set, arith, Eq, inl,
  inr, Result, ok, err, Outcome, returns, panics, if◌then◌else◌, leb, Bool-cases, ◌==◌,
}
use calandria.Words.{u64_max}
use calandria.Resource.{
  vacant, occupied, exhausted, ResourceToken, ResourceTable, ResourceTokenFailure, slot_vacant,
  slot_exhausted, generation_mismatch, get, get_mut, remove, retire, resolve,
}
use calandria.Resource.Invariant.{IsValid, Keeps, Rewrites, get_lem, get-ok}
use calandria.Resource.Lookup.{
  occupied_one, exhausted_one, occupied-exhausted-le, occupied-pos, Unique-emptied, Unique-rewrite,
}

module _ {ℓ} {K R : Type ℓ} ⦃e : Eq K⦄ where
  -- Emptying a live slot.
  vacate-IsValid :
      (t : ResourceTable K R) (index g g' : ℕ) (k : K) (r : R)
      → IsValid t
      → get_elem? t.slots index ≡ some (occupied g k r)
      → (1 ≤ t.active)
        × IsValid (record t { slots = set t.slots index (vacant g'); active = t.active - 1 })
  vacate-IsValid t index g g' k r v found =
      let live = sum_by-set occupied_one t.slots index (occupied g k r) (vacant g') found in
      let retired = sum_by-set exhausted_one t.slots index (occupied g k r) (vacant g') found in
      let size = length-set t.slots index (vacant g') in
      let one = occupied-pos t.slots index g k r found in
      (
        omega (arith, v.live),
        record {
          sized = omega (arith, v.sized);
          usize = v.usize;
          live = omega (arith, v.live);
          retired = omega (arith, v.retired);
          unique = Unique-emptied t.slots index (vacant g') refl v.unique;
        },
      )

  -- Retiring a live slot for good.
  exhaust-IsValid :
      (t : ResourceTable K R) (index g : ℕ) (k : K) (r : R)
      → IsValid t
      → get_elem? t.slots index ≡ some (occupied g k r)
      → (t.exhausted_count + 1 ≤ u64_max)
        × IsValid (record t {
          slots = set t.slots index exhausted;
          active = t.active - 1;
          exhausted_count = t.exhausted_count + 1;
        })
  exhaust-IsValid t index g k r v found =
      let live = sum_by-set occupied_one t.slots index (occupied g k r) exhausted found in
      let retired = sum_by-set exhausted_one t.slots index (occupied g k r) exhausted found in
      let size = length-set t.slots index exhausted in
      let one = occupied-pos t.slots index g k r found in
      let room = occupied-exhausted-le t.slots in
      (
        omega (arith, v.sized, v.usize, v.retired),
        record {
          sized = omega (arith, v.sized);
          usize = v.usize;
          live = omega (arith, v.live);
          retired = omega (arith, v.retired);
          unique = Unique-emptied t.slots index exhausted refl v.unique;
        },
      )

  -- What is left behind by the removal of generation `g` at a slot.
  abbrev pub removed : ResourceTable K R → ℕ → ℕ → ResourceTable K R
  removed t index g =
      if leb (g + 1) u64_max
      then record t { slots = set t.slots index (vacant (g + 1)); active = t.active - 1 }
      else record t {
        slots = set t.slots index exhausted;
        active = t.active - 1;
        exhausted_count = t.exhausted_count + 1;
      }

  -- A removal that finds its resource hands it out, and leaves a valid table.
  pub remove-ok :
      (t : ResourceTable K R) (token : ResourceToken) (k : K) (r : R)
      → IsValid t
      → get t token ≡ returns (ok (k, r))
      → (remove t token ≡ returns (removed t token.slot token.generation, ok (k, r)))
        × IsValid (removed t token.slot token.generation)
  unfolding remove retire
  remove-ok t token k r v h =
      let found = get-ok t token k r v h in
      let next = vacate-IsValid t token.slot token.generation (token.generation + 1) k r v found in
      let last = exhaust-IsValid t token.slot token.generation k r v found in
      elim (Bool-cases (leb (token.generation + 1) u64_max)) [
        | inl more ↦ (ground (arith, h, next), rw more next.1)
        | inr over ↦ (ground (arith, h, last), rw over last.1)
      ]

  pub removed-Rewrites :
      (t : ResourceTable K R) (index g : ℕ) (k : K) (r : R)
      → get_elem? t.slots index ≡ some (occupied g k r)
      → Rewrites t.slots (removed t index g).slots
  removed-Rewrites t index g k r found = elim (Bool-cases (leb (g + 1) u64_max)) [
    | inl more ↦
        rw more
          (inr (index, occupied g k r, vacant (g + 1), found, λ g' (p : g' < g). omega arith, refl))
    | inr over ↦ rw over (inr (index, occupied g k r, exhausted, found, λ g' p. tt, refl))
  ]

  pub remove-Keeps :
      (t : ResourceTable K R) (token : ResourceToken) → IsValid t → Keeps t (remove t token)
  unfolding remove resolve
  remove-Keeps t token v = elim (get_lem t token v) [
    | inl (failure, p) ↦ (t, err failure, ground (arith, p), v, inl refl)
    | inr (vacant g, found, p) ↦ (t, err (slot_vacant token.slot g), ground (arith, p), v, inl refl)
    | inr (exhausted, found, p) ↦
        (t, err (slot_exhausted token.slot), ground (arith, p), v, inl refl)
    | inr (occupied g k r, found, p) ↦ elim (Bool-cases (g == token.generation)) [
      | inl same ↦
          let done = remove-ok t token k r v (ground (arith, p)) in
          (
            removed t token.slot token.generation,
            ok (k, r),
            done.0,
            done.1,
            removed-Rewrites t token.slot token.generation k r (ground arith),
          )
      | inr stale ↦ (
        t,
        err (generation_mismatch token.slot g token.generation),
        ground (arith, p),
        v,
        inl refl,
      )
    ]
  ]

  -- Writing through a borrowed resource changes no count and no identity.
  write-IsValid :
      (t : ResourceTable K R) (index g : ℕ) (k : K) (r r' : R)
      → IsValid t
      → get_elem? t.slots index ≡ some (occupied g k r)
      → IsValid (record t { slots = set t.slots index (occupied g k r') })
  write-IsValid t index g k r r' v found =
      let live = sum_by-set occupied_one t.slots index (occupied g k r) (occupied g k r') found in
      let retired =
        sum_by-set exhausted_one t.slots index (occupied g k r) (occupied g k r') found in
      let size = length-set t.slots index (occupied g k r') in
      record {
        sized = omega (arith, v.sized);
        usize = v.usize;
        live = omega (arith, v.live);
        retired = omega (arith, v.retired);
        unique = Unique-rewrite t.slots index g k r r' found v.unique;
      }

  pub get_mut-Keeps :
      (t : ResourceTable K R) (token : ResourceToken) (write : R → R)
      → IsValid t
      → Keeps t (get_mut t token write)
  unfolding get_mut resolve
  get_mut-Keeps t token write v = elim (get_lem t token v) [
    | inl (failure, p) ↦ (t, err failure, ground (arith, p), v, inl refl)
    | inr (vacant g, found, p) ↦ (t, err (slot_vacant token.slot g), ground (arith, p), v, inl refl)
    | inr (exhausted, found, p) ↦
        (t, err (slot_exhausted token.slot), ground (arith, p), v, inl refl)
    | inr (occupied g k r, found, p) ↦ elim (Bool-cases (g == token.generation)) [
      | inl same ↦ (
        record t { slots = set t.slots token.slot (occupied token.generation k (write r)) },
        ok (k, r),
        ground (arith, p),
        write-IsValid t token.slot token.generation k r (write r) v (ground arith),
        inr (
          token.slot,
          occupied token.generation k r,
          occupied token.generation k (write r),
          ground arith,
          λ g' q. q,
          refl,
        ),
      )
      | inr stale ↦ (
        t,
        err (generation_mismatch token.slot g token.generation),
        ground (arith, p),
        v,
        inl refl,
      )
    ]
  ]

  -- A removal that succeeds was of a token that resolves.
  pub remove-inv :
      (t t₁ : ResourceTable K R) (token : ResourceToken) (k : K) (r : R)
      → IsValid t
      → remove t token ≡ returns (t₁, ok (k, r))
      → (get t token ≡ returns (ok (k, r))) × (t₁ ≡ removed t token.slot token.generation)
  unfolding remove
  remove-inv t t₁ token k r v h = go (get t token) refl
    where
      go :
          (o : Outcome (Result (K × R) ResourceTokenFailure))
          → get t token ≡ o
          → (get t token ≡ returns (ok (k, r))) × (t₁ ≡ removed t token.slot token.generation)
      go panics q = ground (arith, q)
      go (returns (err failure)) q = ground (arith, q)
      go (returns (ok (k', r'))) q =
          let done = remove-ok t token k' r' v q in
          (ground (arith, q, done), ground (arith, q, done))
