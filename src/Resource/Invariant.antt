-- ===== src/Resource/Invariant.antt =====
-- The accounting of a resource table, and that none of its panics can be reached.
use calandria.Prelude.{
  ℕ, ◌+◌, ◌-◌, ◌≤◌, ◌<◌, ◌≡◌, refl, some, true, List, length, get_elem?, set, sum_by, get_elem?-lt,
  arith, Eq, ◌⊎◌, inl, inr, ok, err, Outcome, returns, leb, Bool-cases, length-replicate, replicate,
  suc, zero, ◌==◌,
}
use calandria.Words.{u64_max}
use calandria.Resource.{
  Slot, vacant, occupied, exhausted, ResourceToken, ResourceTable, ResourceTokenFailure,
  owner_mismatch, slot_out_of_bounds, get, starting_at, snapshot, resolve, validate_owner_and_slot,
  ResourceTableSnapshot,
}
use calandria.Resource.Lookup.{occupied_one, exhausted_one, Unique, emptied, occupied-exhausted-le}

module _ {ℓ} {K R : Type ℓ} where
  -- The generation `g` lies in the past of a slot, which will not come back to it.
  abbrev pub Past : ℕ → Slot K R → Type 0
  Past g (vacant g') = g < g'
  Past g (occupied g' k r) = g < g'
  Past g exhausted = Unit

  -- A slot's new value keeps every generation that lay in the past of the old one there.
  abbrev pub Ages : Slot K R → Slot K R → Type 0
  Ages s s' = (g : ℕ) → Past g s → Past g s'

  -- One slot at most is written, and it ages.
  abbrev pub Rewrites : List (Slot K R) → List (Slot K R) → Type ℓ
  Rewrites slots slots' =
      (slots' ≡ slots)
      ⊎ ((j : ℕ) × (s : Slot K R) × (s' : Slot K R) × (get_elem? slots j ≡ some s)
          × Ages s s'
          × (slots' ≡ set slots j s'))

module _ {ℓ} {K R : Type ℓ} ⦃e : Eq K⦄ where
  -- The slots are as many as the capacity, a `usize`; both counts are exact; identities are unique.
  pub record IsValid (t : ResourceTable K R) : Type ℓ where
    pub sized : length t.slots ≡ t.capacity
    pub usize : t.capacity ≤ u64_max
    pub live : t.active ≡ sum_by occupied_one t.slots
    pub retired : t.exhausted_count ≡ sum_by exhausted_one t.slots
    pub unique : Unique t.slots

  -- In a valid table `get` returns, and where the owner and the slot fit it resolves that slot.
  pub get_lem :
      (t : ResourceTable K R) (token : ResourceToken)
      → IsValid t
      → ((failure : ResourceTokenFailure) × (get t token ≡ returns (err failure)))
        ⊎ ((slot : Slot K R) × (get_elem? t.slots token.slot ≡ some slot)
            × (get t token ≡ returns (resolve slot token)))
  unfolding get validate_owner_and_slot
  get_lem t token v = elim (Bool-cases (token.owner == t.owner)) [
    | inr other ↦ inl (owner_mismatch t.owner token.owner, ground arith)
    | inl own ↦ elim (Bool-cases (leb t.capacity token.slot)) [
      | inl out ↦ inl (slot_out_of_bounds token.slot t.capacity, ground arith)
      | inr within ↦
          let bound : token.slot < t.capacity = ground arith in
          let (slot, found) = get_elem?-lt t.slots token.slot (omega (arith, v.sized)) in
          inr (slot, found, ground arith)
    ]
  ]

  -- A token that resolves names a live slot of its own generation.
  pub get-ok :
      (t : ResourceTable K R) (token : ResourceToken) (k : K) (r : R)
      → IsValid t
      → get t token ≡ returns (ok (k, r))
      → get_elem? t.slots token.slot ≡ some (occupied token.generation k r)
  unfolding resolve
  get-ok t token k r v h = elim (get_lem t token v) [
    | inl (failure, p) ↦ ground (arith, p)
    | inr (vacant g, found, p) ↦ ground (arith, p)
    | inr (exhausted, found, p) ↦ ground (arith, p)
    | inr (occupied g k' r', found, p) ↦ ground (arith, p)
  ]

  -- What an operation comes to that does not panic, keeps the table valid, and lets no slot go
  -- back to a generation that it has left.
  abbrev pub Keeps {κ} :
      {A : Type κ} → ResourceTable K R → Outcome (ResourceTable K R × A) → Type (ℓ ⊔ κ)
  Keeps {A = A} t r =
      (t' : ResourceTable K R) × (out : A) × (r ≡ returns (t', out))
      × IsValid t'
      × Rewrites t.slots t'.slots

  sum_by-replicate :
      (f : Slot K R → ℕ) (n g : ℕ) → f (vacant g) ≡ 0 → sum_by f (replicate n (vacant g)) ≡ 0
  sum_by-replicate f zero g h = refl
  sum_by-replicate f (suc n) g h = omega (arith, sum_by-replicate f n g h)

  Unique-replicate : (n : ℕ) (s : Slot K R) → emptied s ≡ true → Unique (replicate n s)
  Unique-replicate zero s h = tt
  Unique-replicate (suc n) (vacant g) h = Unique-replicate n (vacant g) h
  Unique-replicate (suc n) exhausted h = Unique-replicate n exhausted h
  Unique-replicate (suc n) (occupied g k r) h = cc

  pub starting_at-IsValid :
      (owner capacity g : ℕ) → capacity ≤ u64_max → IsValid (starting_at owner capacity g)
  unfolding starting_at
  starting_at-IsValid owner capacity g h = record {
    sized = length-replicate capacity (vacant g);
    usize = h;
    live = omega (arith, sum_by-replicate occupied_one capacity g refl);
    retired = omega (arith, sum_by-replicate exhausted_one capacity g refl);
    unique = Unique-replicate capacity (vacant g) refl;
  }

  -- The snapshot of a valid table does not panic, and its three counts make up the capacity.
  pub snapshot_lem :
      (t : ResourceTable K R)
      → IsValid t
      → (s : ResourceTableSnapshot) × (snapshot t ≡ returns s)
        × (s.active + s.vacant + s.exhausted ≡ s.capacity)
        × (s.active ≡ sum_by occupied_one t.slots)
        × (s.exhausted ≡ sum_by exhausted_one t.slots)
  unfolding snapshot
  snapshot_lem t v =
      let room = occupied-exhausted-le t.slots in
      let within : t.active + t.exhausted_count ≤ t.capacity =
        omega (arith, v.live, v.retired, v.sized) in
      let bounded = v.usize in
      (
        record {
          owner = t.owner;
          capacity = t.capacity;
          active = t.active;
          vacant = t.capacity - (t.active + t.exhausted_count);
          exhausted = t.exhausted_count;
        },
        ground arith,
        omega arith,
        v.live,
        v.retired,
      )
