-- ===== src/Resource.antt =====
-- crates/calandria/src/resource: bounded owner-local slots fenced by generations.
-- `usize` is taken to be 64 bits wide, so the conversions between it and `u64` never fail.
-- A slot index out of the vector's range panics.
pub mod Lookup
pub mod Invariant
pub mod Admission
pub mod Removal
pub mod Stale
pub mod Tokens
mod Tests
use calandria.Prelude.{
  ℕ, ◌+◌, ◌-◌, Option, none, some, Bool, true, false, List, [], ◌∷◌, length, leb, ◌==◌, get_elem?,
  set, replicate, if◌then◌else◌, ◌||◌, Result, ok, err, Outcome, returns, panics, ◌>>=◌, Eq,
}
use calandria.Words.{checked_add, checked_sub, or_panic}

-- `ResourceOwnerId`, `ResourceSlotId` and `ResourceGeneration`
abbrev pub ResourceOwnerId : Type 0
ResourceOwnerId = ℕ

abbrev pub ResourceSlotId : Type 0
ResourceSlotId = ℕ

abbrev pub ResourceGeneration : Type 0
ResourceGeneration = ℕ

-- `ResourceGeneration::checked_next`
abbrev pub checked_next : ResourceGeneration → Option ResourceGeneration
checked_next g = checked_add g 1

pub record ResourceToken : Type 0 where
  pub owner : ResourceOwnerId
  pub slot : ResourceSlotId
  pub generation : ResourceGeneration

pub data Slot {ℓ} (K : Type ℓ) (R : Type ℓ) : Type ℓ where
  vacant : ResourceGeneration → Slot K R
  occupied : ResourceGeneration → K → R → Slot K R
  exhausted : Slot K R

pub record ResourceTable {ℓ} (K : Type ℓ) (R : Type ℓ) : Type ℓ where
  pub owner : ResourceOwnerId
  pub capacity : ℕ
  pub slots : List (Slot K R)
  pub active : ℕ
  pub exhausted_count : ℕ

pub data ResourceAdmissionFailure : Type 0 where
  identity_in_use : ResourceAdmissionFailure
  capacity_reached : ℕ → ResourceAdmissionFailure
  token_space_exhausted : ResourceAdmissionFailure

pub record ResourceAdmissionError {ℓ} (K : Type ℓ) (R : Type ℓ) : Type ℓ where
  pub identity : K
  pub resource : R
  pub failure : ResourceAdmissionFailure

pub data ResourceTokenFailure : Type 0 where
  owner_mismatch : ResourceOwnerId → ResourceOwnerId → ResourceTokenFailure
  slot_out_of_bounds : ResourceSlotId → ℕ → ResourceTokenFailure
  slot_vacant : ResourceSlotId → ResourceGeneration → ResourceTokenFailure
  generation_mismatch :
      ResourceSlotId → ResourceGeneration → ResourceGeneration → ResourceTokenFailure
  slot_exhausted : ResourceSlotId → ResourceTokenFailure

pub record ResourceTableSnapshot : Type 0 where
  pub owner : ResourceOwnerId
  pub capacity : ℕ
  pub active : ℕ
  pub vacant : ℕ
  pub exhausted : ℕ

module _ {ℓ} {K R : Type ℓ} where
  pub token_failure : Slot K R → ResourceToken → ResourceTokenFailure
  token_failure (vacant g) token = slot_vacant token.slot g
  token_failure (occupied g k r) token = generation_mismatch token.slot g token.generation
  token_failure exhausted token = slot_exhausted token.slot

  pub starting_at : ResourceOwnerId → ℕ → ResourceGeneration → ResourceTable K R
  starting_at owner capacity generation = record {
    owner = owner;
    capacity = capacity;
    slots = replicate capacity (vacant generation);
    active = 0;
    exhausted_count = 0;
  }

  pub new : ResourceOwnerId → ℕ → ResourceTable K R
  unfolding starting_at
  new owner capacity = starting_at owner capacity 0

  pub validate_owner_and_slot : ResourceTable K R → ResourceToken → Result ℕ ResourceTokenFailure
  validate_owner_and_slot t token =
      if token.owner == t.owner
      then if leb t.capacity token.slot
        then err (slot_out_of_bounds token.slot t.capacity)
        else ok token.slot
      else err (owner_mismatch t.owner token.owner)

  -- The match of `validate_token` and of `get` on the slot.
  pub resolve : Slot K R → ResourceToken → Result (K × R) ResourceTokenFailure
  unfolding token_failure
  resolve (vacant g) token = err (token_failure (vacant g) token)
  resolve exhausted token = err (token_failure exhausted token)
  resolve (occupied g k r) token =
      if g == token.generation then ok (k, r) else err (token_failure (occupied g k r) token)

  pub get : ResourceTable K R → ResourceToken → Outcome (Result (K × R) ResourceTokenFailure)
  unfolding validate_owner_and_slot resolve
  get t token = elim (validate_owner_and_slot t token) [
    | err failure ↦ returns (err failure)
    | ok index ↦ elim (get_elem? t.slots index) [
      | none ↦ panics
      | some slot ↦ returns (resolve slot token)
    ]
  ]

  -- `get_mut`, with what the caller then writes through the borrowed resource.
  pub get_mut :
      ResourceTable K R
      → ResourceToken
      → (R → R)
      → Outcome (ResourceTable K R × Result (K × R) ResourceTokenFailure)
  unfolding get
  get_mut t token write = get t token >>= elim [
    | err failure ↦ returns (t, err failure)
    | ok (k, r) ↦ returns (
      record t { slots = set t.slots token.slot (occupied token.generation k (write r)) },
      ok (k, r),
    )
  ]

  -- The slot that `remove` leaves, and the exhausted count with it.
  retire : ResourceTable K R → ℕ → Option ResourceGeneration → Outcome (ResourceTable K R)
  retire t index (some next) = returns (record t { slots = set t.slots index (vacant next) })
  retire t index none = or_panic (checked_add t.exhausted_count 1) >>= λ count.
      returns (record t { slots = set t.slots index exhausted; exhausted_count = count })

  pub remove :
      ResourceTable K R
      → ResourceToken
      → Outcome (ResourceTable K R × Result (K × R) ResourceTokenFailure)
  unfolding get retire
  remove t token = get t token >>= elim [
    | err failure ↦ returns (t, err failure)
    | ok (k, r) ↦ or_panic (checked_sub t.active 1) >>= λ active.
        retire (record t { active = active }) token.slot (checked_next token.generation) >>= λ t'.
        returns (t', ok (k, r))
  ]

  pub snapshot : ResourceTable K R → Outcome ResourceTableSnapshot
  snapshot t = or_panic (checked_add t.active t.exhausted_count) >>= λ unavailable.
      or_panic (checked_sub t.capacity unavailable) >>= λ free. returns (record {
        owner = t.owner;
        capacity = t.capacity;
        active = t.active;
        vacant = free;
        exhausted = t.exhausted_count;
      })

  pub next_vacant_from : ℕ → List (Slot K R) → Option (ℕ × ResourceGeneration)
  next_vacant_from index [] = none
  next_vacant_from index (vacant g ∷ slots) = some (index, g)
  next_vacant_from index (occupied g k r ∷ slots) = next_vacant_from (index + 1) slots
  next_vacant_from index (exhausted ∷ slots) = next_vacant_from (index + 1) slots

  pub next_vacant : ResourceTable K R → Option (ℕ × ResourceGeneration)
  unfolding next_vacant_from
  next_vacant t = next_vacant_from 0 t.slots

  pub iter_from : ResourceOwnerId → ℕ → List (Slot K R) → List (ResourceToken × K × R)
  iter_from owner index [] = []
  iter_from owner index (vacant g ∷ slots) = iter_from owner (index + 1) slots
  iter_from owner index (exhausted ∷ slots) = iter_from owner (index + 1) slots
  iter_from owner index (occupied g k r ∷ slots) =
      (record { owner = owner; slot = index; generation = g }, k, r)
      ∷ iter_from owner (index + 1) slots

  pub iter : ResourceTable K R → List (ResourceToken × K × R)
  unfolding iter_from
  iter t = iter_from t.owner 0 t.slots

module _ {ℓ} {K R : Type ℓ} ⦃e : Eq K⦄ where
  pub any_identity : List (Slot K R) → K → Bool
  any_identity [] identity = false
  any_identity (vacant g ∷ slots) identity = any_identity slots identity
  any_identity (exhausted ∷ slots) identity = any_identity slots identity
  any_identity (occupied g k r ∷ slots) identity = e.eq k identity || any_identity slots identity

  pub contains_identity : ResourceTable K R → K → Bool
  unfolding any_identity
  contains_identity t identity = any_identity t.slots identity

  -- The part of `admit` behind the search for a vacant slot.
  admit_at :
      ResourceTable K R
      → K
      → R
      → Option (ℕ × ResourceGeneration)
      → Outcome (ResourceTable K R × Result ResourceToken (ResourceAdmissionError K R))
  admit_at t identity resource none = returns (
    t,
    err (record { identity = identity; resource = resource; failure = token_space_exhausted }),
  )
  admit_at t identity resource (some (index, g)) = or_panic (checked_add t.active 1) >>= λ active.
      returns (
        record t { slots = set t.slots index (occupied g identity resource); active = active },
        ok (record { owner = t.owner; slot = index; generation = g }),
      )

  pub admit :
      ResourceTable K R
      → K
      → R
      → Outcome (ResourceTable K R × Result ResourceToken (ResourceAdmissionError K R))
  unfolding contains_identity admit_at next_vacant
  admit t identity resource =
      if contains_identity t identity
      then returns
          (t, err (record { identity = identity; resource = resource; failure = identity_in_use }))
      else if t.active == t.capacity
      then returns (
        t,
        err (record {
          identity = identity;
          resource = resource;
          failure = capacity_reached t.capacity;
        }),
      )
      else admit_at t identity resource (next_vacant t)

  pub token_for_from : ResourceOwnerId → ℕ → List (Slot K R) → K → Option ResourceToken
  token_for_from owner index [] identity = none
  token_for_from owner index (vacant g ∷ slots) identity =
      token_for_from owner (index + 1) slots identity
  token_for_from owner index (exhausted ∷ slots) identity =
      token_for_from owner (index + 1) slots identity
  token_for_from owner index (occupied g k r ∷ slots) identity =
      let rest = token_for_from owner (index + 1) slots identity in
      if e.eq k identity
      then some (record { owner = owner; slot = index; generation = g })
      else rest

  pub token_for : ResourceTable K R → K → Option ResourceToken
  unfolding token_for_from
  token_for t identity = token_for_from t.owner 0 t.slots identity
