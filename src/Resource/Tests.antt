-- ===== src/Resource/Tests.antt =====
-- The theorems about resource tables at tables of two slots.
use calandria.Prelude.{
  ℕ, ◌+◌, ◌<◌, ◌≡◌, ◌⊎◌, refl, some, List, [], ◌∷◌, ok, err, returns, arith, get_elem?, sum_by,
  true, false, nat_eq,
}
use calandria.Resource.{
  vacant, occupied, ResourceToken, ResourceTable, ResourceTokenFailure, ResourceTableSnapshot, get,
  admit, remove, contains_identity, snapshot, any_identity, identity_in_use, capacity_reached,
  token_space_exhausted, generation_mismatch,
}
use calandria.Resource.Lookup.{occupied_one, exhausted_one}
use calandria.Resource.Invariant.{IsValid, snapshot_lem}
use calandria.Resource.Stale.{Op, admits, step, run, run-IsValid, get-run-remove}
use calandria.Resource.Tokens.{filled, admit_lem}

-- Identity 7 holds resource 70 at generation 3; slot 1 is vacant.
abbrev half : ResourceTable ℕ ℕ
half = record {
  owner = 9;
  capacity = 2;
  slots = occupied 3 7 70 ∷ vacant 5 ∷ [];
  active = 1;
  exhausted_count = 0;
}

abbrev first : ResourceToken
first = record { owner = 9; slot = 0; generation = 3 }

abbrev second : ResourceToken
second = record { owner = 9; slot = 1; generation = 5 }

half-IsValid : IsValid half
unfolding any_identity
half-IsValid = record {
  sized = refl;
  usize = omega arith;
  live = refl;
  retired = refl;
  unique = (refl, tt);
}

abbrev emptied_half : ResourceTable ℕ ℕ
emptied_half = record half { slots = vacant 4 ∷ vacant 5 ∷ []; active = 0 }

abbrev history : List (Op ℕ ℕ)
history = admits 7 71 ∷ admits 8 80 ∷ []

abbrev refilled : ResourceTable ℕ ℕ
refilled = record half { slots = occupied 4 7 71 ∷ occupied 5 8 80 ∷ []; active = 2 }

stale_token : get refilled first ≡ returns (err (generation_mismatch 0 4 3))
unfolding get
stale_token = refl

snapshot_lem_example :
    (s : ResourceTableSnapshot) × (snapshot half ≡ returns s)
    × (s.active + s.vacant + s.exhausted ≡ s.capacity)
    × (s.active ≡ sum_by occupied_one half.slots)
    × (s.exhausted ≡ sum_by exhausted_one half.slots)
snapshot_lem_example = snapshot_lem half half-IsValid

run-IsValid_example : (t' : ResourceTable ℕ ℕ) × (run half history ≡ returns t') × IsValid t'
run-IsValid_example = run-IsValid half history half-IsValid

get-run-remove_example :
    (failure : ResourceTokenFailure) × (get refilled first ≡ returns (err failure))
unfolding remove run step admit
get-run-remove_example =
    get-run-remove half emptied_half refilled first 7 70 history half-IsValid refl refl

admit_lem_example :
    ((contains_identity half 7 ≡ true)
      × (admit half 7 1
          ≡ returns (half, err (record { identity = 7; resource = 1; failure = identity_in_use }))))
    ⊎ ((contains_identity half 7 ≡ false)
        × (1 ≡ half.capacity)
        × (admit half 7 1
            ≡ returns
                (half, err (record { identity = 7; resource = 1; failure = capacity_reached 2 }))))
    ⊎ ((contains_identity half 7 ≡ false)
        × (1 < half.capacity)
        × (half.active + 0 ≡ half.capacity)
        × (admit half 7 1
            ≡ returns (
              half,
              err (record { identity = 7; resource = 1; failure = token_space_exhausted }),
            )))
    ⊎ ((contains_identity half 7 ≡ false)
        × ((token : ResourceToken) × (token.owner ≡ half.owner)
            × (get_elem? half.slots token.slot ≡ some (vacant token.generation))
            × (admit half 7 1 ≡ returns (filled half token 7 1, ok token))))
admit_lem_example = admit_lem half 7 1 half-IsValid
