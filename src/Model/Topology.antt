-- ===== src/Model/Topology.antt =====
-- crates/calandria-sim/src/model/topology.rs: the fixed set of duties of a simulation. The sort and
-- the binary search of the standard library are an insertion sort and a membership test.
use calandria.Prelude.{
  ◌≤◌, ◌<◌, ◌≡◌, Option, none, some, Bool, false, List, [], ◌∷◌, Pairs, ◌⊎◌, leb, ◌==◌, ◌||◌,
  if◌then◌else◌, Result, ok, err, Perm,
}
use mathlib.Core.List.Perm
use calandria.Model.{DutyId}

pub record Topology : Type 0 where
  pub duties : List DutyId

pub data TopologyError : Type 0 where
  empty : TopologyError
  duplicate : DutyId → TopologyError

unfoldable pub place : DutyId → List DutyId → List DutyId
place d [] = d ∷ []
place d (x ∷ xs) = let rest = place d xs in if leb d x then d ∷ x ∷ xs else x ∷ rest

-- `sort_unstable`
unfoldable pub sort_duties : List DutyId → List DutyId
sort_duties [] = []
sort_duties (d ∷ ds) = place d (sort_duties ds)

-- The loop over `windows(2)`.
unfoldable pub first_duplicate : List DutyId → Option DutyId
first_duplicate [] = none
first_duplicate (d ∷ []) = none
first_duplicate (d ∷ e ∷ ds) =
    let rest = first_duplicate (e ∷ ds) in if d == e then some d else rest

-- `Topology::new`, from the sorted duties on.
unfoldable pub of_sorted : List DutyId → Result Topology TopologyError
of_sorted [] = err empty
of_sorted (d ∷ ds) = elim (first_duplicate (d ∷ ds)) [
  | some e ↦ err (duplicate e)
  | none ↦ ok (record { duties = d ∷ ds })
]

unfoldable pub topology : List DutyId → Result Topology TopologyError
topology ds = of_sorted (sort_duties ds)

unfoldable pub includes : List DutyId → DutyId → Bool
includes [] duty = false
includes (d ∷ ds) duty = (d == duty) || includes ds duty

abbrev pub contains : Topology → DutyId → Bool
contains t duty = includes t.duties duty

abbrev pub Ascending : List DutyId → Type 0
Ascending ds = Pairs ◌<◌ ds

abbrev Sorted : List DutyId → Type 0
Sorted ds = Pairs ◌≤◌ ds

abbrev Doubles : List DutyId → DutyId → Type 0
Doubles ds d = (rest : List DutyId) × Perm ds (d ∷ d ∷ rest)

-- What the construction of a topology comes to, of any duties.
abbrev pub Builds : List DutyId → Result Topology TopologyError → Type 0
Builds ds r =
    ((ds ≡ []) × (r ≡ err empty))
    ⊎ ((d : DutyId) × (rest : List DutyId) × Perm ds (d ∷ d ∷ rest) × (r ≡ err (duplicate d)))
    ⊎ ((t : Topology) × (r ≡ ok t) × Perm t.duties ds × Ascending t.duties)
