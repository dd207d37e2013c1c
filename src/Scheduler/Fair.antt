-- ===== src/Scheduler/Fair.antt =====
-- The fairness of `RoundRobin` (crates/calandria-sim/src/scheduler/round_robin.rs).
use mathlib.Core.List.Memᴰ
use mathlib.Core.List.{Memᴰ}
use calandria.Prelude.{
  ℕ, ◌≤◌, ◌<◌, ◌≡◌, ◌≢◌, refl, subst, Option, none, some, Bool, true, false, List, [], ◌∷◌, length,
  ltb, leb, ◌==◌, ◌&&◌, ◌||◌, if◌then◌else◌, returns, arith, ◌⊎◌, inl, inr, All, Bool-cases,
}
use calandria.Model.{DutyId}
use calandria.Action.{ActionKey, ReadySet}
use calandria.Scheduler.{
  min_duty, duties_after, find_duty, duties_of, after_cursor, next_owner, choose_round_robin,
  choose_all,
}
use calandria.Scheduler.Count.{count, count-length, count-lt, count-pos, All-Mem}

-- `x` is met on the way from the cursor to `d`, in the cyclic order of the duties.
abbrev ahead : Option DutyId → DutyId → DutyId → Bool
ahead none d x = leb x d
ahead (some c) d x = if ltb c d then ltb c x && leb x d else ltb c x || leb x d

All-le : (m n : ℕ) (xs : List ℕ) → m ≤ n → All (λ x. n ≤ x) xs → All (λ x. m ≤ x) xs
All-le m n [] h a = tt
All-le m n (x ∷ xs) h a = (omega (arith, a.0), All-le m n xs h a.1)

min_duty-cases :
    (ds : List DutyId)
    → ((min_duty ds ≡ none) × (ds ≡ []))
      ⊎ ((m : DutyId) × (min_duty ds ≡ some m) × All (λ x. m ≤ x) ds × Memᴰ m ds)
unfolding min_duty
min_duty-cases [] = inl (refl, refl)
min_duty-cases (d ∷ ds) = elim (min_duty-cases ds) [
  | inl (empty, nothing) ↦ inr (d, rw empty refl, (omega arith, rw nothing tt), Memᴰ.head refl)
  | inr (m, found, least, i) ↦ elim (Bool-cases (leb d m)) [
    | inl below ↦ inr (
      d,
      rw (found, below) refl,
      (omega arith, All-le d m ds (ground arith) least),
      Memᴰ.head refl,
    )
    | inr above ↦ inr (m, rw (found, above) refl, (ground arith, least), Memᴰ.tail i)
  ]
]

duties_after-Mem :
    (c d : DutyId) (ds : List DutyId) → Memᴰ d ds → c < d → Memᴰ d (duties_after c ds)
unfolding duties_after
duties_after-Mem c d [] i h = i
duties_after-Mem c d (x ∷ xs) (Memᴰ.head e) h =
    let after : ltb c x ≡ true = ground arith in rw after (Memᴰ.head e)
duties_after-Mem c d (x ∷ xs) (Memᴰ.tail m) h = elim (Bool-cases (ltb c x)) [
  | inl after ↦ rw after (Memᴰ.tail (duties_after-Mem c d xs m h))
  | inr before ↦ rw before (duties_after-Mem c d xs m h)
]

Mem-duties_after :
    (c d : DutyId) (ds : List DutyId) → Memᴰ d (duties_after c ds) → (c < d) × Memᴰ d ds
unfolding duties_after
Mem-duties_after c d [] i = absurd (Memᴰ.not-nil i)
Mem-duties_after c d (x ∷ xs) i = elim (Bool-cases (ltb c x)) [
  | inl after ↦
      let j : Memᴰ d (x ∷ duties_after c xs) = rw after at i in
      elim (Memᴰ.cases_cons j) [
        | inl e ↦ (ground arith, Memᴰ.head e)
        | inr m ↦ let (h, k) = Mem-duties_after c d xs m in (h, Memᴰ.tail k)
      ]
  | inr before ↦
      let j : Memᴰ d (duties_after c xs) = rw before at i in
      let (h, k) = Mem-duties_after c d xs j in (h, Memᴰ.tail k)
]

find_duty-Mem :
    (owner : DutyId) (actions : ReadySet)
    → Memᴰ owner (duties_of actions)
    → (a : ActionKey) × (find_duty owner actions ≡ some a) × (a.duty ≡ owner) × Memᴰ a actions
unfolding find_duty
find_duty-Mem owner [] i = absurd (Memᴰ.not-nil i)
find_duty-Mem owner (a ∷ actions) i = elim (Bool-cases (a.duty == owner)) [
  | inl mine ↦ (a, rw mine refl, ground arith, Memᴰ.head refl)
  | inr other ↦ elim (Memᴰ.cases_cons i) [
    | inl e ↦ absurd (ground arith)
    | inr j ↦
        let (b, found, owned, k) = find_duty-Mem owner actions j in
        (b, rw (other, found) refl, owned, Memᴰ.tail k)
  ]
]

abbrev Leads : Option DutyId → DutyId → ReadySet → Type 0
Leads cursor d actions =
    (o : DutyId) × (next_owner cursor actions ≡ some o)
    × Memᴰ o (duties_of actions)
    × (ahead cursor d o ≡ true)

least-Leads :
    (cursor : Option DutyId) (d : DutyId) (actions : ReadySet)
    → after_cursor cursor actions ≡ none
    → Memᴰ d (duties_of actions)
    → ((o : DutyId) → o ≤ d → ahead cursor d o ≡ true)
    → Leads cursor d actions
unfolding next_owner
least-Leads cursor d actions none_after i met = elim (min_duty-cases (duties_of actions)) [
  | inl (_, nothing) ↦ absurd (Memᴰ.not-nil (subst (Memᴰ d) nothing i))
  | inr (m, found, least, j) ↦ (
    m,
    rw (next_owner, none_after, found) refl,
    j,
    met m (All-Mem (λ x. m ≤ x) d (duties_of actions) least i),
  )
]

next_owner-Leads :
    (cursor : Option DutyId) (d : DutyId) (actions : ReadySet)
    → Memᴰ d (duties_of actions)
    → Leads cursor d actions
unfolding next_owner after_cursor
next_owner-Leads none d actions i = least-Leads none d actions refl i (λ o h. ground arith)
next_owner-Leads (some c) d actions i = elim (min_duty-cases (duties_after c (duties_of actions))) [
  | inl (found, nothing) ↦
      let passed : ¬ (c < d) =
        λ h. Memᴰ.not-nil (subst (Memᴰ d) nothing (duties_after-Mem c d (duties_of actions) i h)) in
      least-Leads (some c) d actions found i (λ o h. ground arith)
  | inr (m, found, least, j) ↦
      let (after, k) = Mem-duties_after c m (duties_of actions) j in
      let near : c < d → m ≤ d = λ h.
        All-Mem (λ x. m ≤ x) d (duties_after c (duties_of actions)) least
          (duties_after-Mem c d (duties_of actions) i h) in
      (
        m,
        rw (next_owner, found) refl,
        k,
        elim (Bool-cases (ltb c d)) [
          | inl h ↦ ground (arith, near (ground arith))
          | inr h ↦ ground arith
        ],
      )
]

ahead-shrinks :
    (cursor : Option DutyId) (d o x : DutyId)
    → o ≢ d
    → ahead cursor d o ≡ true
    → ahead (some o) d x ≡ true
    → ahead cursor d x ≡ true
ahead-shrinks none d o x apart first later = ground arith
ahead-shrinks (some c) d o x apart first later = ground arith

ahead-passed : (d o : DutyId) → o ≢ d → ahead (some o) d o ≡ false
ahead-passed d o apart = ground arith

ahead-own : (cursor : Option DutyId) (d : DutyId) → ahead cursor d d ≡ true
ahead-own none d = ground arith
ahead-own (some c) d = ground arith

-- One action of each ready set, in order.
abbrev pub EachIn : List ActionKey → List ReadySet → Type 0
EachIn [] [] = Unit
EachIn [] (r ∷ readies) = ⊥
EachIn (a ∷ actions) [] = ⊥
EachIn (a ∷ actions) (r ∷ readies) = Memᴰ a r × EachIn actions readies

-- The choices from some ready sets, one of them for the duty.
abbrev pub Serves : Option DutyId → DutyId → List ReadySet → Type 0
Serves cursor d readies =
    (last : Option DutyId) × (actions : List ActionKey) × (choose_all cursor readies
      ≡ returns (last, actions))
    × EachIn actions readies
    × Memᴰ d (duties_of actions)

choose_round_robin-ahead :
    (cursor : Option DutyId) (d : DutyId) (ready : ReadySet)
    → Memᴰ d (duties_of ready)
    → (a : ActionKey) × (choose_round_robin cursor ready ≡ returns (some a.duty, a))
      × Memᴰ a ready
      × (ahead cursor d a.duty ≡ true)
unfolding choose_round_robin
choose_round_robin-ahead cursor d ready i =
    let (o, owner, j, met) = next_owner-Leads cursor d ready i in
    let (a, found, owned, k) = find_duty-Mem o ready j in
    (a, rw (choose_round_robin, owner, found, owned) refl, k, rw owned met)

choose_all-EachIn :
    (cursor : Option DutyId) (d : DutyId) (readies : List ReadySet)
    → All (λ r. Memᴰ d (duties_of r)) readies
    → (last : Option DutyId) × (actions : List ActionKey) × (choose_all cursor readies
        ≡ returns (last, actions))
      × EachIn actions readies
unfolding choose_all
choose_all-EachIn cursor d [] waits = (cursor, [], refl, tt)
choose_all-EachIn cursor d (r ∷ readies) waits =
    let (a, e, i, _) = choose_round_robin-ahead cursor d r waits.0 in
    let (last, actions, e', each) = choose_all-EachIn (some a.duty) d readies waits.1 in
    (last, a ∷ actions, rw (e, e') refl, (i, each))

Serves-within :
    (cursor : Option DutyId) (d : DutyId) (ds : List DutyId) (readies : List ReadySet)
    → Memᴰ d ds
    → All (All (λ a. Memᴰ a.duty ds)) readies
    → All (λ r. Memᴰ d (duties_of r)) readies
    → count (ahead cursor d) ds ≤ length readies
    → Serves cursor d readies
unfolding choose_all
Serves-within cursor d ds [] i known waits enough =
    absurd (omega (arith, count-pos (ahead cursor d) d ds i (ahead-own cursor d)))
Serves-within cursor d ds (r ∷ readies) i known waits enough =
    let (a, e, j, first) = choose_round_robin-ahead cursor d r waits.0 in
    elim (Bool-cases (a.duty == d)) [
      | inl mine ↦
          let (last, actions, e', each) = choose_all-EachIn (some a.duty) d readies waits.1 in
          (last, a ∷ actions, rw (e, e') refl, (j, each), Memᴰ.head (ground arith))
      | inr other ↦
          let apart : a.duty ≢ d = ground arith in
          let closer =
            count-lt (ahead cursor d) (ahead (some a.duty) d) a.duty ds
              (λ x h. ahead-shrinks cursor d a.duty x apart first h)
              (All-Mem (λ b. Memᴰ b.duty ds) a r known.0 j) first (ahead-passed d a.duty apart) in
          let (last, actions, e', each, served) =
            Serves-within (some a.duty) d ds readies i known.1 waits.1 (omega arith) in
          (last, a ∷ actions, rw (e, e') refl, (j, each), Memᴰ.tail served)
    ]

-- From any cursor, a duty that has an action in each of as many successive ready sets as there are
-- duties is served: no choice panics, each is of its own ready set, and one is of an action of the
-- duty. The actions of the ready sets are of the duties, and so is the duty.
pub choose_all-Serves :
    (cursor : Option DutyId) (d : DutyId) (duties : List DutyId) (readies : List ReadySet)
    → Memᴰ d duties
    → All (All (λ a. Memᴰ a.duty duties)) readies
    → All (λ r. Memᴰ d (duties_of r)) readies
    → length duties ≤ length readies
    → Serves cursor d readies
choose_all-Serves cursor d duties readies i known waits enough =
    Serves-within cursor d duties readies i known waits
      (omega (arith, count-length (ahead cursor d) duties))
