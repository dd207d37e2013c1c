-- ===== src/Timer/Heap.antt =====
-- Timers in the order of crates/calandria/src/timer/scheduled.rs, and the two containers that the
-- queue keeps them in: a `BinaryHeap` and, while cancelling, a `Vec`.
use Prim.Native.Nat.{compare, Ordering}
use calandria.Prelude.{
  ℕ, zero, suc, ◌+◌, Option, none, some, Bool, List, [], ◌∷◌, ◌==◌, if◌then◌else◌, ◌&&◌,
}
use calandria.Retained.{RetainedBytes}
use calandria.Time.Deadline.{Deadline}

abbrev pub TimerOwnerId : Type 0
TimerOwnerId = ℕ

abbrev pub TimerId : Type 0
TimerId = ℕ

pub record TimerToken : Type 0 where
  pub owner : TimerOwnerId
  pub id : TimerId
  pub deadline : Deadline

abbrev pub token_eq : TimerToken → TimerToken → Bool
token_eq a b = (a.owner == b.owner) && ((a.id == b.id) && (a.deadline == b.deadline))

pub record Timer {ℓ} (T : Type ℓ) : Type ℓ where
  pub token : TimerToken
  pub value : T
  pub retained : RetainedBytes

-- `Ordering::then_with`
abbrev pub then_with : Ordering → Ordering → Ordering
then_with Ordering.eq next = next
then_with Ordering.lt next = Ordering.lt
then_with Ordering.gt next = Ordering.gt

module _ {ℓ} {T : Type ℓ} where
  -- `Scheduled::cmp`: the greater timer fires first.
  abbrev pub cmp : Timer T → Timer T → Ordering
  cmp self other =
      then_with (compare other.token.deadline self.token.deadline)
        (compare other.token.id self.token.id)

  -- `BinaryHeap::pop`
  unfoldable pub heap_pop : List (Timer T) → Option (Timer T × List (Timer T))
  heap_pop [] = none
  heap_pop (x ∷ xs) = elim (heap_pop xs) [
    | none ↦ some (x, [])
    | some (top, rest) ↦ elim (cmp x top) [ Ordering.lt ↦ some (top, x ∷ rest) | _ ↦ some (x, xs) ]
  ]

  -- `BinaryHeap::peek`
  unfoldable pub heap_peek : List (Timer T) → Option (Timer T)
  unfolding heap_pop
  heap_peek xs = elim (heap_pop xs) [ none ↦ none | some (top, rest) ↦ some top ]

  -- `Iterator::position` at a token
  unfoldable pub position : TimerToken → List (Timer T) → Option ℕ
  position token [] = none
  position token (x ∷ xs) =
      let rest = position token xs in
      if token_eq x.token token
      then some 0
      else elim rest [ none ↦ none | some index ↦ some (index + 1) ]

  -- `Vec::swap_remove`, up to the order of what is left.
  unfoldable pub swap_remove : ℕ → List (Timer T) → Option (Timer T × List (Timer T))
  swap_remove index [] = none
  swap_remove zero (x ∷ xs) = some (x, xs)
  swap_remove (suc index) (x ∷ xs) = elim (swap_remove index xs) [
    | none ↦ none
    | some (y, rest) ↦ some (y, x ∷ rest)
  ]
