-- ===== src/Scheduler/Entries.antt =====
-- Equal entries of a trace (crates/calandria-sim/src/trace/entry.rs), and the first entries of one.
use calandria.Prelude.{
  ℕ, zero, suc, ◌≡◌, refl, ap, Option, none, some, true, List, [], ◌∷◌, ◌++◌, length, get_elem?,
  take, arith,
}
use calandria.Turn.{Next, now, wake, wake_or, stop}
use calandria.Action.{action_eq, action_eq-eq}
use calandria.Scheduler.Replay.{TraceEntry, next_eq, cause_eq, entry_eq}

next_eq-eq : (a b : Next) → next_eq a b ≡ true → a ≡ b
next_eq-eq now now h = refl
next_eq-eq now wake h = cc
next_eq-eq now (wake_or b) h = cc
next_eq-eq now stop h = cc
next_eq-eq wake now h = cc
next_eq-eq wake wake h = refl
next_eq-eq wake (wake_or b) h = cc
next_eq-eq wake stop h = cc
next_eq-eq (wake_or a) now h = cc
next_eq-eq (wake_or a) wake h = cc
next_eq-eq (wake_or a) (wake_or b) h = let same : a ≡ b = ground arith in ap wake_or same
next_eq-eq (wake_or a) stop h = cc
next_eq-eq stop now h = cc
next_eq-eq stop wake h = cc
next_eq-eq stop (wake_or b) h = cc
next_eq-eq stop stop h = refl

cause_eq-eq : (a b : Option ℕ) → cause_eq a b ≡ true → a ≡ b
cause_eq-eq none none h = refl
cause_eq-eq none (some b) h = cc
cause_eq-eq (some a) none h = cc
cause_eq-eq (some a) (some b) h = let same : a ≡ b = ground arith in ap some same

pub entry_eq-eq : (a b : TraceEntry) → entry_eq a b ≡ true → a ≡ b
entry_eq-eq a b h =
    let id : a.meta.id ≡ b.meta.id = ground arith in
    let key_same : action_eq a.meta.key b.meta.key ≡ true = ground arith in
    let key = action_eq-eq a.meta.key b.meta.key key_same in
    let at : a.meta.at ≡ b.meta.at = ground arith in
    let cause_same : cause_eq a.meta.cause b.meta.cause ≡ true = ground arith in
    let cause = cause_eq-eq a.meta.cause b.meta.cause cause_same in
    let work : a.turn.work ≡ b.turn.work = ground arith in
    let next_same : next_eq a.turn.next b.turn.next ≡ true = ground arith in
    let next = next_eq-eq a.turn.next b.turn.next next_same in cc

pub take-next {ℓ} :
    {A : Type ℓ} (xs : List A) (n : ℕ) (x : A)
    → get_elem? xs n ≡ some x
    → take n xs ++ (x ∷ []) ≡ take (suc n) xs
take-next [] n x e = cc
take-next (y ∷ ys) zero x e = let same : y ≡ x = cc in rw same refl
take-next (y ∷ ys) (suc n) x e = ap (λ zs. y ∷ zs) (take-next ys n x e)

pub take-all {ℓ} : {A : Type ℓ} (xs : List A) (n : ℕ) → n ≡ length xs → take n xs ≡ xs
take-all [] zero e = refl
take-all [] (suc n) e = absurd (omega arith)
take-all (x ∷ xs) zero e = absurd (omega arith)
take-all (x ∷ xs) (suc n) e = ap (λ ys. x ∷ ys) (take-all xs n (omega arith))
