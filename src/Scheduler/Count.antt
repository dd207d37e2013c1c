-- ===== src/Scheduler/Count.antt =====
-- Counting in lists, and membership, for the choices of a scheduler
-- (crates/calandria-sim/src/scheduler).
use mathlib.Core.List.Memᴰ
use mathlib.Core.List.{Memᴰ}
use calandria.Prelude.{
  ℕ, ◌+◌, ◌≤◌, ◌<◌, ◌≡◌, sym, subst, Bool, true, false, List, [], ◌∷◌, length, if◌then◌else◌, arith,
  All,
}

module _ {ℓ} {A : Type ℓ} where
  unfoldable pub count : (A → Bool) → List A → ℕ
  count p [] = 0
  count p (x ∷ xs) = (if p x then 1 else 0) + count p xs

  pub count-length : (p : A → Bool) (xs : List A) → count p xs ≤ length xs
  unfolding count
  count-length p [] = omega arith
  count-length p (x ∷ xs) = ground (arith, count-length p xs)

  count-le :
      (p q : A → Bool) (xs : List A) → ((x : A) → q x ≡ true → p x ≡ true) → count q xs ≤ count p xs
  unfolding count
  count-le p q [] h = omega arith
  count-le p q (x ∷ xs) h = ground (arith, count-le p q xs h, h x)

  pub count-lt :
      (p q : A → Bool) (o : A) (xs : List A)
      → ((x : A) → q x ≡ true → p x ≡ true)
      → Memᴰ o xs
      → p o ≡ true
      → q o ≡ false
      → count q xs < count p xs
  unfolding count
  count-lt p q o [] h i po qo = absurd (Memᴰ.not-nil i)
  count-lt p q o (x ∷ xs) h (Memᴰ.head e) po qo =
      let px : p x ≡ true = subst (λ y. p y ≡ true) e po in
      let qx : q x ≡ false = subst (λ y. q y ≡ false) e qo in ground (arith, count-le p q xs h)
  count-lt p q o (x ∷ xs) h (Memᴰ.tail m) po qo = ground (arith, count-lt p q o xs h m po qo, h x)

  pub count-pos : (p : A → Bool) (o : A) (xs : List A) → Memᴰ o xs → p o ≡ true → 0 < count p xs
  unfolding count
  count-pos p o [] i po = absurd (Memᴰ.not-nil i)
  count-pos p o (x ∷ xs) (Memᴰ.head e) po =
      let px : p x ≡ true = subst (λ y. p y ≡ true) e po in ground arith
  count-pos p o (x ∷ xs) (Memᴰ.tail m) po = omega (arith, count-pos p o xs m po)

  pub All-Mem {κ} : (P : A → Type κ) (x : A) (xs : List A) → All P xs → Memᴰ x xs → P x
  All-Mem P x [] a i = absurd (Memᴰ.not-nil i)
  All-Mem P x (y ∷ ys) a (Memᴰ.head e) = subst P (sym e) a.0
  All-Mem P x (y ∷ ys) a (Memᴰ.tail m) = All-Mem P x ys a.1 m
