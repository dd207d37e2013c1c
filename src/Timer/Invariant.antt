-- ===== src/Timer/Invariant.antt =====
-- What a timer queue keeps true: its bounds, its accounting, and the identities of its timers.
use calandria.Prelude.{
  ℕ, ◌+◌, ◌-◌, ◌≤◌, ◌<◌, ◌≡◌, ◌≢◌, refl, sym, Option, none, some, List, length, sum_by, arith, All,
  Pairs, Removes, Removes-length, Removes-sum, Removes-All, Removes-Pairs,
}
use calandria.Words.{u64_max}
use calandria.Timer.Heap.{Timer}
use calandria.Timer.{TimerQueue, TimerLimits, starting_at_with_measure}

-- Identities below this one are used up.
abbrev pub id_bound : Option ℕ → ℕ
id_bound none = u64_max + 1
id_bound (some id) = id

abbrev pub IsWord : Option ℕ → Type 0
IsWord none = Unit
IsWord (some id) = id ≤ u64_max

module _ {ℓ} {T : Type ℓ} where
  abbrev pub Apart : Timer T → Timer T → Type 0
  Apart a b = a.token.id ≢ b.token.id

  pub record IsValid (q : TimerQueue T) : Type ℓ where
    pub counted : length q.timers ≤ q.limits.timers
    pub exact : q.retained ≡ sum_by (λ timer. timer.retained) q.timers
    pub within : q.retained ≤ q.limits.retained_bytes
    pub word : IsWord q.next_id
    pub fresh : All (λ timer. timer.token.id < id_bound q.next_id) q.timers
    pub owned : All (λ timer. timer.token.owner ≡ q.owner) q.timers
    pub distinct : Pairs Apart q.timers

  -- The queue without one of its timers.
  abbrev pub without : TimerQueue T → Timer T → List (Timer T) → TimerQueue T
  without q timer rest = record q { timers = rest; retained = q.retained - timer.retained }

  -- Taking a timer out is accounted for, and leaves a valid queue that has no other timer of that
  -- identity.
  pub without-IsValid :
      (q : TimerQueue T) (timer : Timer T) (rest : List (Timer T))
      → IsValid q
      → Removes timer q.timers rest
      → (timer.retained ≤ q.retained) × IsValid (without q timer rest) × All (Apart timer) rest
  without-IsValid q timer rest v r =
      let sum = Removes-sum (λ (t : Timer T). t.retained) r in
      let count = Removes-length r in
      let (apart, distinct) = Removes-Pairs Apart (λ a b h p. h (sym p)) r v.distinct in
      (
        omega (arith, v.exact),
        record {
          counted = omega (arith, v.counted);
          exact = omega (arith, v.exact);
          within = omega (arith, v.within);
          word = v.word;
          fresh = (Removes-All (λ (t : Timer T). t.token.id < id_bound q.next_id) r v.fresh).1;
          owned = (Removes-All (λ (t : Timer T). t.token.owner ≡ q.owner) r v.owned).1;
          distinct = distinct;
        },
        apart,
      )

  pub starting_at-IsValid :
      (owner : ℕ) (limits : TimerLimits) (first_id : ℕ) (measure : T → ℕ)
      → first_id ≤ u64_max
      → IsValid (starting_at_with_measure owner limits first_id measure)
  unfolding starting_at_with_measure
  starting_at-IsValid owner limits first_id measure h = record {
    counted = omega arith;
    exact = refl;
    within = omega arith;
    word = h;
    fresh = tt;
    owned = tt;
    distinct = tt;
  }
