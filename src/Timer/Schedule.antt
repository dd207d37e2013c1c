-- ===== src/Timer/Schedule.antt =====
-- `TimerQueue::schedule`: when it admits a timer, and what it gives out.
use calandria.Prelude.{
  ℕ, ◌+◌, ◌≤◌, ◌<◌, ◌≡◌, refl, none, some, List, [], ◌∷◌, ◌++◌, length, arith, All, All-append,
  Pairs, length-append, sum_by-append, ◌⊎◌, inl, inr, ok, err, leb, ltb, Bool-cases, Option-cases,
}
use calandria.Words.{u64_max}
use calandria.Timer.Heap.{Timer}
use calandria.Timer.{
  TimerQueue, schedule, TimerScheduleFailure, timer_capacity, retained_byte_overflow,
  retained_byte_capacity, timer_ids_exhausted, checked_next,
}
use calandria.Timer.Invariant.{IsValid, Apart, id_bound, IsWord}

pub bound_next :
    (id : ℕ) → id ≤ u64_max → (id < id_bound (checked_next id)) × IsWord (checked_next id)
bound_next id h = elim (Bool-cases (leb (id + 1) u64_max)) [
  | inl more ↦ rw more (ground arith)
  | inr last ↦ rw last (omega arith, tt)
]

module _ {ℓ} {T : Type ℓ} where
  -- Whether the queue has room for one more timer.
  abbrev pub HasRoom : TimerQueue T → T → Type 0
  HasRoom q value =
      (length q.timers < q.limits.timers) × (q.retained + q.measure value ≤ q.limits.retained_bytes)

  abbrev pub new_timer : TimerQueue T → ℕ → T → ℕ → Timer T
  new_timer q deadline value id = record {
    token = record { owner = q.owner; id = id; deadline = deadline };
    value = value;
    retained = q.measure value;
  }

  abbrev pub scheduled : TimerQueue T → ℕ → T → ℕ → TimerQueue T
  scheduled q deadline value id = record q {
    next_id = checked_next id;
    timers = q.timers ++ (new_timer q deadline value id ∷ []);
    retained = q.retained + q.measure value;
  }

  -- A timer is admitted exactly when the queue has room for it and an identity is left; it then
  -- gets that identity, and a refusal hands the deadline and the value back and changes nothing.
  -- The byte limit is a u64.
  pub schedule_lem :
      (q : TimerQueue T) (deadline : ℕ) (value : T)
      → q.limits.retained_bytes ≤ u64_max
      → (HasRoom q value
          × ((id : ℕ) × (q.next_id ≡ some id)
              × (schedule q deadline value
                  ≡ (scheduled q deadline value id, ok (new_timer q deadline value id).token))))
        ⊎ (((¬ HasRoom q value) ⊎ (q.next_id ≡ none))
            × ((failure : TimerScheduleFailure) × (schedule q deadline value
                  ≡ (q, err (record { deadline = deadline; value = value; failure = failure })))))
  unfolding schedule
  schedule_lem q deadline value h = elim (Bool-cases (leb q.limits.timers (length q.timers))) [
    | inl full ↦ inr (inl (λ room. ground arith), (timer_capacity q.limits.timers, ground arith))
    | inr counted ↦ elim (Bool-cases (leb (q.retained + q.measure value) u64_max)) [
      | inr wraps ↦ inr (
        inl (λ room. ground arith),
        (retained_byte_overflow q.retained (q.measure value), ground arith),
      )
      | inl fits ↦ elim (Bool-cases (ltb q.limits.retained_bytes (q.retained + q.measure value))) [
        | inl over ↦ inr (
          inl (λ room. ground arith),
          (
            retained_byte_capacity q.limits.retained_bytes q.retained (q.measure value),
            ground arith,
          ),
        )
        | inr within ↦ elim (Option-cases q.next_id) [
          | inl gone ↦ inr (inr gone, (timer_ids_exhausted, ground arith))
          | inr (id, next) ↦ inl ((ground arith, ground arith), (id, next, ground arith))
        ]
      ]
    ]
  ]

  pub All-lt :
      (xs : List (Timer T)) (m n : ℕ)
      → m ≤ n
      → All (λ t. t.token.id < m) xs
      → All (λ t. t.token.id < n) xs
  All-lt [] m n h a = tt
  All-lt (x ∷ xs) m n h a = (omega arith, All-lt xs m n h a.1)

  Pairs-append :
      (xs : List (Timer T)) (x : Timer T)
      → All (λ t. t.token.id < x.token.id) xs
      → Pairs Apart xs
      → Pairs Apart (xs ++ (x ∷ []))
  Pairs-append [] x below p = (tt, tt)
  Pairs-append (y ∷ ys) x below p = (
    All-append (Apart y) ys (x ∷ []) p.0 ((λ same. omega arith), tt),
    Pairs-append ys x below.1 p.1,
  )

  -- A queue that has taken a timer in, where it had room and an identity was left, is valid.
  pub scheduled-IsValid :
      (q : TimerQueue T) (deadline : ℕ) (value : T) (id : ℕ)
      → IsValid q
      → HasRoom q value
      → q.next_id ≡ some id
      → IsValid (scheduled q deadline value id)
  scheduled-IsValid q deadline value id v room next =
      let timer : Timer T = new_timer q deadline value id in
      let sum = sum_by-append (λ (t : Timer T). t.retained) q.timers (timer ∷ []) in
      let count = length-append q.timers (timer ∷ []) in
      let below : All (λ t. t.token.id < id) q.timers = rw next at v.fresh in
      let word : id ≤ u64_max = rw next at v.word in
      let (above, word') = bound_next id word in
      record {
        counted = omega (arith, room);
        exact = omega (arith, v.exact);
        within = omega (arith, room);
        word = word';
        fresh =
            All-append (λ t. t.token.id < id_bound (checked_next id)) q.timers (timer ∷ [])
              (All-lt q.timers id (id_bound (checked_next id)) (omega (arith, above)) below)
              (above, tt);
        owned = All-append (λ t. t.token.owner ≡ q.owner) q.timers (timer ∷ []) v.owned (refl, tt);
        distinct = Pairs-append q.timers timer below v.distinct;
      }
