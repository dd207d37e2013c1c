-- ===== src/Script/Build.antt =====
-- What `ExactScript::try_new` (crates/calandria-sim/src/script/owner.rs) accepts.
use calandria.Prelude.{
  ℕ, ◌+◌, ◌≤◌, ◌<◌, ◌≡◌, refl, ap, Option, none, some, List, [], ◌∷◌, map, length, sum_by, leb, ltb,
  Result, ok, err, ◌⊎◌, inl, inr, arith, Bool-cases,
}
use calandria.Words.{u64_max}
use calandria.Retained.{RetainedBytes}
use calandria.Script.{
  Plan, ScriptStep, MeasuredStep, ScriptLimits, ExactScript, ScriptBuildFailure, ScriptBuildError,
  step_capacity, outcome_capacity, outcome_count_overflow, script_byte_overflow,
  script_byte_capacity, count_from, measure_from, measure_step, measure_steps_from,
  with_measurements, try_new,
}

module _ {ℓ} {Q R : Type ℓ} (request_bytes : Q → RetainedBytes)
    (response_bytes : R → RetainedBytes) where
  -- The bytes that a step retains.
  abbrev pub bytes_of : ScriptStep Q R → ℕ
  bytes_of s = request_bytes s.expected + sum_by (λ o. response_bytes o.outcome) s.response

  -- A checked sum: exact, or beyond a `u64`.
  abbrev Sums : Option ℕ → ℕ → Type 0
  Sums r n = ((r ≡ none) × (u64_max < n)) ⊎ (r ≡ some n)

  measure_from-Sums :
      (total : ℕ) (outcomes : Plan R)
      → total ≤ u64_max
      → Sums
          (measure_from request_bytes response_bytes total outcomes)
          (total + sum_by (λ o. response_bytes o.outcome) outcomes)
  unfolding measure_from
  measure_from-Sums total [] word = inr (ap some (omega arith))
  measure_from-Sums total (o ∷ outcomes) word =
      elim (Bool-cases (leb (total + response_bytes o.outcome) u64_max)) [
        | inr wraps ↦ inl (rw (measure_from, wraps) refl, ground arith)
        | inl fits ↦
            elim (measure_from-Sums (total + response_bytes o.outcome) outcomes (ground arith)) [
              | inl (none_left, beyond) ↦ inl (rw (measure_from, fits, none_left) refl, omega arith)
              | inr found ↦ inr (rw (measure_from, fits, found) (ap some (omega arith)))
            ]
      ]

  count_from-Sums :
      (total : ℕ) (steps : List (ScriptStep Q R))
      → total ≤ u64_max
      → Sums (count_from total steps) (total + sum_by (λ s. length s.response) steps)
  unfolding count_from
  count_from-Sums total [] word = inr (ap some (omega arith))
  count_from-Sums total (s ∷ steps) word =
      elim (Bool-cases (leb (total + length s.response) u64_max)) [
        | inr wraps ↦ inl (rw (count_from, wraps) refl, ground arith)
        | inl fits ↦ elim (count_from-Sums (total + length s.response) steps (ground arith)) [
          | inl (none_left, beyond) ↦ inl (rw (count_from, fits, none_left) refl, omega arith)
          | inr found ↦ inr (rw (count_from, fits, found) (ap some (omega arith)))
        ]
      ]

  abbrev Measures : ℕ → List (ScriptStep Q R) → Option (ℕ × List (MeasuredStep Q R)) → Type ℓ
  Measures total steps r =
      ((r ≡ none) × (u64_max < total + sum_by bytes_of steps))
      ⊎ ((ms : List (MeasuredStep Q R)) × (r ≡ some (total + sum_by bytes_of steps, ms))
          × (map (λ m. m.step) ms ≡ steps)
          × (sum_by (λ m. m.retained) ms ≡ sum_by bytes_of steps))

  measure_steps_from-Measures :
      (total : ℕ) (steps : List (ScriptStep Q R))
      → total ≤ u64_max
      → ((q : Q) → request_bytes q ≤ u64_max)
      → Measures total steps (measure_steps_from request_bytes response_bytes total steps)
  unfolding measure_steps_from measure_step
  measure_steps_from-Measures total [] word small =
      inr ([], ap (λ n. some (n, [])) (omega arith), refl, refl)
  measure_steps_from-Measures total (s ∷ steps) word small =
      elim (measure_from-Sums (request_bytes s.expected) s.response (small s.expected)) [
        | inl (none_left, beyond) ↦
            inl (rw (measure_steps_from, measure_step, none_left) refl, omega arith)
        | inr measured ↦ elim (Bool-cases (leb (total + bytes_of s) u64_max)) [
          | inr wraps ↦
              inl (rw (measure_steps_from, measure_step, measured, wraps) refl, ground arith)
          | inl fits ↦
              elim (measure_steps_from-Measures (total + bytes_of s) steps (ground arith) small) [
                | inl (none_left, beyond) ↦ inl (
                  rw (measure_steps_from, measure_step, measured, fits, none_left) refl,
                  omega arith,
                )
                | inr (ms, found, same, sum) ↦ inr (
                  record { step = s; retained = bytes_of s } ∷ ms,
                  rw (measure_steps_from, measure_step, measured, fits, found)
                      (ap (λ n. some (n, record { step = s; retained = bytes_of s } ∷ ms))
                        (omega arith)),
                  ap (λ rest. s ∷ rest) same,
                  omega arith,
                )
              ]
        ]
      ]

  -- A refusal with the steps, one of whose limits is exceeded, or a script of the steps within them.
  abbrev pub Builds :
      ScriptLimits
      → List (ScriptStep Q R)
      → Result (ExactScript Q R) (ScriptBuildError Q R)
      → Type ℓ
  Builds limits steps r =
      ((failure : ScriptBuildFailure) × (r ≡ err (record { steps = steps; failure = failure }))
        × ((limits.steps < length steps)
            ⊎ (limits.outcomes < sum_by (λ s. length s.response) steps)
            ⊎ (limits.retained_bytes < sum_by bytes_of steps)))
      ⊎ ((s : ExactScript Q R) × (r ≡ ok s)
          × (map (λ m. m.step) s.steps ≡ steps)
          × (s.retained ≡ sum_by (λ m. m.retained) s.steps)
          × (s.retained ≡ sum_by bytes_of steps)
          × (length steps ≤ limits.steps)
          × (sum_by (λ s. length s.response) steps ≤ limits.outcomes)
          × (s.retained ≤ limits.retained_bytes))

  -- A script is refused only when its steps, their outcomes or their bytes exceed a limit, and the
  -- refusal returns the steps. Otherwise it holds the steps in their order, and its count of bytes is
  -- that of the requests and the outcomes. The limits are of a `usize` and a `u64`, and so are the
  -- bytes of a request.
  pub try_new-Builds :
      (limits : ScriptLimits) (steps : List (ScriptStep Q R))
      → limits.outcomes ≤ u64_max
      → limits.retained_bytes ≤ u64_max
      → ((q : Q) → request_bytes q ≤ u64_max)
      → Builds limits steps (try_new request_bytes response_bytes limits steps)
  unfolding try_new with_measurements
  try_new-Builds limits steps few light small =
      elim (Bool-cases (ltb limits.steps (length steps))) [
        | inl many ↦
            inl (
              step_capacity limits.steps (length steps),
              rw (try_new, many) refl,
              inl (ground arith),
            )
        | inr room ↦ elim (count_from-Sums 0 steps (omega arith)) [
          | inl (wraps, beyond) ↦
              inl (outcome_count_overflow, rw (try_new, room, wraps) refl, inr (inl (omega arith)))
          | inr counted ↦
              let outcomes = 0 + sum_by (λ (s : ScriptStep Q R). length s.response) steps in
              elim (Bool-cases (ltb limits.outcomes outcomes)) [
                | inl over ↦ inl (
                  outcome_capacity limits.outcomes outcomes,
                  rw (try_new, room, counted, over) refl,
                  inr (inl (ground arith)),
                )
                | inr within ↦ elim (measure_steps_from-Measures 0 steps (omega arith) small) [
                  | inl (wraps, beyond) ↦ inl (
                    script_byte_overflow,
                    rw (try_new, room, counted, within, wraps) refl,
                    inr (inr (omega arith)),
                  )
                  | inr (ms, measured, same, sum) ↦
                      let retained = 0 + sum_by bytes_of steps in
                      elim (Bool-cases (ltb limits.retained_bytes retained)) [
                        | inl heavy ↦ inl (
                          script_byte_capacity limits.retained_bytes retained,
                          rw (try_new, room, counted, within, measured, with_measurements, heavy)
                              refl,
                          inr (inr (ground arith)),
                        )
                        | inr fits ↦ inr (
                          record { limits = limits; retained = retained; steps = ms },
                          rw (try_new, room, counted, within, measured, with_measurements, fits)
                              refl,
                          same,
                          omega arith,
                          omega arith,
                          ground arith,
                          ground arith,
                          ground arith,
                        )
                      ]
                ]
              ]
        ]
      ]
