-- ===== src/Script.antt =====
-- crates/calandria-sim/src/script and plan.rs: a bounded script of expected requests and their plans.
-- The `Retained` implementations of requests and responses are parameters.
pub mod Build
pub mod Session
mod Tests
use calandria.Prelude.{
  ℕ, ◌+◌, Option, none, some, Bool, true, false, List, [], ◌∷◌, map, length, leb, ltb, not, Eq,
  if◌then◌else◌, Result, ok, err, Outcome, returns, panics, ◌>>=◌,
}
use calandria.Words
use calandria.Time.Span.{Span}
use calandria.Retained.{RetainedBytes, zero_bytes, checked_add, subtract_retained}

pub record Planned {ℓ} (T : Type ℓ) : Type ℓ where
  pub delay : Span
  pub outcome : T

-- `Plan`, by its outcomes.
abbrev pub Plan {ℓ} : Type ℓ → Type ℓ
Plan R = List (Planned R)

pub record ScriptStep {ℓ} (Q R : Type ℓ) : Type ℓ where
  pub expected : Q
  pub response : Plan R

pub record MeasuredStep {ℓ} (Q R : Type ℓ) : Type ℓ where
  pub step : ScriptStep Q R
  pub retained : RetainedBytes

pub record ScriptLimits : Type 0 where
  pub steps : ℕ
  pub outcomes : ℕ
  pub retained_bytes : RetainedBytes

pub record ExactScript {ℓ} (Q R : Type ℓ) : Type ℓ where
  pub limits : ScriptLimits
  pub retained : RetainedBytes
  pub steps : List (MeasuredStep Q R)

pub data ScriptBuildFailure : Type 0 where
  step_capacity : ℕ → ℕ → ScriptBuildFailure
  outcome_capacity : ℕ → ℕ → ScriptBuildFailure
  outcome_count_overflow : ScriptBuildFailure
  script_byte_overflow : ScriptBuildFailure
  script_byte_capacity : RetainedBytes → RetainedBytes → ScriptBuildFailure

pub record ScriptBuildError {ℓ} (Q R : Type ℓ) : Type ℓ where
  pub steps : List (ScriptStep Q R)
  pub failure : ScriptBuildFailure

pub data ScriptFailure : Type 0 where
  exhausted : ScriptFailure
  mismatch : ScriptFailure

module _ {ℓ} {Q R : Type ℓ} where
  -- The loop of `count_outcomes`; `none` is an overflow.
  unfoldable pub count_from : ℕ → List (ScriptStep Q R) → Option ℕ
  count_from total [] = some total
  count_from total (s ∷ steps) = elim (Words.checked_add total (length s.response)) [
    | none ↦ none
    | some next ↦ count_from next steps
  ]

  abbrev pub count_outcomes : List (ScriptStep Q R) → Option ℕ
  count_outcomes steps = count_from 0 steps

module _ {ℓ} {Q R : Type ℓ} ⦃eqs : Eq Q⦄ where
  unfoldable pub respond :
      ExactScript Q R → Q → Outcome (ExactScript Q R × Result (Plan R) ScriptFailure)
  respond s request = elim s.steps [
    | [] ↦ returns (s, err exhausted)
    | front ∷ rest ↦
        if not (eqs.eq front.step.expected request)
        then returns (s, err mismatch)
        else subtract_retained s.retained front.retained >>= λ retained.
            returns (record s { retained = retained; steps = rest }, ok front.step.response)
  ]

module _ {ℓ} {Q R : Type ℓ} (request_bytes : Q → RetainedBytes)
    (response_bytes : R → RetainedBytes) where
  -- The loop of `measure_step`.
  unfoldable pub measure_from : RetainedBytes → Plan R → Option RetainedBytes
  measure_from total [] = some total
  measure_from total (o ∷ outcomes) = elim (checked_add total (response_bytes o.outcome)) [
    | none ↦ none
    | some next ↦ measure_from next outcomes
  ]

  unfoldable pub measure_step : ScriptStep Q R → Option RetainedBytes
  measure_step s = measure_from (request_bytes s.expected) s.response

  -- The loop of `measure_steps`, with the steps that `try_new` pairs with their measurements.
  unfoldable pub measure_steps_from :
      RetainedBytes → List (ScriptStep Q R) → Option (RetainedBytes × List (MeasuredStep Q R))
  measure_steps_from total [] = some (total, [])
  measure_steps_from total (s ∷ steps) = elim (measure_step s) [
    | none ↦ none
    | some measured ↦ elim (checked_add total measured) [
      | none ↦ none
      | some next ↦ elim (measure_steps_from next steps) [
        | none ↦ none
        | some (last, rest) ↦ some (last, record { step = s; retained = measured } ∷ rest)
      ]
    ]
  ]

  abbrev pub measure_steps :
      List (ScriptStep Q R) → Option (RetainedBytes × List (MeasuredStep Q R))
  measure_steps steps = measure_steps_from zero_bytes steps

  abbrev pub refuse_script :
      List (ScriptStep Q R) → ScriptBuildFailure → Result (ExactScript Q R) (ScriptBuildError Q R)
  refuse_script steps failure = err (record { steps = steps; failure = failure })

  -- `try_new` from the measurements.
  unfoldable pub with_measurements :
      ScriptLimits
      → List (ScriptStep Q R)
      → Option (RetainedBytes × List (MeasuredStep Q R))
      → Result (ExactScript Q R) (ScriptBuildError Q R)
  with_measurements limits steps none = refuse_script steps script_byte_overflow
  with_measurements limits steps (some (retained, measured)) =
      if ltb limits.retained_bytes retained
      then refuse_script steps (script_byte_capacity limits.retained_bytes retained)
      else ok (record { limits = limits; retained = retained; steps = measured })

  unfoldable pub try_new :
      ScriptLimits → List (ScriptStep Q R) → Result (ExactScript Q R) (ScriptBuildError Q R)
  try_new limits steps =
      if ltb limits.steps (length steps)
      then refuse_script steps (step_capacity limits.steps (length steps))
      else elim (count_outcomes steps) [
        | none ↦ refuse_script steps outcome_count_overflow
        | some outcomes ↦
            if ltb limits.outcomes outcomes
            then refuse_script steps (outcome_capacity limits.outcomes outcomes)
            else with_measurements limits steps (measure_steps steps)
      ]
