-- ===== src/Script/Session.antt =====
-- Sessions with a script (crates/calandria-sim/src/script/owner.rs) against the list of its steps.
use calandria.Prelude.{
  ℕ, ◌-◌, ◌≡◌, refl, subst, true, List, [], ◌∷◌, map, sum_by, leb, Eq, if◌then◌else◌, Result, ok,
  err, Outcome, returns, ◌>>=◌, inl, inr, arith, Bool-cases,
}
use calandria.Script.{
  Plan, ScriptStep, MeasuredStep, ScriptLimits, ExactScript, ScriptFailure, exhausted, mismatch,
  respond,
}

module _ {ℓ} {Q R : Type ℓ} ⦃eqs : Eq Q⦄ where
  -- A session with the bare steps: what is left, and the answers.
  abbrev pub answer_all :
      List (ScriptStep Q R) → List Q → List (ScriptStep Q R) × List (Result (Plan R) ScriptFailure)
  answer_all steps [] = (steps, [])
  answer_all [] (q ∷ qs) = let rest = answer_all [] qs in (rest.0, err exhausted ∷ rest.1)
  answer_all (s ∷ steps) (q ∷ qs) =
      let next = answer_all steps qs in
      let same = answer_all (s ∷ steps) qs in
      if eqs.eq s.expected q
      then (next.0, ok s.response ∷ next.1)
      else (same.0, err mismatch ∷ same.1)

  abbrev pub respond_all :
      ExactScript Q R → List Q → Outcome (ExactScript Q R × List (Result (Plan R) ScriptFailure))
  respond_all s [] = returns (s, [])
  respond_all s (q ∷ qs) =
      respond s q >>= λ out. respond_all out.0 qs >>= λ rest. returns (rest.0, out.1 ∷ rest.1)

  abbrev pub steps_of : List (MeasuredStep Q R) → List (ScriptStep Q R)
  steps_of ms = map (λ m. m.step) ms

  -- A script that stands for some steps, its count of bytes that of what is left.
  pub record Stands (s : ExactScript Q R) (steps : List (ScriptStep Q R)) : Type ℓ where
    pub steps_left : steps_of s.steps ≡ steps
    pub exact : s.retained ≡ sum_by (λ m. m.retained) s.steps

  abbrev pub Answers :
      List (ScriptStep Q R)
      → List Q
      → Outcome (ExactScript Q R × List (Result (Plan R) ScriptFailure))
      → Type ℓ
  Answers steps qs r =
      (s' : ExactScript Q R) × (r ≡ returns (s', (answer_all steps qs).1))
      × Stands s' (answer_all steps qs).0

  respond_all-cases :
      (limits : ScriptLimits) (retained : ℕ) (ms : List (MeasuredStep Q R)) (qs : List Q)
      → retained ≡ sum_by (λ m. m.retained) ms
      → Answers
          (steps_of ms)
          qs
          (respond_all (record { limits = limits; retained = retained; steps = ms }) qs)
  unfolding respond
  respond_all-cases limits retained [] [] e = (_, refl, record { steps_left = refl; exact = e })
  respond_all-cases limits retained (m ∷ ms) [] e =
      (_, refl, record { steps_left = refl; exact = e })
  respond_all-cases limits retained [] (q ∷ qs) e =
      let (s', found, stands) = respond_all-cases limits retained [] qs e in
      (s', rw found refl, stands)
  respond_all-cases limits retained (m ∷ ms) (q ∷ qs) e =
      elim (Bool-cases (eqs.eq m.step.expected q)) [
        | inl same ↦
            let enough : leb m.retained retained ≡ true = ground arith in
            let (s', found, stands) =
              respond_all-cases limits (retained - m.retained) ms qs (omega arith) in
            (s', rw (same, enough, found) refl, rw same stands)
        | inr other ↦
            let (s', found, stands) = respond_all-cases limits retained (m ∷ ms) qs e in
            (s', rw (other, found) refl, rw other stands)
      ]

  -- A session of any requests does not panic and answers as the list of the steps does: the plan of
  -- the next step for the request that it expects, which is then done with, a mismatch for any other,
  -- and exhaustion after the last one, neither of which changes anything. What is left are the steps
  -- not yet answered, with the exact count of their bytes. The script stands for its steps, as a new
  -- one does.
  pub respond_all-Answers :
      (s : ExactScript Q R) (steps : List (ScriptStep Q R)) (qs : List Q)
      → Stands s steps
      → Answers steps qs (respond_all s qs)
  respond_all-Answers s steps qs o =
      subst (λ left. Answers left qs (respond_all s qs)) o.steps_left
        (respond_all-cases s.limits s.retained s.steps qs o.exact)
