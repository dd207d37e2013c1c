-- ===== src/Script/Tests.antt =====
-- The theorems about scripts at one of two steps.
use calandria.Prelude.{ℕ, refl, List, [], ◌∷◌, arith, nat_eq}
use calandria.Script.{ScriptStep, ScriptLimits, ExactScript, try_new}
use calandria.Script.Session.{Answers, respond_all, respond_all-Answers}
use calandria.Script.Build.{Builds, try_new-Builds}

abbrev limits : ScriptLimits
limits = record { steps = 3; outcomes = 4; retained_bytes = 32 }

abbrev steps : List (ScriptStep ℕ ℕ)
steps =
    record { expected = 5; response = record { delay = 1; outcome = 8 } ∷ [] }
    ∷ record { expected = 6; response = [] }
    ∷ []

abbrev bytes : ℕ → ℕ
bytes value = 3

try_new-Builds_example : Builds bytes bytes limits steps (try_new bytes bytes limits steps)
try_new-Builds_example =
    try_new-Builds bytes bytes limits steps (omega arith) (omega arith) (λ q. omega arith)

abbrev script : ExactScript ℕ ℕ
script = record {
  limits = limits;
  retained = 9;
  steps =
      record {
        step = record { expected = 5; response = record { delay = 1; outcome = 8 } ∷ [] };
        retained = 6;
      }
      ∷ record { step = record { expected = 6; response = [] }; retained = 3 }
      ∷ [];
}

respond_all-Answers_example :
    Answers steps (6 ∷ 5 ∷ 6 ∷ 6 ∷ []) (respond_all script (6 ∷ 5 ∷ 6 ∷ 6 ∷ []))
respond_all-Answers_example =
    respond_all-Answers script steps (6 ∷ 5 ∷ 6 ∷ 6 ∷ [])
      (record { steps_left = refl; exact = refl })
