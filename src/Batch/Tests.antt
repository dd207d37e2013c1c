-- ===== src/Batch/Tests.antt =====
-- The theorems about event batches at a batch of two events, each as large as its number.
use calandria.Prelude.{
  ℕ, ◌≡◌, ◌⊎◌, refl, Option, none, some, [], ◌∷◌, ◌++◌, ok, err, returns, arith,
}
use calandria.Batch.{EventBatch, EventBatchFailure, try_push, pop, iter, retained_byte_capacity}
use calandria.Batch.Invariant.{IsBounded}
use calandria.Batch.Laws.{HasRoom, try_push_lem, pop-try_push, pop_lem}

abbrev two : EventBatch ℕ
two = record {
  limits = record { events = 3; retained_bytes = 10 };
  measure = λ n. n;
  events = record { event = 2; retained = 2 } ∷ record { event = 4; retained = 4 } ∷ [];
  retained = 6;
}

two-IsBounded : IsBounded two
two-IsBounded = omega arith

push_too_large :
    try_push two 5 ≡ (two, err (record { event = 5; failure = retained_byte_capacity 10 6 5 }))
unfolding try_push
push_too_large = refl

try_push_lem_example :
    (HasRoom two 4
      × (iter (try_push two 4).0 ≡ iter two ++ (4 ∷ []))
      × ((try_push two 4).1 ≡ ok tt))
    ⊎ ((¬ HasRoom two 4)
        × ((failure : EventBatchFailure) × (try_push two 4
              ≡ (two, err (record { event = 4; failure = failure })))))
try_push_lem_example = try_push_lem two 4 (omega arith)

pop-try_push_example : pop (try_push two 4).0 ≡ returns (two, some 4)
unfolding try_push
pop-try_push_example = pop-try_push two 4 refl

pop_lem_example :
    (b' : EventBatch ℕ) × (out : Option ℕ) × (pop two ≡ returns (b', out))
    × IsBounded b'
    × (((iter two ≡ []) × (out ≡ none) × (b' ≡ two))
        ⊎ ((event : ℕ) × (out ≡ some event) × (iter two ≡ iter b' ++ (event ∷ []))))
pop_lem_example = pop_lem two two-IsBounded
