-- ===== src/Completion/Handles.antt =====
-- crates/calandria/src/completion/producer.rs, observer.rs and factory.rs: the two handles of a
-- pair, and every call that safe code can make on them.
use calandria.Prelude.{
  Bool, true, false, Option, some, none, List, [], ◌∷◌, Result, ok, err, Outcome, returns, ◌>>=◌,
  if◌then◌else◌,
}
use calandria.Completion
use calandria.Completion.{State, CompletionError}

pub record Completer : Type 0 where
  pub settled : Bool

-- A pair, who still holds its handles, and what became of the values: those given to `complete`,
-- the results that the observer got, the values handed back to the producer, the results dropped
-- with the observer, and the wakers woken. The lists have the latest first.
pub record Pair {ℓ} (W T : Type ℓ) : Type ℓ where
  pub shared : State W T
  pub completer : Option Completer
  pub observer : Bool
  pub published : List T
  pub results : List (Result T CompletionError)
  pub handed_back : List T
  pub discarded : List (Result T CompletionError)
  pub woken : List W

abbrev pub noted {ℓ} : {A : Type ℓ} → Option A → List A → List A
noted none xs = xs
noted (some x) xs = x ∷ xs

abbrev pub handed {ℓ} : {T : Type ℓ} → Result (Unit {0}) T → List T → List T
handed (ok _) xs = xs
handed (err x) xs = x ∷ xs

module _ {ℓ} {W T : Type ℓ} where
  -- `completion`
  abbrev pub completion : Pair W T
  completion = record {
    shared = Completion.new;
    completer = some (record { settled = false });
    observer = true;
    published = [];
    results = [];
    handed_back = [];
    discarded = [];
    woken = [];
  }

  -- `Completer::drop`
  unfoldable pub drop_completer : Completer → Pair W T → Pair W T
  drop_completer c p =
      let out = Completion.close_producer p.shared in
      if c.settled
      then record p { completer = none }
      else record p { shared = out.0; completer = none; woken = noted out.1 p.woken }

  -- `Completer::complete`, with the drop that ends it.
  unfoldable pub complete : Completer → T → Pair W T → Pair W T
  complete c value p =
      let out = Completion.complete p.shared value in
      drop_completer (record c { settled = true })
        (record p {
          shared = out.0;
          published = value ∷ p.published;
          handed_back = handed out.1 p.handed_back;
          woken = noted out.2 p.woken;
        })

  -- `Completer::close`, with the drop that ends it.
  unfoldable pub close : Completer → Pair W T → Pair W T
  close c p =
      let out = Completion.close_producer p.shared in
      drop_completer (record c { settled = true })
        (record p { shared = out.0; woken = noted out.1 p.woken })

  -- `Completion::drop`, which `abandon` calls.
  unfoldable pub drop_completion : Pair W T → Pair W T
  drop_completion p =
      let out = Completion.abandon_observer p.shared in
      record p { shared = out.0; observer = false; discarded = noted out.1 p.discarded }

  abbrev pub got : Pair W T → State W T × Option (Result T CompletionError) → Pair W T
  got p out = record p { shared = out.0; results = noted out.1 p.results }

  -- `Completion::try_take`
  unfoldable pub try_take : Pair W T → Outcome (Pair W T)
  try_take p = Completion.try_take p.shared >>= λ out. returns (got p out)

  -- `Completion::poll_take` and `Future::poll`
  unfoldable pub poll_take : (W → W → Bool) → W → Pair W T → Outcome (Pair W T)
  poll_take will_wake current p =
      Completion.poll will_wake p.shared current >>= λ out. returns (got p out)

  -- One pass of `Completion::wait`: it blocks with the handle, or ends by dropping it.
  unfoldable pub wait : Pair W T → Outcome (Pair W T)
  wait p = Completion.wait_pass p.shared >>= λ out. elim out.1 [
    | none ↦ returns (got p out)
    | some _ ↦ returns (drop_completion (got p out))
  ]

-- A call on one of the two handles.
pub data Call {ℓ} (W T : Type ℓ) : Type ℓ where
  completes : T → Call W T
  closes drops takes waits abandons : Call W T
  polls : W → Call W T

module _ {ℓ} {W T : Type ℓ} where
  unfoldable pub by_completer :
      (Completer → Pair W T → Pair W T) → Option Completer → Pair W T → Pair W T
  by_completer call none p = p
  by_completer call (some c) p = call c p

  unfoldable pub by_observer :
      (Pair W T → Outcome (Pair W T)) → Bool → Pair W T → Outcome (Pair W T)
  by_observer call true p = call p
  by_observer call false p = returns p

  -- A call on a handle that was moved into an earlier call does not occur: it changes nothing.
  unfoldable pub act : (W → W → Bool) → Call W T → Pair W T → Outcome (Pair W T)
  unfolding by_completer by_observer
  act will_wake (completes value) p =
      returns (by_completer (λ c q. complete c value q) p.completer p)
  act will_wake closes p = returns (by_completer close p.completer p)
  act will_wake drops p = returns (by_completer drop_completer p.completer p)
  act will_wake takes p = by_observer try_take p.observer p
  act will_wake (polls current) p = by_observer (poll_take will_wake current) p.observer p
  act will_wake waits p = by_observer wait p.observer p
  act will_wake abandons p = by_observer (λ q. returns (drop_completion q)) p.observer p

  unfoldable pub run : (W → W → Bool) → List (Call W T) → Pair W T → Outcome (Pair W T)
  run will_wake [] p = returns p
  run will_wake (c ∷ cs) p = act will_wake c p >>= run will_wake cs
