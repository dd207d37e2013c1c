-- ===== src/Completion/Once.antt =====
-- The outcome of a completion pair is settled and extracted at most once, whatever its handles do.
use calandria.Prelude.{
  ℕ, ◌+◌, ◌≤◌, ◌≡◌, ◌≢◌, ◌↔◌, ◌⊎◌, inl, inr, refl, Bool, true, false, Option, some, none, List, [],
  ◌∷◌, ◌++◌, Result, ok, err, Outcome, returns, returns_of, panics, arith, length, sum_by,
  Bool-cases,
}
use calandria.Completion
use calandria.Completion.{
  State, pending, ready, consumed, CompletionError, closed, consumed_error, is_pending, registered,
}
use calandria.Completion.Handles.{
  Completer, Pair, completion, drop_completer, complete, close, drop_completion, try_take,
  poll_take, wait, Call, completes, closes, drops, takes, waits, abandons, polls, by_completer,
  by_observer, act, run,
}

module _ {ℓ} {T : Type ℓ} where
  -- The value in a result.
  abbrev pub values : List (Result T CompletionError) → List T
  values [] = []
  values (ok value ∷ rs) = value ∷ values rs
  values (err _ ∷ rs) = values rs

  -- 1 for a result that settles the pair, 0 for the report that it was taken before.
  abbrev pub settles : Result T CompletionError → ℕ
  settles (ok _) = 1
  settles (err closed) = 1
  settles (err consumed_error) = 0

module _ {ℓ} {W T : Type ℓ} where
  Shape :
      State W T
      → Option Completer
      → List T
      → List (Result T CompletionError)
      → List T
      → List (Result T CompletionError)
      → Type ℓ
  Shape (pending _ _) c published results handed_back discarded =
      (c ≡ some (record { settled = false }))
      × (published ≡ [])
      × (results ≡ [])
      × (handed_back ≡ [])
      × (discarded ≡ [])
  Shape (ready r) c published results handed_back discarded =
      (c ≡ none)
      × (published ≡ values (r ∷ []))
      × (settles r ≡ 1)
      × (results ≡ [])
      × (handed_back ≡ [])
      × (discarded ≡ [])
  Shape consumed c published results handed_back discarded =
      (c ≡ none)
      × (published ≡ values results ++ handed_back ++ values discarded)
      × (sum_by settles results + length handed_back + sum_by settles discarded ≤ 1)

  pub IsOnce : Pair W T → Type ℓ
  unfolding Shape
  IsOnce p = Shape p.shared p.completer p.published p.results p.handed_back p.discarded

  complete-IsOnce :
      (p : Pair W T) (c : Completer) (value : T)
      → p.completer ≡ some c
      → IsOnce p
      → IsOnce (complete c value p)
  unfolding IsOnce Shape complete drop_completer Completion.complete
  complete-IsOnce p c value held v = ground arith

  close-IsOnce :
      (p : Pair W T) (c : Completer) → p.completer ≡ some c → IsOnce p → IsOnce (close c p)
  unfolding IsOnce Shape close drop_completer Completion.close_producer
  close-IsOnce p c held v = ground arith

  drop_completer-IsOnce :
      (p : Pair W T) (c : Completer) → p.completer ≡ some c → IsOnce p → IsOnce (drop_completer c p)
  unfolding IsOnce Shape drop_completer Completion.close_producer
  drop_completer-IsOnce p c held v = ground arith

  drop_completion-IsOnce : (p : Pair W T) → IsOnce p → IsOnce (drop_completion p)
  unfolding IsOnce Shape drop_completion Completion.abandon_observer
  drop_completion-IsOnce p v = ground arith

  try_take-IsOnce :
      (p p' : Pair W T) → IsOnce p → (try_take p ≢ panics) × (try_take p ≡ returns p' → IsOnce p')
  unfolding IsOnce Shape try_take Completion.try_take Completion.extract is_pending
  try_take-IsOnce p p' v = ground arith

  poll_take-IsOnce :
      (will_wake : W → W → Bool) (current : W) (p p' : Pair W T)
      → IsOnce p
      → (poll_take will_wake current p ≢ panics)
        × (poll_take will_wake current p ≡ returns p' → IsOnce p')
  unfolding IsOnce Shape poll_take Completion.poll Completion.extract
  poll_take-IsOnce will_wake current p p' v = ground arith

  wait-IsOnce : (p p' : Pair W T) → IsOnce p → (wait p ≢ panics) × (wait p ≡ returns p' → IsOnce p')
  unfolding IsOnce Shape wait Completion.wait_pass Completion.extract is_pending drop_completion
      Completion.abandon_observer
  wait-IsOnce p p' v = ground arith

  pub StepsTo : Outcome (Pair W T) → Type ℓ
  StepsTo r = (p' : Pair W T) × (r ≡ returns p') × IsOnce p'

  total :
      (r : Outcome (Pair W T))
      → ((p' : Pair W T) → (r ≢ panics) × (r ≡ returns p' → IsOnce p'))
      → Pair W T
      → StepsTo r
  unfolding StepsTo
  total r h p = let (p', e) = returns_of r (h p).0 in (p', e, (h p').1 e)

  completer-StepsTo :
      (call : Completer → Pair W T → Pair W T) (held : Option Completer) (p : Pair W T)
      → ((c : Completer) → held ≡ some c → IsOnce (call c p))
      → IsOnce p
      → StepsTo (returns (by_completer call held p))
  unfolding StepsTo by_completer
  completer-StepsTo call none p h v = (p, refl, v)
  completer-StepsTo call (some c) p h v = (call c p, refl, h c refl)

  observer-StepsTo :
      (call : Pair W T → Outcome (Pair W T)) (held : Bool) (p : Pair W T)
      → StepsTo (call p)
      → IsOnce p
      → StepsTo (by_observer call held p)
  unfolding StepsTo by_observer
  observer-StepsTo call true p h v = h
  observer-StepsTo call false p h v = (p, refl, v)

  act-StepsTo :
      (will_wake : W → W → Bool) (call : Call W T) (p : Pair W T)
      → IsOnce p
      → StepsTo (act will_wake call p)
  unfolding act StepsTo
  act-StepsTo will_wake (completes value) p v =
      completer-StepsTo (λ c q. complete c value q) p.completer p
        (λ c held. complete-IsOnce p c value held v) v
  act-StepsTo will_wake closes p v =
      completer-StepsTo close p.completer p (λ c held. close-IsOnce p c held v) v
  act-StepsTo will_wake drops p v =
      completer-StepsTo drop_completer p.completer p (λ c held. drop_completer-IsOnce p c held v) v
  act-StepsTo will_wake takes p v =
      observer-StepsTo try_take p.observer p (total (try_take p) (λ p'. try_take-IsOnce p p' v) p) v
  act-StepsTo will_wake (polls current) p v =
      observer-StepsTo (poll_take will_wake current) p.observer p
        (total (poll_take will_wake current p) (λ p'. poll_take-IsOnce will_wake current p p' v) p)
        v
  act-StepsTo will_wake waits p v =
      observer-StepsTo wait p.observer p (total (wait p) (λ p'. wait-IsOnce p p' v) p) v
  act-StepsTo will_wake abandons p v =
      observer-StepsTo (λ q. returns (drop_completion q)) p.observer p
        (drop_completion p, refl, drop_completion-IsOnce p v) v

  run-StepsTo :
      (will_wake : W → W → Bool) (calls : List (Call W T)) (p : Pair W T)
      → IsOnce p
      → StepsTo (run will_wake calls p)
  unfolding run StepsTo
  run-StepsTo will_wake [] p v = (p, refl, v)
  run-StepsTo will_wake (c ∷ cs) p v =
      let (q, e, valid) = act-StepsTo will_wake c p v in
      let (p', e', valid') = run-StepsTo will_wake cs q valid in (p', rw (e, e'), valid')

  -- The result that waits to be taken.
  abbrev pub stored : State W T → List (Result T CompletionError)
  stored (ready r) = r ∷ []
  stored (pending _ _) = []
  stored consumed = []

  IsOnce-ledger :
      (p : Pair W T)
      → IsOnce p
      → (sum_by settles (stored p.shared)
            + sum_by settles p.results
            + length p.handed_back
            + sum_by settles p.discarded
          ≤ 1)
        × (p.published
            ≡ values (stored p.shared) ++ values p.results ++ p.handed_back ++ values p.discarded)
        × ((is_pending p.shared ≡ true) ↔ (p.completer ≢ none))
  unfolding IsOnce Shape is_pending
  IsOnce-ledger p v = ground arith

  -- However the handles of a new pair are used, no call panics; at most one outcome is settled, be
  -- it waiting, taken, handed back or discarded; every value published is exactly one of these; and
  -- the pair is pending, so that `wait` blocks, exactly as long as the producer holds its handle.
  pub run-completion :
      (will_wake : W → W → Bool) (calls : List (Call W T))
      → (p : Pair W T) × (run will_wake calls completion ≡ returns p)
        × (sum_by settles (stored p.shared)
              + sum_by settles p.results
              + length p.handed_back
              + sum_by settles p.discarded
            ≤ 1)
        × (p.published
            ≡ values (stored p.shared) ++ values p.results ++ p.handed_back ++ values p.discarded)
        × ((is_pending p.shared ≡ true) ↔ (p.completer ≢ none))
  unfolding IsOnce Shape StepsTo
  run-completion will_wake calls =
      let (p, e, v) = run-StepsTo will_wake calls completion (refl, refl, refl, refl, refl) in
      let (once, ledger, blocked) = IsOnce-ledger p v in (p, e, once, ledger, blocked)

  -- A value published after a poll of a pair whose observer is alive wakes the polling waker, or
  -- one that would wake the same task; the next attempt to take gets that value, and the one after
  -- it the report that it was taken.
  pub try_take-complete-poll :
      (will_wake : W → W → Bool) (state state' : State W T) (waker : Option W) (current : W)
      (value : T)
      → state ≡ pending true waker
      → Completion.poll will_wake state current ≡ returns (state', none)
      → (w : W) × (Completion.complete state' value ≡ (ready (ok value), ok tt, some w))
        × ((w ≡ current) ⊎ (will_wake w current ≡ true))
        × (Completion.try_take (Completion.complete state' value).0
            ≡ returns (consumed, some (ok value)))
        × (Completion.try_take {W = W} {T = T} consumed
            ≡ returns (consumed, some (err consumed_error)))
  unfolding Completion.complete Completion.poll Completion.try_take is_pending Completion.extract
      registered
  try_take-complete-poll will_wake state state' none current value e h =
      (current, ground arith, inl refl, ground arith, refl)
  try_take-complete-poll will_wake state state' (some stored) current value e h =
      elim (Bool-cases (will_wake stored current)) [
        | inl same ↦ (stored, ground arith, inr same, ground arith, refl)
        | inr other ↦ (current, ground arith, inl refl, ground arith, refl)
      ]
