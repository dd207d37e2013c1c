-- ===== src/Shutdown/Steps.antt =====
-- What one critical section of a shutdown barrier (crates/calandria/src/shutdown) does to the phase,
-- the subscribers and the notices.
use calandria.Prelude.{
  ℕ, ◌+◌, false, true, ◌≤◌, ◌≡◌, ◌≢◌, refl, some, List, [], ◌∷◌, map, length, get_elem?, set,
  get_elem?-set_self, get_elem?-set_ne, get_elem?-bound, sum_by, sum_by-append, append-nil, ap, ◌⊎◌,
  length-append, arith, ◌==◌, ==_iff, if◌then◌else◌, ok, err, inl, inr, Bool-cases,
}
use calandria.Shutdown.{
  Phase, requesting, requested, completed, closed, State, Notice, published, dropped, Caller,
  looping, publishing, panicked, Requested, subscribe_pass, publish_first_request, caller_step,
  settle, is_terminal, ShutdownCompleter, complete, drop_completer, close,
}

-- How often `i` is in a list of subscribers, and how often a list of notices addresses it.
abbrev pub occurs : ℕ → ℕ → ℕ
occurs i j = if i == j then 1 else 0

abbrev pub addressed : ℕ → Notice → ℕ
addressed i notice = occurs i notice.0

-- Whether a notice says that shutdown succeeded.
abbrev pub succeeds : Notice → ℕ
succeeds (_, ok _) = 1
succeeds (_, err _) = 0

abbrev pub phase_publishing : Phase → ℕ
phase_publishing requesting = 1
phase_publishing _ = 0

-- What holds of the phase and the subscribers between two accesses.
abbrev pub IsBounded : ℕ → State → Type 0
IsBounded capacity s =
    (length s.subscribers ≤ capacity) × (s.phase ≢ requested → s.subscribers ≡ [])

pub phase_publishing-le : (phase : Phase) → phase_publishing phase ≤ 1
phase_publishing-le phase = ground arith

module _ {ℓ} {E : Type ℓ} where
  abbrev pub is_publishing : Caller E → ℕ
  is_publishing publishing = 1
  is_publishing _ = 0

  -- Whether the call has handed its completer on, or dropped it.
  abbrev pub has_ended : Caller E → ℕ
  has_ended looping = 0
  has_ended publishing = 0
  has_ended _ = 1

  abbrev pub Sound : Caller E → Type ℓ
  Sound c = c ≢ panicked

  -- A caller that publishes while the barrier is not settled is the one that the phase stands for.
  abbrev pub IsMatched : State → Caller E → Type 0
  IsMatched s c = is_terminal s.phase ≡ false → is_publishing c ≤ phase_publishing s.phase

  pub caller_step-Sound :
      (capacity i : ℕ) (s : State) (c : Caller E) (request : Requested E)
      → Sound c
      → IsMatched s c
      → Sound (caller_step capacity s i c request).1
  unfolding caller_step subscribe_pass publish_first_request is_terminal
  caller_step-Sound capacity i s c request sound mine = ground arith

  pub caller_step-phase :
      (capacity i : ℕ) (s : State) (c : Caller E) (request : Requested E)
      → IsMatched s c
      → (is_terminal (caller_step capacity s i c request).0.phase ≡ is_terminal s.phase)
        × (is_terminal s.phase ≡ false
            → phase_publishing (caller_step capacity s i c request).0.phase + is_publishing c
              ≡ phase_publishing s.phase + is_publishing (caller_step capacity s i c request).1)
        × ((caller_step capacity s i c request).0.phase ≢ completed
            → (s.phase ≢ completed) × (sum_by succeeds (caller_step capacity s i c request).2 ≡ 0))
        × (is_terminal s.phase ≡ true
            → is_publishing (caller_step capacity s i c request).1 ≤ is_publishing c)
  unfolding caller_step subscribe_pass publish_first_request is_terminal
  caller_step-phase capacity i s c request mine = ground arith

  pub caller_step-IsBounded :
      (capacity i : ℕ) (s : State) (c : Caller E) (request : Requested E)
      → 1 ≤ capacity
      → IsMatched s c
      → IsBounded capacity s
      → IsBounded capacity (caller_step capacity s i c request).0
  unfolding caller_step subscribe_pass publish_first_request is_terminal
  caller_step-IsBounded capacity i s c request room mine v =
      ground (arith, length-append s.subscribers (i ∷ []))

  -- An access moves its own caller's completer, and no other's.
  pub caller_step-once :
      (capacity i : ℕ) (s : State) (c : Caller E) (request : Requested E)
      → IsMatched s c
      → sum_by (occurs i) (caller_step capacity s i c request).0.subscribers
          + sum_by (addressed i) (caller_step capacity s i c request).2
          + has_ended c
        ≡ sum_by (occurs i) s.subscribers + has_ended (caller_step capacity s i c request).1
  unfolding caller_step subscribe_pass publish_first_request is_terminal
  caller_step-once capacity i s c request mine =
      ground (arith, sum_by-append (occurs i) s.subscribers (i ∷ []))

  pub caller_step-others :
      (capacity i j : ℕ) (s : State) (c : Caller E) (request : Requested E)
      → IsMatched s c
      → i ≢ j
      → sum_by (occurs j) (caller_step capacity s i c request).0.subscribers
          + sum_by (addressed j) (caller_step capacity s i c request).2
        ≡ sum_by (occurs j) s.subscribers
  unfolding caller_step subscribe_pass publish_first_request is_terminal
  caller_step-others capacity i j s c request mine apart =
      ground (arith, sum_by-append (occurs j) s.subscribers (i ∷ []))

  pub get_elem?-set :
      (cs : List (Caller E)) (i j : ℕ) (c d x : Caller E)
      → get_elem? cs i ≡ some c
      → get_elem? (set cs i x) j ≡ some d
      → ((i ≡ j) × (d ≡ x)) ⊎ ((i ≢ j) × (get_elem? cs j ≡ some d))
  get_elem?-set cs i j c d x at found = elim (Bool-cases (i == j)) [
    | inl same ↦
        let e = (==_iff i j).0 same in
        let there = get_elem?-set_self cs i x (get_elem?-bound cs i c at) in inl (e, cc)
    | inr other ↦
        let apart : i ≢ j = λ e. let met = (==_iff i j).1 e in cc in
        let elsewhere = get_elem?-set_ne cs i j x apart in inr (apart, cc)
  ]

-- What the completer's call leaves: nothing changed, or the barrier settled as `terminal` and every
-- subscriber given `notice`.
abbrev pub Settles : (ℕ → Notice) → Phase → State → State × List Notice → Type 0
Settles notice terminal s out =
    ((out.0 ≡ s) × (out.1 ≡ []))
    ⊎ ((is_terminal s.phase ≡ false)
        × (out.0 ≡ record { phase = terminal; subscribers = [] })
        × (out.1 ≡ map notice s.subscribers))

pub complete-Settles :
    (c : ShutdownCompleter) (s : State)
    → Settles published completed s ((complete c s).1, (complete c s).2)
unfolding complete settle is_terminal
complete-Settles c s = ground arith

pub drop_completer-Settles :
    (c : ShutdownCompleter) (s : State) → Settles dropped closed s (drop_completer c s)
unfolding drop_completer settle is_terminal
drop_completer-Settles c s = ground arith

pub close-Settles : (c : ShutdownCompleter) (s : State) → Settles dropped closed s (close c s)
unfolding close drop_completer settle is_terminal
close-Settles c s = ground (arith, append-nil (map dropped s.subscribers))

pub addressed-map :
    (notice : ℕ → Notice) (j : ℕ) (is : List ℕ)
    → ((i : ℕ) → (notice i).0 ≡ i)
    → sum_by (addressed j) (map notice is) ≡ sum_by (occurs j) is
addressed-map notice j [] h = refl
addressed-map notice j (i ∷ is) h =
    let same : addressed j (notice i) ≡ occurs j i = ap (occurs j) (h i) in
    omega (arith, same, addressed-map notice j is h)

pub succeeds-dropped : (is : List ℕ) → sum_by succeeds (map dropped is) ≡ 0
succeeds-dropped [] = refl
succeeds-dropped (i ∷ is) = omega (arith, succeeds-dropped is)
