-- ===== src/Wake/Interleaving.antt =====
-- Any number of producers and one owner on one wake handle, in every interleaving of their accesses.
use calandria.Prelude.{
  ℕ, ◌+◌, ◌≤◌, ◌≡◌, ◌≢◌, refl, some, List, [], ◌∷◌, ◌⊎◌, ◌↔◌, get_elem?, set, sum_by, sum_by-set,
  All, All-set, All_of_get, arith, Result, replicate, zero, suc,
}
use calandria.Wake.{
  Phase, idle, waking, waking_acknowledged, Producer, loading, claiming, calling, storing, returned,
  panicked, Owner, resting, producer_step, owner_step,
}

pub record System {ℓ} (E : Type ℓ) : Type ℓ where
  pub phase : Phase
  pub producers : List (Producer E)
  pub owner : Owner

-- Whether the phase says that a backend request is in flight.
abbrev pub phase_in_flight : Phase → ℕ
phase_in_flight waking = 1
phase_in_flight waking_acknowledged = 1
phase_in_flight _ = 0

owner_step-flight :
    (phase : Phase) (o : Owner) → phase_in_flight (owner_step phase o).0 ≡ phase_in_flight phase
unfolding owner_step
owner_step-flight phase o = ground arith

phase_in_flight-le : (phase : Phase) → phase_in_flight phase ≤ 1
phase_in_flight-le phase = ground arith

module _ {ℓ} {E : Type ℓ} where
  abbrev pub after_producer : System E → ℕ → Phase × Producer E → System E
  after_producer s i out = record s { phase = out.0; producers = set s.producers i out.1 }

  abbrev pub after_owner : System E → Phase × Owner → System E
  after_owner s out = record s { phase = out.0; owner = out.1 }

  -- One access, by a producer that the scheduler picks or by the owner.
  pub data Step (s : System E) : System E → Type ℓ where
    produce :
        (i : ℕ) (p : Producer E) (result : Result (Unit {0}) E)
        → get_elem? s.producers i ≡ some p
        → Step s (after_producer s i (producer_step s.phase p result))
    acknowledge : Step s (after_owner s (owner_step s.phase s.owner))

  pub data Reach (s : System E) : System E → Type ℓ where
    start : Reach s s
    next : {t u : System E} → Reach s t → Step t u → Reach s u

  -- Whether a producer has a backend request in flight.
  abbrev pub in_flight : Producer E → ℕ
  in_flight calling = 1
  in_flight storing = 1
  in_flight _ = 0

  abbrev pub Sound : Producer E → Type ℓ
  Sound p = p ≢ panicked

  pub record IsExclusive (s : System E) : Type ℓ where
    pub single : sum_by in_flight s.producers ≡ phase_in_flight s.phase
    pub sound : All Sound s.producers

  -- One access of a producer moves its own flag and the phase's alike, and does not panic.
  producer_step-Sound :
      (phase : Phase) (p : Producer E) (result : Result (Unit {0}) E)
      → Sound p
      → in_flight p ≤ phase_in_flight phase
      → (phase_in_flight (producer_step phase p result).0 + in_flight p
          ≡ phase_in_flight phase + in_flight (producer_step phase p result).1)
        × Sound (producer_step phase p result).1
  unfolding producer_step
  producer_step-Sound phase loading result s h = ground arith
  producer_step-Sound phase claiming result s h = ground arith
  producer_step-Sound phase calling result s h = ground arith
  producer_step-Sound phase storing result s h = ground arith
  producer_step-Sound phase (returned r) result s h = ground arith
  producer_step-Sound phase panicked result s h = absurd (s refl)

  in_flight-le :
      (ps : List (Producer E)) (i : ℕ) (p : Producer E)
      → get_elem? ps i ≡ some p
      → in_flight p ≤ sum_by in_flight ps
  in_flight-le [] i p h = cc
  in_flight-le (x ∷ ps) zero p h = let same : in_flight x ≡ in_flight p = cc in omega arith
  in_flight-le (x ∷ ps) (suc i) p h = omega (arith, in_flight-le ps i p h)

  pub Step-IsExclusive : {s t : System E} → Step s t → IsExclusive s → IsExclusive t
  Step-IsExclusive {s} (produce i p result at) v =
      let mine : in_flight p ≤ phase_in_flight s.phase =
        omega (arith, in_flight-le s.producers i p at, v.single) in
      let (moves, sound) =
        producer_step-Sound s.phase p result (All_of_get Sound s.producers i p v.sound at) mine in
      let out = (producer_step s.phase p result).1 in
      record {
        single = omega (arith, v.single, moves, sum_by-set in_flight s.producers i p out at);
        sound = All-set Sound s.producers i out v.sound sound;
      }
  Step-IsExclusive {s} acknowledge v = record {
    single = omega (arith, v.single, owner_step-flight s.phase s.owner);
    sound = v.sound;
  }

  Reach-IsExclusive : {s t : System E} → Reach s t → IsExclusive s → IsExclusive t
  Reach-IsExclusive start v = v
  Reach-IsExclusive (next r st) v = Step-IsExclusive st (Reach-IsExclusive r v)

  -- A new handle, before any of its `n` producers has called `wake`.
  abbrev pub fresh : ℕ → System E
  fresh n = record { phase = idle; producers = replicate n loading; owner = resting }

  fresh-IsExclusive : (n : ℕ) → IsExclusive (fresh n)
  fresh-IsExclusive zero = record { single = refl; sound = tt }
  fresh-IsExclusive (suc n) =
      let v = fresh-IsExclusive n in
      record { single = omega (arith, v.single); sound = ((λ same. cc), v.sound) }

  -- However the accesses of any number of producers and of the owner interleave on a new handle,
  -- none of the assertions of `finish_wake` fails, at most one producer has a backend request in
  -- flight, and one has exactly when the phase is WAKING or WAKING_ACKNOWLEDGED.
  pub Reach-exclusive :
      (n : ℕ) (s : System E)
      → Reach (fresh n) s
      → All Sound s.producers
        × (sum_by in_flight s.producers ≤ 1)
        × ((sum_by in_flight s.producers ≡ 1)
            ↔ ((s.phase ≡ waking) ⊎ (s.phase ≡ waking_acknowledged)))
  Reach-exclusive n s r =
      let v = Reach-IsExclusive r (fresh-IsExclusive n) in
      (
        v.sound,
        omega (arith, v.single, phase_in_flight-le s.phase),
        (λ one. ground (arith, v.single), λ either. ground (arith, v.single)),
      )
