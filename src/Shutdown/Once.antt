-- ===== src/Shutdown/Once.antt =====
-- What a shutdown barrier keeps in every interleaving: no panic, bounded subscribers, and one
-- outcome for each.
use calandria.Prelude.{
  ℕ, ◌+◌, false, true, ◌≤◌, ◌≡◌, ◌≢◌, refl, sym, Option, some, none, List, [], ◌∷◌, map, length,
  get_elem?, sum_by, sum_by-set, sum_by-append, ap, ◌⊎◌, ◌∙◌, All, All-set, All_of_get, arith, zero,
  suc, replicate, inl, inr, Bool-cases,
}
use calandria.Shutdown.{
  Phase, completed, closed, State, Notice, published, dropped, Caller, looping, Requested,
  caller_step, is_terminal, ShutdownCompleter, complete, drop_completer, close,
}
use calandria.Shutdown.Barrier.{
  System, Step, calls, completes, closes, drops, Reach, start, next, shutdown_barrier, after_caller,
  after_completer,
}
use calandria.Shutdown.Steps.{
  occurs, addressed, succeeds, phase_publishing, IsBounded, phase_publishing-le, is_publishing,
  has_ended, Sound, IsMatched, caller_step-Sound, caller_step-phase, caller_step-IsBounded,
  caller_step-once, caller_step-others, get_elem?-set, Settles, complete-Settles,
  drop_completer-Settles, close-Settles, addressed-map, succeeds-dropped,
}

module _ {ℓ} {E : Type ℓ} where
  pub record IsSound (s : System E) : Type ℓ where
    pub room : 1 ≤ s.capacity
    pub single :
        is_terminal s.barrier.phase ≡ false
        → sum_by is_publishing s.callers ≡ phase_publishing s.barrier.phase
    pub one : sum_by is_publishing s.callers ≤ 1
    pub sound : All Sound s.callers
    pub bounded : IsBounded s.capacity s.barrier
    pub once :
        (i : ℕ) (c : Caller E)
        → get_elem? s.callers i ≡ some c
        → sum_by (occurs i) s.barrier.subscribers + sum_by (addressed i) s.notices ≡ has_ended c
    pub truthful : s.barrier.phase ≢ completed → sum_by succeeds s.notices ≡ 0

  is_publishing-le :
      (cs : List (Caller E)) (i : ℕ) (c : Caller E)
      → get_elem? cs i ≡ some c
      → is_publishing c ≤ sum_by is_publishing cs
  is_publishing-le [] i c h = cc
  is_publishing-le (x ∷ cs) zero c h =
      let same : is_publishing x ≡ is_publishing c = cc in omega arith
  is_publishing-le (x ∷ cs) (suc i) c h = omega (arith, is_publishing-le cs i c h)

  calls-IsSound :
      (s : System E) (i : ℕ) (c : Caller E) (request : Requested E)
      → get_elem? s.callers i ≡ some c
      → IsSound s
      → IsSound (after_caller s i (caller_step s.capacity s.barrier i c request))
  calls-IsSound s i c request at v =
      let out = caller_step s.capacity s.barrier i c request in
      let mine : IsMatched s.barrier c =
        λ live. omega (arith, is_publishing-le s.callers i c at, v.single live) in
      let (ends, moves, silent, leaves) = caller_step-phase s.capacity i s.barrier c request mine in
      record {
        room = v.room;
        single = λ live.
            let was = sym ends ∙ live in
            omega (arith, v.single was, moves was, sum_by-set is_publishing s.callers i c out.1 at);
        one =
            let moved = sum_by-set is_publishing s.callers i c out.1 at in
            elim (Bool-cases (is_terminal s.barrier.phase)) [
              | inl over ↦ let less = leaves over in omega (arith, v.one, moved)
              | inr live ↦
                  omega (arith, moved, v.single live, moves live, phase_publishing-le out.0.phase)
            ];
        sound = All-set Sound s.callers i out.1 v.sound (
            caller_step-Sound s.capacity i s.barrier c request
              (All_of_get Sound s.callers i c v.sound at) mine);
        bounded = caller_step-IsBounded s.capacity i s.barrier c request v.room mine v.bounded;
        once = λ j d found.
            let total = sum_by-append (addressed j) out.2 s.notices in
            elim (get_elem?-set s.callers i j c d out.1 at found) [
              | inl (same, new) ↦
                  let before = v.once i c at in
                  let moved = caller_step-once s.capacity i s.barrier c request mine in
                  ground (arith, total, before, moved)
              | inr (apart, old) ↦
                  let before = v.once j d old in
                  let kept = caller_step-others s.capacity i j s.barrier c request mine apart in
                  omega (arith, total, before, kept)
            ];
        truthful = λ unsettled.
            let (before, nothing) = silent unsettled in
            omega (arith, v.truthful before, nothing, sum_by-append succeeds out.2 s.notices);
      }

  completer-IsSound :
      (s : System E) (held : Option ShutdownCompleter) (notice : ℕ → Notice) (terminal : Phase)
      (out : State × List Notice)
      → Settles notice terminal s.barrier out
      → is_terminal terminal ≡ true
      → ((i : ℕ) → (notice i).0 ≡ i)
      → (terminal ≢ completed → sum_by succeeds (map notice s.barrier.subscribers) ≡ 0)
      → IsSound s
      → IsSound (after_completer s held out)
  unfolding is_terminal
  completer-IsSound s held notice terminal out settles final names silent v = record {
    room = v.room;
    single = elim settles [
      | inl (same, none_said) ↦ λ live. ground (arith, v.single)
      | inr (live, settled, said) ↦ λ still. ground arith
    ];
    one = v.one;
    sound = v.sound;
    bounded = ground (arith, v.bounded);
    once = λ i c at. elim settles [
      | inl (same, none_said) ↦ let before = v.once i c at in ground (arith, before)
      | inr (live, settled, said) ↦
          let before = v.once i c at in
          ground (
            arith,
            before,
            addressed-map notice i s.barrier.subscribers names,
            sum_by-append (addressed i) out.1 s.notices,
          )
    ];
    truthful = λ unsettled. elim settles [
      | inl (same, none_said) ↦ ground (arith, v.truthful)
      | inr (live, settled, said) ↦
          ground (arith, v.truthful, silent, sum_by-append succeeds out.1 s.notices)
    ];
  }

  pub Step-IsSound : {s t : System E} → Step s t → IsSound s → IsSound t
  unfolding is_terminal
  Step-IsSound {s} (calls i c request at) v = calls-IsSound s i c request at v
  Step-IsSound {s} (completes c held) v =
      completer-IsSound s (some (complete c s.barrier).0) published completed
        ((complete c s.barrier).1, (complete c s.barrier).2) (complete-Settles c s.barrier) refl
        (λ i. refl) (λ other. absurd (other refl)) v
  Step-IsSound {s} (closes c held) v =
      completer-IsSound s none dropped closed (close c s.barrier) (close-Settles c s.barrier) refl
        (λ i. refl) (λ other. succeeds-dropped s.barrier.subscribers) v
  Step-IsSound {s} (drops c held) v =
      completer-IsSound s none dropped closed (drop_completer c s.barrier)
        (drop_completer-Settles c s.barrier) refl (λ i. refl)
        (λ other. succeeds-dropped s.barrier.subscribers) v

  Reach-IsSound : {s t : System E} → Reach s t → IsSound s → IsSound t
  Reach-IsSound start v = v
  Reach-IsSound (next r st) v = Step-IsSound st (Reach-IsSound r v)

  replicate-publishing :
      (n : ℕ) (c : Caller E) → c ≡ looping → sum_by is_publishing (replicate n c) ≡ 0
  replicate-publishing zero c e = refl
  replicate-publishing (suc n) c e =
      let idle : is_publishing c ≡ 0 = ap is_publishing e in
      omega (arith, idle, replicate-publishing n c e)

  replicate-Sound : (n : ℕ) (c : Caller E) → c ≡ looping → All Sound (replicate n c)
  replicate-Sound zero c e = tt
  replicate-Sound (suc n) c e = ((λ bad. cc), replicate-Sound n c e)

  get_elem?-replicate : (n i : ℕ) (c d : Caller E) → get_elem? (replicate n c) i ≡ some d → d ≡ c
  get_elem?-replicate zero i c d at = cc
  get_elem?-replicate (suc n) zero c d at = cc
  get_elem?-replicate (suc n) (suc i) c d at = get_elem?-replicate n i c d at

  shutdown_barrier-IsSound :
      (capacity n : ℕ) → 1 ≤ capacity → IsSound (shutdown_barrier {E = E} capacity n)
  unfolding is_terminal
  shutdown_barrier-IsSound capacity n room =
      let quiet = replicate-publishing n looping refl in
      record {
        room = room;
        single = λ live. quiet;
        one = omega (arith, quiet);
        sound = replicate-Sound n looping refl;
        bounded = (omega arith, λ other. refl);
        once = λ i c at. sym (ap has_ended (get_elem?-replicate n i looping c at));
        truthful = λ unsettled. refl;
      }

  -- However the critical sections of any number of `subscribe` calls and of the completer
  -- interleave on a new barrier of positive capacity, no call panics, at most one runs its request
  -- callback at a time, and the retained subscribers stay within the capacity. The completer of any
  -- call is retained or has been settled, exactly once in all, if the call has ended, and neither if
  -- it has not; the phase is Completed, or success has been published to no one; and the barrier is
  -- not settled, or it retains no subscriber.
  pub Reach-subscribers :
      (capacity n i : ℕ) (s : System E) (c : Caller E)
      → 1 ≤ capacity
      → Reach (shutdown_barrier capacity n) s
      → get_elem? s.callers i ≡ some c
      → All Sound s.callers
        × (sum_by is_publishing s.callers ≤ 1)
        × (length s.barrier.subscribers ≤ s.capacity)
        × (sum_by (occurs i) s.barrier.subscribers + sum_by (addressed i) s.notices ≡ has_ended c)
        × ((s.barrier.phase ≡ completed) ⊎ (sum_by succeeds s.notices ≡ 0))
        × ((is_terminal s.barrier.phase ≡ false) ⊎ (s.barrier.subscribers ≡ []))
  unfolding is_terminal
  Reach-subscribers capacity n i s c room r at =
      let v = Reach-IsSound r (shutdown_barrier-IsSound capacity n room) in
      (
        v.sound,
        v.one,
        v.bounded.0,
        v.once i c at,
        ground (arith, v.truthful),
        ground (arith, v.bounded),
      )
