-- ===== src/Mailbox/History.antt =====
-- Whole histories of a mailbox: no panic, bounded lanes, and no queued work without a wake.
use calandria.Prelude.{
  ℕ, ◌+◌, ◌-◌, ◌≤◌, ◌≡◌, refl, sym, ap, subst, Bool, true, false, List, [], ◌∷◌, length, arith, ◌⊎◌,
  inl, inr, Result, ok, err, Outcome, returns, ◌>>=◌, Bool-cases, le→leb, ◌==◌, ◌&&◌,
}
use calandria.Words.{u64_max}
use calandria.Wake.Alone.{wake, wake-keeps}
use calandria.Mailbox.{
  Mailbox, MailboxLimits, Lane, control, work, Counters, try_send_to, drain_into, close,
  clone_sender, drop_sender, is_empty, lane_limits, TrySendError, increment_wake_failures,
  wake_last,
}
use calandria.Mailbox.Invariant.{IsValid}
use calandria.Mailbox.Send.{sent, sent-IsValid, try_send_lem}
use calandria.Mailbox.Drain.{contents, drain_into_lem, is_empty_iff}
use calandria.Mailbox.Close.{close_lem}

-- One operation on the mailbox, with the backend's answer where it may be called. `wakes` is a call
-- of `wake` on a clone of the mailbox's handle.
pub data Op {ℓ} (T : Type ℓ) (E : Type ℓ) : Type ℓ where
  sends : Lane → T → Result (Unit {0}) E → Op T E
  drains : ℕ → Op T E
  closes : Op T E
  clones : Op T E
  drops : Result (Unit {0}) E → Op T E
  wakes : Result (Unit {0}) E → Op T E

-- The byte limits of both lanes are u64 values.
abbrev pub AreWords : MailboxLimits → Type 0
AreWords limits = (limits.control.retained_bytes ≤ u64_max) × (limits.work.retained_bytes ≤ u64_max)

Bool-known : (b : Bool) → (b ≡ false) ⊎ (b ≡ true)
Bool-known true = inr refl
Bool-known false = inl refl

module _ {ℓ} {T : Type ℓ} where
  -- What a step comes to: a valid mailbox of the same limits, with one sender more at most.
  abbrev pub StepsTo : Mailbox T → Outcome (Mailbox T) → Type ℓ
  StepsTo m r =
      (m' : Mailbox T) × (r ≡ returns m')
      × IsValid m'
      × (m'.limits ≡ m.limits)
      × (m'.senders ≤ m.senders + 1)

  counters-IsValid :
      (m : Mailbox T) (counters : Counters) → IsValid m → IsValid (record m { counters = counters })
  unfolding is_empty
  counters-IsValid m counters v = record {
    control_lane = v.control_lane;
    work_lane = v.work_lane;
    woken = v.woken;
    open_or_empty = v.open_or_empty;
  }

  -- A change that makes no wake undone and touches no lane.
  keeps-IsValid :
      (m : Mailbox T) (requested : Bool) (senders : ℕ) (counters : Counters)
      → IsValid m
      → ((m.wake_requested ≡ false) ⊎ (requested ≡ true))
      → IsValid (record m { wake_requested = requested; senders = senders; counters = counters })
  unfolding is_empty
  keeps-IsValid m requested senders counters v h = record {
    control_lane = v.control_lane;
    work_lane = v.work_lane;
    woken = elim v.woken [
      | inl none_left ↦ inl none_left
      | inr made ↦ elim h [ inl unmade ↦ ground arith | inr again ↦ inr again ]
    ];
    open_or_empty = v.open_or_empty;
  }

  lane_is_word :
      (m : Mailbox T) (lane : Lane)
      → AreWords m.limits
      → (lane_limits m.limits lane).retained_bytes ≤ u64_max
  lane_is_word m control w = w.0
  lane_is_word m work w = w.1

  limits-sent :
      (m : Mailbox T) (lane : Lane) (item : T) (retained : ℕ)
      → ((sent m lane item retained).limits ≡ m.limits)
        × ((sent m lane item retained).senders ≡ m.senders)
  limits-sent m control item retained = (refl, refl)
  limits-sent m work item retained = (refl, refl)

  clone-StepsTo : (m : Mailbox T) → IsValid m → m.senders + 1 ≤ u64_max → StepsTo m (clone_sender m)
  unfolding clone_sender
  clone-StepsTo m v room =
      let fits = le→leb (m.senders + 1) u64_max room in
      (
        record m { senders = m.senders + 1 },
        simp fits,
        keeps-IsValid m m.wake_requested (m.senders + 1) m.counters v (Bool-known m.wake_requested),
        refl,
        omega arith,
      )

module _ {ℓ} {T E : Type ℓ} where
  unfoldable pub step : Mailbox T → Op T E → Outcome (Mailbox T)
  step m (sends lane item answer) = returns (try_send_to m lane item answer).0
  step m (drains limit) = drain_into m [] limit >>= λ out. returns out.0
  step m closes = close m >>= λ out. returns out.0
  step m clones = clone_sender m
  step m (drops answer) = returns (drop_sender m answer)
  step m (wakes answer) = returns (record m { wake_requested = (wake m.wake_requested answer).0 })

  unfoldable pub run : Mailbox T → List (Op T E) → Outcome (Mailbox T)
  run m [] = returns m
  run m (op ∷ ops) = step m op >>= λ m'. run m' ops

  send-StepsTo :
      (m : Mailbox T) (lane : Lane) (item : T) (answer : Result (Unit {0}) E)
      → IsValid m
      → AreWords m.limits
      → StepsTo m (step m (sends lane item answer))
  unfolding step try_send_to
  send-StepsTo m lane item answer v w =
      elim (try_send_lem m lane item m.measure (λ x. x) answer (lane_is_word m lane w)) [
        | inl (alive, room, awake, e) ↦
            let (same, count) = limits-sent m lane item (m.measure item) in
            (
              sent m lane item (m.measure item),
              ap (λ (r : Mailbox T × Result (Unit {0}) (TrySendError T E)). returns r.0) e,
              sent-IsValid m lane item (m.measure item) alive room v,
              same,
              omega arith,
            )
        | inr (failure, counters, e, why) ↦ (
          record m { counters = counters },
          ap (λ (r : Mailbox T × Result (Unit {0}) (TrySendError T E)). returns r.0) e,
          counters-IsValid m counters v,
          refl,
          omega arith,
        )
      ]

  wake_last-IsValid :
      (m : Mailbox T) (out : Bool × Result (Unit {0}) E)
      → IsValid m
      → ((m.wake_requested ≡ false) ⊎ (out.0 ≡ true))
      → IsValid (wake_last m out)
        × ((wake_last m out).limits ≡ m.limits)
        × ((wake_last m out).senders ≡ 0)
  wake_last-IsValid m (requested, ok _) v h =
      (keeps-IsValid m requested 0 m.counters v h, refl, refl)
  wake_last-IsValid m (requested, err _) v h =
      (keeps-IsValid m requested 0 (increment_wake_failures m.counters) v h, refl, refl)

  drop-StepsTo :
      (m : Mailbox T) (answer : Result (Unit {0}) E) → IsValid m → StepsTo m (step m (drops answer))
  unfolding step drop_sender
  drop-StepsTo m answer v = elim (Bool-cases (m.senders == 0)) [
    | inl gone ↦ (m, simp gone, v, refl, omega arith)
    | inr some_sender ↦ elim (Bool-cases ((m.senders == 1) && m.receiver_alive)) [
      | inl last ↦
          let out = wake m.wake_requested answer in
          let (valid, same, count) =
            wake_last-IsValid m out v (wake-keeps m.wake_requested answer) in
          (wake_last m out, simp (some_sender, last), valid, same, omega arith)
      | inr others ↦ (
        record m { senders = m.senders - 1 },
        simp (some_sender, others),
        keeps-IsValid m m.wake_requested (m.senders - 1) m.counters v (Bool-known m.wake_requested),
        refl,
        omega arith,
      )
    ]
  ]

  pub step-StepsTo :
      (m : Mailbox T) (op : Op T E)
      → IsValid m
      → AreWords m.limits
      → m.senders + 1 ≤ u64_max
      → StepsTo m (step m op)
  unfolding step
  step-StepsTo m (sends lane item answer) v w room = send-StepsTo m lane item answer v w
  step-StepsTo m (drains limit) v w room =
      let (m', report, e, rest, count, reports, valid, same, senders) =
        drain_into_lem m [] limit v in
      (m', rw e, valid, same, omega arith)
  step-StepsTo m closes v w room =
      let (m', e, empty, dead, acknowledged, valid, same, senders) = close_lem m v in
      (m', rw e, valid, same, omega arith)
  step-StepsTo m clones v w room = clone-StepsTo m v room
  step-StepsTo m (drops answer) v w room = drop-StepsTo m answer v
  step-StepsTo m (wakes answer) v w room = (
    record m { wake_requested = (wake m.wake_requested answer).0 },
    refl,
    keeps-IsValid m (wake m.wake_requested answer).0 m.senders m.counters v
        (wake-keeps m.wake_requested answer),
    refl,
    omega arith,
  )

  -- From a valid mailbox no history of sends, drains, closes, clones, drops and wakes panics, if
  -- the byte limits are u64 values and the senders cannot outnumber the usize values. The
  -- mailbox stays valid: both lanes stay within their limits with exact accounting, and whenever
  -- anything is queued a wake is requested, so no queued item is left without one.
  pub run-woken :
      (m : Mailbox T) (ops : List (Op T E))
      → IsValid m
      → AreWords m.limits
      → m.senders + length ops ≤ u64_max
      → (m' : Mailbox T) × (run m ops ≡ returns m')
        × IsValid m'
        × ((contents m' ≡ []) ⊎ (m'.wake_requested ≡ true))
  unfolding run
  run-woken m [] v w room = (
    m,
    refl,
    v,
    elim v.woken [ inl none_left ↦ inl ((is_empty_iff m).0 none_left) | inr made ↦ inr made ],
  )
  run-woken m (op ∷ ops) v w room =
      let (m₁, e, v₁, same, count) = step-StepsTo m op v w (omega arith) in
      let (m₂, e₂, v₂, woken) = run-woken m₁ ops v₁ (subst AreWords (sym same) w) (omega arith) in
      (m₂, rw e e₂, v₂, woken)
