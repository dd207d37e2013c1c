-- ===== src/Mailbox/Closed.antt =====
-- A mailbox behind the receiver's close: no operation opens it again, and every send is refused.
use calandria.Prelude.{
  ◌+◌, ℕ, ◌≤◌, ◌≡◌, refl, sym, ap, ◌∙◌, subst, false, List, [], ◌∷◌, length, take, arith, inl, inr,
  Result, err, Outcome, returns, returns-inj, ◌>>=◌, Bool-cases, le→leb,
}
use calandria.Words.{u64_max}
use calandria.Wake.Alone.{wake}
use calandria.Mailbox.{
  Mailbox, Lane, closed, TrySendError, try_send_materialized, try_send_to, drain_into, close,
  clone_sender, drop_sender, settle, is_empty, increment_closed,
}
use calandria.Mailbox.Invariant.{IsValid, items_of, lane_drain_into_lem}
use calandria.Mailbox.Drain.{contents, controls_of, works_of, drained_lanes, is_empty_iff}
use calandria.Mailbox.Close.{close_lem}
use calandria.Mailbox.History.{
  Op, sends, drains, closes, clones, drops, wakes, step, run, AreWords, step-StepsTo,
}

module _ {ℓ} {T : Type ℓ} where
  -- What a step of a closed mailbox comes to.
  abbrev StaysClosed : Outcome (Mailbox T) → Type ℓ
  StaysClosed r = (m' : Mailbox T) × (r ≡ returns m') × (m'.receiver_alive ≡ false)

  settle_receiver : (m : Mailbox T) → (settle m).0.receiver_alive ≡ m.receiver_alive
  unfolding settle
  settle_receiver m = elim (Bool-cases (is_empty m)) [
    | inl none_left ↦ simp (none_left) refl
    | inr some_left ↦ simp (some_left) refl
  ]

  closed-contents : (m : Mailbox T) → IsValid m → m.receiver_alive ≡ false → contents m ≡ []
  closed-contents m v dead = elim v.open_or_empty [
    | inl alive ↦ ground arith
    | inr none_left ↦ (is_empty_iff m).0 none_left
  ]

  clone-StaysClosed :
      (m : Mailbox T)
      → m.senders + 1 ≤ u64_max
      → m.receiver_alive ≡ false
      → StaysClosed (clone_sender m)
  unfolding clone_sender
  clone-StaysClosed m room dead =
      let fits = le→leb (m.senders + 1) u64_max room in
      (record m { senders = m.senders + 1 }, simp fits, dead)

  drain-StaysClosed :
      (m : Mailbox T) (limit : ℕ)
      → IsValid m
      → m.receiver_alive ≡ false
      → StaysClosed (drain_into m [] limit >>= λ out. returns out.0)
  unfolding drain_into
  drain-StaysClosed m limit v dead =
      let d = drained_lanes m limit in
      let firsts = items_of (take (controls_of m limit) m.control.queue) in
      let first =
        lane_drain_into_lem (controls_of m limit) m.control.queue m.control.retained []
          v.control_lane.exact in
      let second =
        lane_drain_into_lem (works_of m limit) m.work.queue m.work.retained firsts
          v.work_lane.exact in
      ((settle d).0, rw first (rw second refl), settle_receiver d ∙ dead)

module _ {ℓ} {T E : Type ℓ} where
  drop-StaysClosed :
      (m : Mailbox T) (answer : Result (Unit {0}) E)
      → m.receiver_alive ≡ false
      → (drop_sender m answer).receiver_alive ≡ false
  unfolding drop_sender
  drop-StaysClosed m answer dead = ground (arith, dead)

  refused :
      {U : Type ℓ}
      → (m : Mailbox T) (lane : Lane) (owner : U) (retained_bytes : U → ℕ) (materialize : U → T)
        (answer : Result (Unit {0}) E)
      → m.receiver_alive ≡ false
      → try_send_materialized m lane owner retained_bytes materialize answer ≡ (
        record m { counters = increment_closed m.counters },
        err (record { item = owner; lane = lane; failure = closed }),
      )
  unfolding try_send_materialized
  refused m lane owner retained_bytes materialize answer dead = simp dead

  step-StaysClosed :
      (m : Mailbox T) (op : Op T E)
      → IsValid m
      → m.senders + 1 ≤ u64_max
      → m.receiver_alive ≡ false
      → StaysClosed (step m op)
  unfolding step try_send_to
  step-StaysClosed m (sends lane item answer) v room dead = (
    record m { counters = increment_closed m.counters },
    ap (λ (r : Mailbox T × Result (Unit {0}) (TrySendError T E)). returns r.0)
        (refused m lane item m.measure (λ x. x) answer dead),
    dead,
  )
  step-StaysClosed m (drains limit) v room dead = drain-StaysClosed m limit v dead
  step-StaysClosed m closes v room dead =
      let (m', e, empty, dead', acknowledged, valid, same, senders) = close_lem m v in
      (m', rw e refl, dead')
  step-StaysClosed m clones v room dead = clone-StaysClosed m room dead
  step-StaysClosed m (drops answer) v room dead =
      (drop_sender m answer, refl, drop-StaysClosed m answer dead)
  step-StaysClosed m (wakes answer) v room dead =
      (record m { wake_requested = (wake m.wake_requested answer).0 }, refl, dead)

  run-StaysClosed :
      (m : Mailbox T) (ops : List (Op T E))
      → IsValid m
      → AreWords m.limits
      → m.senders + length ops ≤ u64_max
      → m.receiver_alive ≡ false
      → (m' : Mailbox T) × (run m ops ≡ returns m') × IsValid m' × (m'.receiver_alive ≡ false)
  unfolding run
  run-StaysClosed m [] v w room dead = (m, refl, v, dead)
  run-StaysClosed m (op ∷ ops) v w room dead =
      let (m₁, e, v₁, same, count) = step-StepsTo m op v w (omega arith) in
      let (m₁', e', dead') = step-StaysClosed m op v (omega arith) dead in
      let dead₁ = subst (λ x. x.receiver_alive ≡ false) (returns-inj m₁' m₁ (sym e' ∙ e)) dead' in
      let (m₂, e₂, v₂, dead₂) =
        run-StaysClosed m₁ ops v₁ (subst AreWords (sym same) w) (omega arith) dead₁ in
      (m₂, rw e e₂, v₂, dead₂)

module _ {ℓ} {T U E : Type ℓ} where
  -- Closing a valid mailbox does not panic, and hands out everything queued in drain order; the
  -- closed mailbox has no receiver, is empty and valid, has no wake requested, and keeps the limits
  -- and the senders. After any later history of sends, drains, closes, clones, drops and wakes,
  -- which does not panic either, the mailbox is still empty and valid, and a send on either lane is
  -- refused as closed: the owner is handed back and only the count of closed refusals changes. The
  -- byte limits are u64 values, and the senders cannot outnumber the usize values.
  pub try_send-run-close :
      (m : Mailbox T) (ops : List (Op T E)) (lane : Lane) (owner : U) (retained_bytes : U → ℕ)
      (materialize : U → T) (answer : Result (Unit {0}) E)
      → IsValid m
      → AreWords m.limits
      → m.senders + length ops ≤ u64_max
      → (m₁ m₂ : Mailbox T) × (close m ≡ returns (m₁, contents m))
        × (contents m₁ ≡ [])
        × (m₁.receiver_alive ≡ false)
        × (m₁.wake_requested ≡ false)
        × IsValid m₁
        × (m₁.limits ≡ m.limits)
        × (m₁.senders ≡ m.senders)
        × (run m₁ ops ≡ returns m₂)
        × (contents m₂ ≡ [])
        × IsValid m₂
        × (try_send_materialized m₂ lane owner retained_bytes materialize answer ≡ (
          record m₂ { counters = increment_closed m₂.counters },
          err (record { item = owner; lane = lane; failure = closed }),
        ))
  try_send-run-close m ops lane owner retained_bytes materialize answer v w room =
      let (m₁, e, empty, dead, acknowledged, v₁, same, senders) = close_lem m v in
      let (m₂, e₂, v₂, dead₂) =
        run-StaysClosed m₁ ops v₁ (subst AreWords (sym same) w) (omega arith) dead in
      (
        m₁,
        m₂,
        e,
        empty,
        dead,
        acknowledged,
        v₁,
        same,
        senders,
        e₂,
        closed-contents m₂ v₂ dead₂,
        v₂,
        refused m₂ lane owner retained_bytes materialize answer dead₂,
      )
