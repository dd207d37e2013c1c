-- ===== src/Mailbox/Send.antt =====
-- `MailboxSender::try_send_materialized`: which sends are admitted, and what they leave.
use calandria.Prelude.{
  ℕ, ◌+◌, ◌≤◌, ◌<◌, ◌≡◌, refl, Bool, true, false, [], ◌∷◌, length, length-append, sum_by-append,
  arith, ◌⊎◌, inl, inr, Result, ok, err, leb, ltb, Bool-cases, subst, sym,
}
use calandria.Words.{u64_max}
use calandria.Wake.Alone.{wake}
use calandria.Mailbox.{
  Mailbox, Lane, control, work, Entry, Counters, AdmissionFailure, message_capacity, byte_capacity,
  closed, wake_failed, TrySendError, try_send_materialized, publish, lane_limits, lane_state,
  with_lane, lane_admit, increment_closed, increment_messages, increment_bytes,
  increment_wake_failures,
}
use calandria.Mailbox.Invariant.{IsValid, LaneValid}

module _ {ℓ} {T : Type ℓ} where
  -- Whether a lane has room for one more item of so many bytes.
  abbrev pub HasRoom : Mailbox T → Lane → ℕ → Type 0
  HasRoom m lane retained =
      (length (lane_state m lane).queue < (lane_limits m.limits lane).messages)
      × ((lane_state m lane).retained + retained ≤ (lane_limits m.limits lane).retained_bytes)

  -- The mailbox after a send that is admitted.
  abbrev pub sent : Mailbox T → Lane → T → ℕ → Mailbox T
  sent m lane item retained =
      with_lane (record m { wake_requested = true }) lane
        (lane_admit (lane_state m lane) item retained ((lane_state m lane).retained + retained))

module _ {ℓ} {T E : Type ℓ} where
  -- Why a send is refused, and how the refusal is counted.
  abbrev pub Refusal :
      Mailbox T → Lane → ℕ → Result (Unit {0}) E → AdmissionFailure E → Counters → Type ℓ
  Refusal m lane retained answer failure counters =
      ((m.receiver_alive ≡ false) × (failure ≡ closed) × (counters ≡ increment_closed m.counters))
      ⊎ ((m.receiver_alive ≡ true)
          × ((lane_limits m.limits lane).messages ≤ length (lane_state m lane).queue)
          × (failure ≡ message_capacity)
          × (counters ≡ increment_messages m.counters lane))
      ⊎ ((m.receiver_alive ≡ true)
          × (length (lane_state m lane).queue < (lane_limits m.limits lane).messages)
          × ((lane_limits m.limits lane).retained_bytes < (lane_state m lane).retained + retained)
          × (failure ≡ byte_capacity)
          × (counters ≡ increment_bytes m.counters lane))
      ⊎ ((m.receiver_alive ≡ true)
          × HasRoom m lane retained
          × (m.wake_requested ≡ false)
          × ((source : E) × (answer ≡ err source)
              × (failure ≡ wake_failed source)
              × (counters ≡ increment_wake_failures m.counters)))

module _ {ℓ} {T U E : Type ℓ} where
  -- What a send comes to: admitted, with a wake made; or refused, with nothing changed but a count.
  abbrev pub Sends :
      Mailbox T
      → Lane
      → U
      → T
      → ℕ
      → Result (Unit {0}) E
      → Mailbox T × Result (Unit {0}) (TrySendError U E)
      → Type ℓ
  Sends m lane owner item retained answer r =
      ((m.receiver_alive ≡ true)
        × HasRoom m lane retained
        × ((m.wake_requested ≡ true) ⊎ (answer ≡ ok tt))
        × (r ≡ (sent m lane item retained, ok tt)))
      ⊎ ((failure : AdmissionFailure E) × (counters : Counters) × (r ≡ (
        record m { counters = counters },
        err (record { item = owner; lane = lane; failure = failure }),
      ))
          × Refusal m lane retained answer failure counters)

  publish-Sends :
      (m : Mailbox T) (lane : Lane) (owner : U) (retained : ℕ) (materialize : U → T)
      (answer : Result (Unit {0}) E) (requested : Bool)
      → m.wake_requested ≡ requested
      → m.receiver_alive ≡ true
      → HasRoom m lane retained
      → Sends m lane owner (materialize owner) retained answer (
          publish m lane owner retained
            ((lane_state m lane).retained + retained)
            materialize
            (wake requested answer))
  unfolding publish wake
  publish-Sends m lane owner retained materialize answer true e alive room =
      inl (alive, room, inl e, ground arith)
  publish-Sends m lane owner retained materialize (ok _) false e alive room =
      inl (alive, room, inr refl, ground arith)
  publish-Sends m lane owner retained materialize (err source) false e alive room = inr (
    wake_failed source,
    increment_wake_failures m.counters,
    ground arith,
    inr (inr (inr (alive, room, e, (source, refl, refl, refl)))),
  )

  -- A send is admitted exactly when the receiver lives, the lane has room for the item and its
  -- bytes, and a wake is requested already or the backend takes the request; the item then stands
  -- at the end of its lane and a wake is requested. Every refusal hands the owner back and changes
  -- nothing but the one counter of its reason. The lane's byte limit is a u64.
  pub try_send_lem :
      (m : Mailbox T) (lane : Lane) (owner : U) (retained_bytes : U → ℕ) (materialize : U → T)
      (answer : Result (Unit {0}) E)
      → (lane_limits m.limits lane).retained_bytes ≤ u64_max
      → Sends m lane owner
          (materialize owner)
          (retained_bytes owner)
          answer
          (try_send_materialized m lane owner retained_bytes materialize answer)
  unfolding try_send_materialized
  try_send_lem m lane owner retained_bytes materialize answer fits =
      let retained = retained_bytes owner in
      let l = lane_state m lane in
      let limits = lane_limits m.limits lane in
      elim (Bool-cases m.receiver_alive) [
        | inr dead ↦ inr (closed, increment_closed m.counters, simp dead, inl (dead, refl, refl))
        | inl alive ↦ elim (Bool-cases (leb limits.messages (length l.queue))) [
          | inl full ↦ inr (
            message_capacity,
            increment_messages m.counters lane,
            simp (alive, full),
            inr (inl (alive, ground arith, refl, refl)),
          )
          | inr counted ↦ elim (Bool-cases (leb (l.retained + retained) u64_max)) [
            | inr wraps ↦ inr (
              byte_capacity,
              increment_bytes m.counters lane,
              simp (alive, counted, wraps),
              inr (inr (inl (alive, ground arith, ground arith, refl, refl))),
            )
            | inl sums ↦ elim (Bool-cases (ltb limits.retained_bytes (l.retained + retained))) [
              | inl over ↦ inr (
                byte_capacity,
                increment_bytes m.counters lane,
                simp (alive, counted, sums, over),
                inr (inr (inl (alive, ground arith, ground arith, refl, refl))),
              )
              | inr within ↦
                  let published : try_send_materialized m lane owner retained_bytes materialize
                        answer
                      ≡ publish m lane owner retained (l.retained + retained) materialize
                          (wake m.wake_requested answer) =
                    simp (alive, counted, sums, within) in
                  subst (Sends m lane owner (materialize owner) retained answer) (sym published) (
                    publish-Sends m lane owner retained materialize answer m.wake_requested refl
                      alive (ground arith, ground arith))
            ]
          ]
        ]
      ]

module _ {ℓ} {T : Type ℓ} where
  lane_admit-LaneValid :
      (m : Mailbox T) (lane : Lane) (item : T) (retained : ℕ)
      → HasRoom m lane retained
      → LaneValid (lane_limits m.limits lane) (lane_state m lane)
      → LaneValid
          (lane_limits m.limits lane)
          (lane_admit (lane_state m lane) item retained ((lane_state m lane).retained + retained))
  lane_admit-LaneValid m lane item retained room v =
      let l = lane_state m lane in
      let entry : Entry T = record { item = item; retained = retained } in
      let count = length-append l.queue (entry ∷ []) in
      let sum = sum_by-append (λ (e : Entry T). e.retained) l.queue (entry ∷ []) in
      record {
        counted = omega (arith, room);
        exact = omega (arith, v.exact);
        within = omega (arith, room);
      }

  -- The mailbox after an admitted send is valid: its lanes are bounded and a wake is requested.
  pub sent-IsValid :
      (m : Mailbox T) (lane : Lane) (item : T) (retained : ℕ)
      → m.receiver_alive ≡ true
      → HasRoom m lane retained
      → IsValid m
      → IsValid (sent m lane item retained)
  sent-IsValid m control item retained alive room v = record {
    control_lane = lane_admit-LaneValid m control item retained room v.control_lane;
    work_lane = v.work_lane;
    woken = inr refl;
    open_or_empty = inl alive;
  }
  sent-IsValid m work item retained alive room v = record {
    control_lane = v.control_lane;
    work_lane = lane_admit-LaneValid m work item retained room v.work_lane;
    woken = inr refl;
    open_or_empty = inl alive;
  }
