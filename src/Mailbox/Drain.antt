-- ===== src/Mailbox/Drain.antt =====
-- `MailboxReceiver::drain_into`: what a bounded drain takes, leaves and reports.
use calandria.Prelude.{
  ℕ, ◌-◌, ◌≡◌, refl, sym, ap, ◌∙◌, min, true, false, List, [], ◌∷◌, ◌++◌, take, drop, length,
  length-take, length-drop, length-append, length-map, append_assoc, arith, ◌⊎◌, ◌↔◌, inl, inr,
  returns, Bool-cases,
}
use calandria.Prelude.{
  ap₂, take-min, drop-min, take-append, drop-append, take-map, drop-map, ◌≢◌, ◌&&◌, ◌||◌, not, ◌==◌,
}
use calandria.Mailbox.{
  Mailbox, Entry, drain_into, settle, is_empty, DrainReport, DrainStatus, idle, more_pending,
  closed,
}
use calandria.Mailbox.Invariant.{
  IsValid, items_of, lane_after, lane_drain_into_lem, lane_after-LaneValid,
}

module _ {ℓ} {T : Type ℓ} where
  -- Everything queued, in the order in which it is drained: control first, each lane oldest first.
  abbrev pub contents : Mailbox T → List T
  contents m = items_of m.control.queue ++ items_of m.work.queue

  abbrev pub controls_of : Mailbox T → ℕ → ℕ
  controls_of m limit = min limit (length m.control.queue)

  abbrev pub works_of : Mailbox T → ℕ → ℕ
  works_of m limit = min (limit - controls_of m limit) (length m.work.queue)

  -- The mailbox behind both lanes' drains.
  abbrev pub drained_lanes : Mailbox T → ℕ → Mailbox T
  drained_lanes m limit = record m {
    control = lane_after (controls_of m limit) m.control;
    work = lane_after (works_of m limit) m.work;
  }

  -- What both lanes hand over, and what they keep, is the front and the rest of the contents.
  drained-contents :
      (m : Mailbox T) (limit : ℕ)
      → (items_of (take (controls_of m limit) m.control.queue)
            ++ items_of (take (works_of m limit) m.work.queue)
          ≡ take limit (contents m))
        × (contents (drained_lanes m limit) ≡ drop limit (contents m))
  drained-contents m limit =
      let cs = m.control.queue in
      let ws = m.work.queue in
      let item = λ (e : Entry T). e.item in
      let left : limit - controls_of m limit ≡ limit - length (items_of cs) =
        omega (arith, length-map item cs) in
      (
        rw (take-min, left, take-min)
            (sym (
              take-append limit (items_of cs) (items_of ws)
              ∙ ap₂ ◌++◌ (take-map item limit cs)
                  (take-map item (limit - length (items_of cs)) ws))),
        rw (drop-min, left, drop-min)
            (sym (
              drop-append limit (items_of cs) (items_of ws)
              ∙ ap₂ ◌++◌ (drop-map item limit cs)
                  (drop-map item (limit - length (items_of cs)) ws))),
      )

  pub is_empty_iff : (m : Mailbox T) → (is_empty m ≡ true) ↔ (contents m ≡ [])
  unfolding is_empty
  is_empty_iff m = go m.control.queue m.work.queue
    where
      go :
          (cs ws : List (Entry T))
          → (((length cs == 0) && (length ws == 0)) ≡ true) ↔ (items_of cs ++ items_of ws ≡ [])
      go [] [] = (λ h. refl, λ h. refl)
      go [] (w ∷ ws) = (λ h. ground arith, λ h. ground arith)
      go (c ∷ cs) ws = (λ h. ground arith, λ h. ground arith)

  -- What a drain reports: work that stays, or an empty mailbox, which is closed when no further
  -- item can come.
  abbrev pub Reports : Mailbox T → Mailbox T → DrainStatus → Type ℓ
  Reports m m' status =
      ((status ≡ more_pending) × (contents m' ≢ []) × (m'.wake_requested ≡ m.wake_requested))
      ⊎ ((status ≡ idle)
          × (contents m' ≡ [])
          × (m'.wake_requested ≡ false)
          × (m.receiver_alive ≡ true)
          × (m.senders ≢ 0))
      ⊎ ((status ≡ closed)
          × (contents m' ≡ [])
          × (m'.wake_requested ≡ false)
          × ((m.receiver_alive ≡ false) ⊎ (m.senders ≡ 0)))

  over_means :
      (m : Mailbox T)
      → (not m.receiver_alive || m.senders == 0) ≡ true
      → (m.receiver_alive ≡ false) ⊎ (m.senders ≡ 0)
  over_means m h = ground arith

  open_means :
      (m : Mailbox T)
      → (not m.receiver_alive || m.senders == 0) ≡ false
      → (m.receiver_alive ≡ true) × (m.senders ≢ 0)
  open_means m h = ground arith

  settle-Reports :
      (m : Mailbox T) → (contents (settle m).0 ≡ contents m) × Reports m (settle m).0 (settle m).1
  unfolding settle
  settle-Reports m = elim (Bool-cases (is_empty m)) [
    | inl none_left ↦
        let empty = (is_empty_iff m).0 none_left in
        (
          simp none_left,
          elim (Bool-cases (not m.receiver_alive || m.senders == 0)) [
            | inl over ↦ inr (
                inr (
                  simp (none_left, over),
                  simp (none_left) empty,
                  simp none_left,
                  over_means m over,
                ))
            | inr open_still ↦
                let (alive, some_sender) = open_means m open_still in
                inr (
                  inl (
                    simp (none_left, open_still),
                    simp (none_left) empty,
                    simp none_left,
                    alive,
                    some_sender,
                  ))
          ],
        )
    | inr some_left ↦
        let stays : contents m ≢ [] = λ e. ground (arith, (is_empty_iff m).1 e) in
        (simp some_left, inl (simp some_left, simp (some_left) stays, simp some_left))
  ]

  settle-IsValid : (m : Mailbox T) → IsValid m → IsValid (settle m).0
  unfolding settle is_empty
  settle-IsValid m v = elim (Bool-cases (is_empty m)) [
    | inl none_left ↦ simp (none_left) (record {
      control_lane = v.control_lane;
      work_lane = v.work_lane;
      woken = inl none_left;
      open_or_empty = inr none_left;
    })
    | inr some_left ↦ simp (some_left) v
  ]

  settle_keeps :
      (m : Mailbox T) → ((settle m).0.limits ≡ m.limits) × ((settle m).0.senders ≡ m.senders)
  unfolding settle
  settle_keeps m = elim (Bool-cases (is_empty m)) [
    | inl none_left ↦ simp (none_left) (refl, refl)
    | inr some_left ↦ simp (some_left) (refl, refl)
  ]

  drained_lanes-is_empty :
      (m : Mailbox T) (limit : ℕ) → is_empty m ≡ true → is_empty (drained_lanes m limit) ≡ true
  unfolding is_empty
  drained_lanes-is_empty m limit h = ground (
    arith,
    length-drop (controls_of m limit) m.control.queue,
    length-drop (works_of m limit) m.work.queue,
  )

  drained_lanes-IsValid : (m : Mailbox T) (limit : ℕ) → IsValid m → IsValid (drained_lanes m limit)
  drained_lanes-IsValid m limit v = record {
    control_lane =
        lane_after-LaneValid m.limits.control (controls_of m limit) m.control v.control_lane;
    work_lane = lane_after-LaneValid m.limits.work (works_of m limit) m.work v.work_lane;
    woken = elim v.woken [
      | inl none_left ↦ inl (drained_lanes-is_empty m limit none_left)
      | inr made ↦ inr made
    ];
    open_or_empty = elim v.open_or_empty [
      | inl alive ↦ inl alive
      | inr none_left ↦ inr (drained_lanes-is_empty m limit none_left)
    ];
  }

  -- A drain of a valid mailbox does not panic. It appends to the destination the first items of
  -- the contents, control before work and each lane oldest first, as many as the limit allows;
  -- the rest stays, as do the limits and the senders, and the mailbox stays valid. The report counts the items, and its status says
  -- whether work stays, and if not whether more can come; the wake is acknowledged exactly then.
  pub drain_into_lem :
      (m : Mailbox T) (destination : List T) (limit : ℕ)
      → IsValid m
      → (m' : Mailbox T) × (report : DrainReport) × (drain_into m destination limit
          ≡ returns (m', destination ++ take limit (contents m), report))
        × (contents m' ≡ drop limit (contents m))
        × (report.drained ≡ min limit (length (contents m)))
        × Reports m m' report.status
        × IsValid m'
        × (m'.limits ≡ m.limits)
        × (m'.senders ≡ m.senders)
  unfolding drain_into
  drain_into_lem m destination limit v =
      let d = drained_lanes m limit in
      let (front, rest) = drained-contents m limit in
      let (same, reports) = settle-Reports d in
      let firsts = items_of (take (controls_of m limit) m.control.queue) in
      let seconds = items_of (take (works_of m limit) m.work.queue) in
      let first =
        lane_drain_into_lem (controls_of m limit) m.control.queue m.control.retained destination
          v.control_lane.exact in
      let second =
        lane_drain_into_lem (works_of m limit) m.work.queue m.work.retained (destination ++ firsts)
          v.work_lane.exact in
      let out : (destination ++ firsts) ++ seconds ≡ destination ++ take limit (contents m) =
        append_assoc destination firsts seconds ∙ ap (◌++◌ destination) front in
      let counted : length ((destination ++ firsts) ++ seconds) - length destination
          ≡ min limit (length (contents m)) =
        omega (
          arith,
          ap length out,
          length-append destination (take limit (contents m)),
          length-take limit (contents m),
        ) in
      (
        (settle d).0,
        record {
          drained = length ((destination ++ firsts) ++ seconds) - length destination;
          status = (settle d).1;
        },
        rw first (rw second (rw out)),
        same ∙ rest,
        counted,
        reports,
        settle-IsValid d (drained_lanes-IsValid m limit v),
        (settle_keeps d).0,
        (settle_keeps d).1,
      )
