-- ===== src/Mailbox/Invariant.antt =====
-- What a mailbox keeps true: the bounds and the accounting of both lanes, and that queued work is
-- never left without a wake.
use calandria.Prelude.{
  ℕ, zero, suc, ◌-◌, ◌≤◌, ◌≡◌, refl, true, List, [], ◌∷◌, ◌++◌, map, take, drop, length,
  length-drop, sum_by, append_assoc, append-nil, arith, ◌⊎◌, inl, returns,
}
use calandria.Mailbox.{
  Mailbox, MailboxLimits, LaneLimits, LaneState, Entry, lane_drain_into, is_empty, mailbox_with,
}

module _ {ℓ} {T : Type ℓ} where
  abbrev pub bytes_of : List (Entry T) → ℕ
  bytes_of = sum_by (λ entry. entry.retained)

  abbrev pub items_of : List (Entry T) → List T
  items_of = map (λ entry. entry.item)

  pub record LaneValid (limits : LaneLimits) (l : LaneState T) : Type ℓ where
    pub counted : length l.queue ≤ limits.messages
    pub exact : l.retained ≡ bytes_of l.queue
    pub within : l.retained ≤ limits.retained_bytes

  pub record IsValid (m : Mailbox T) : Type ℓ where
    pub control_lane : LaneValid m.limits.control m.control
    pub work_lane : LaneValid m.limits.work m.work
    pub woken : (is_empty m ≡ true) ⊎ (m.wake_requested ≡ true)
    pub open_or_empty : (m.receiver_alive ≡ true) ⊎ (is_empty m ≡ true)

  -- A lane without its first `count` entries.
  abbrev pub lane_after : ℕ → LaneState T → LaneState T
  lane_after count l = record {
    queue = drop count l.queue;
    retained = bytes_of (drop count l.queue);
  }

  drop-zero : (l : LaneState T) → l.retained ≡ bytes_of l.queue → lane_after 0 l ≡ l
  drop-zero l e = ground (arith, e)

  -- A drain of an exact lane does not panic, takes the first entries in order, and stays exact.
  pub lane_drain_into_lem :
      (count : ℕ) (queue : List (Entry T)) (retained : ℕ) (destination : List T)
      → retained ≡ bytes_of queue
      → let l : LaneState T = record { queue = queue; retained = retained } in
        lane_drain_into count l destination
        ≡ returns (lane_after count l, destination ++ items_of (take count queue))
  unfolding lane_drain_into
  lane_drain_into_lem zero queue retained destination e = ground (arith, e, append-nil destination)
  lane_drain_into_lem (suc count) [] retained destination e =
      ground (arith, e, append-nil destination)
  lane_drain_into_lem (suc count) (entry ∷ rest) retained destination e = ground (
    arith,
    e,
    lane_drain_into_lem count rest (retained - entry.retained) (destination ++ (entry.item ∷ []))
        (omega arith),
    append_assoc destination (entry.item ∷ []) (items_of (take count rest)),
  )

  bytes_of-drop :
      (count : ℕ) (queue : List (Entry T)) → bytes_of (drop count queue) ≤ bytes_of queue
  bytes_of-drop zero queue = omega arith
  bytes_of-drop (suc count) [] = omega arith
  bytes_of-drop (suc count) (entry ∷ rest) = omega (arith, bytes_of-drop count rest)

  pub lane_after-LaneValid :
      (limits : LaneLimits) (count : ℕ) (l : LaneState T)
      → LaneValid limits l
      → LaneValid limits (lane_after count l)
  lane_after-LaneValid limits count l v = record {
    counted = omega (arith, length-drop count l.queue, v.counted);
    exact = refl;
    within = omega (arith, bytes_of-drop count l.queue, v.exact, v.within);
  }

  pub mailbox_with-IsValid :
      (limits : MailboxLimits) (measure : T → ℕ) → IsValid (mailbox_with limits measure)
  unfolding mailbox_with is_empty
  mailbox_with-IsValid limits measure = record {
    control_lane = omega arith;
    work_lane = omega arith;
    woken = inl refl;
    open_or_empty = inl refl;
  }
