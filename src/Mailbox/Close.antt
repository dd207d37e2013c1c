-- ===== src/Mailbox/Close.antt =====
-- The receiver's close, which hands everything back.
use calandria.Prelude.{◌≡◌, refl, false, [], length, arith, inl, inr, returns}
use calandria.Prelude.{take-length, drop-length}
use calandria.Mailbox.{Mailbox, new_lane, lane_drain_all, close, is_empty}
use calandria.Mailbox.Invariant.{IsValid, items_of, lane_drain_into_lem}
use calandria.Mailbox.Drain.{contents}

module _ {ℓ} {T : Type ℓ} where
  -- Closing a valid mailbox does not panic, and hands out everything queued in drain order. The
  -- closed mailbox has no receiver, is empty and valid, and has no wake requested; its limits and
  -- senders are as they were.
  pub close_lem :
      (m : Mailbox T)
      → IsValid m
      → (m' : Mailbox T) × (close m ≡ returns (m', contents m))
        × (contents m' ≡ [])
        × (m'.receiver_alive ≡ false)
        × (m'.wake_requested ≡ false)
        × IsValid m'
        × (m'.limits ≡ m.limits)
        × (m'.senders ≡ m.senders)
  unfolding close lane_drain_all is_empty
  close_lem m v =
      let first =
        lane_drain_into_lem (length m.control.queue) m.control.queue m.control.retained []
          v.control_lane.exact in
      let second =
        lane_drain_into_lem (length m.work.queue) m.work.queue m.work.retained
          (items_of m.control.queue) v.work_lane.exact in
      let c = drop-length m.control.queue in
      let w = drop-length m.work.queue in
      (
        record m {
          receiver_alive = false;
          wake_requested = false;
          control = new_lane;
          work = new_lane;
        },
        rw (first, take-length, c) (rw (second, take-length, w)),
        refl,
        refl,
        refl,
        record {
          control_lane = omega arith;
          work_lane = omega arith;
          woken = inl refl;
          open_or_empty = inr refl;
        },
        refl,
        refl,
      )
