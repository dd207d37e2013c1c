-- ===== src/Mailbox.antt =====
-- crates/calandria/src/mailbox: a two-lane mailbox behind one lock.
-- Each operation runs under the lock from end to end, so it is one function on the shared state.
-- The wake handle is that of Wake/Alone: `wake_requested` says whether a wake is requested, and the
-- answer of the backend is an argument of the operations that may call it.
pub mod Data
pub use Data.*
pub mod Invariant
pub mod Send
pub mod Drain
pub mod Close
pub mod History
pub mod Closed
mod Tests
use calandria.Prelude.{
  ℕ, zero, suc, ◌+◌, ◌-◌, min, Option, none, some, Bool, true, false, not, ◌&&◌, ◌||◌, List, [],
  ◌∷◌, ◌++◌, length, leb, ltb, ◌==◌, if◌then◌else◌, Result, ok, err, Outcome, returns, panics,
  ◌>>=◌,
}
use calandria.Words.{saturating_add, or_panic}
use calandria.Words
use calandria.Retained.{RetainedBytes, zero_bytes, checked_add, subtract_retained}
use calandria.Wake.Alone.{wake}

module _ {ℓ} {T : Type ℓ} where
  abbrev pub new_lane : LaneState T
  new_lane = record { queue = []; retained = zero_bytes }

  pub mailbox_with : MailboxLimits → (T → RetainedBytes) → Mailbox T
  mailbox_with limits measure = record {
    limits = limits;
    measure = measure;
    control = new_lane;
    work = new_lane;
    receiver_alive = true;
    senders = 1;
    counters = new_counters;
    wake_requested = false;
  }

  -- `State::lane` and `State::lane_mut`
  abbrev pub lane_state : Mailbox T → Lane → LaneState T
  lane_state m control = m.control
  lane_state m work = m.work

  abbrev pub with_lane : Mailbox T → Lane → LaneState T → Mailbox T
  with_lane m control l = record m { control = l }
  with_lane m work l = record m { work = l }

  pub is_empty : Mailbox T → Bool
  is_empty m = (length m.control.queue == 0) && (length m.work.queue == 0)

  -- `LaneState::admit`
  abbrev pub lane_admit : LaneState T → T → RetainedBytes → RetainedBytes → LaneState T
  lane_admit l item retained next_bytes = record {
    queue = l.queue ++ (record { item = item; retained = retained } ∷ []);
    retained = next_bytes;
  }

  -- `LaneState::drain_into`, a loop of `count` rounds that an empty queue ends.
  pub lane_drain_into : ℕ → LaneState T → List T → Outcome (LaneState T × List T)
  lane_drain_into zero l destination = returns (l, destination)
  lane_drain_into (suc count) l destination = elim l.queue [
    | [] ↦ returns (l, destination)
    | entry ∷ rest ↦ subtract_retained l.retained entry.retained >>= λ retained.
        lane_drain_into count (record { queue = rest; retained = retained })
          (destination ++ (entry.item ∷ []))
  ]

  pub lane_drain_all : LaneState T → List T → Outcome (LaneState T × List T)
  unfolding lane_drain_into
  lane_drain_all l destination = lane_drain_into (length l.queue) l destination

  -- The part of `try_send_materialized` behind the wake.
  publish :
      {U E : Type ℓ}
      → Mailbox T
      → Lane
      → U
      → RetainedBytes
      → RetainedBytes
      → (U → T)
      → Bool × Result (Unit {0}) E
      → Mailbox T × Result (Unit {0}) (TrySendError U E)
  publish m lane owner retained next_bytes materialize (requested, err source) = (
    record m { counters = increment_wake_failures m.counters; wake_requested = requested },
    err (record { item = owner; lane = lane; failure = wake_failed source }),
  )
  publish m lane owner retained next_bytes materialize (requested, ok _) = (
    with_lane (record m { wake_requested = requested }) lane
        (lane_admit (lane_state m lane) (materialize owner) retained next_bytes),
    ok tt,
  )

  -- A refusal that counts itself.
  abbrev refuse :
      {U E : Type ℓ}
      → Mailbox T
      → Counters
      → Lane
      → U
      → AdmissionFailure E
      → Mailbox T × Result (Unit {0}) (TrySendError U E)
  refuse m counters lane owner failure = (
    record m { counters = counters },
    err (record { item = owner; lane = lane; failure = failure }),
  )

  pub try_send_materialized :
      {U E : Type ℓ}
      → Mailbox T
      → Lane
      → U
      → (U → RetainedBytes)
      → (U → T)
      → Result (Unit {0}) E
      → Mailbox T × Result (Unit {0}) (TrySendError U E)
  unfolding publish wake
  try_send_materialized m lane owner retained_bytes materialize answer =
      let retained = retained_bytes owner in
      let limits = lane_limits m.limits lane in
      let l = lane_state m lane in
      if m.receiver_alive
      then if leb limits.messages (length l.queue)
        then refuse m (increment_messages m.counters lane) lane owner message_capacity
        else elim (checked_add l.retained retained) [
          | none ↦ refuse m (increment_bytes m.counters lane) lane owner byte_capacity
          | some next_bytes ↦
              if ltb limits.retained_bytes next_bytes
              then refuse m (increment_bytes m.counters lane) lane owner byte_capacity
              else publish m lane owner retained next_bytes materialize
                  (wake m.wake_requested answer)
        ]
      else refuse m (increment_closed m.counters) lane owner closed

  pub try_send_to :
      {E : Type ℓ}
      → Mailbox T
      → Lane
      → T
      → Result (Unit {0}) E
      → Mailbox T × Result (Unit {0}) (TrySendError T E)
  unfolding try_send_materialized
  try_send_to m lane item answer = try_send_materialized m lane item m.measure (λ x. x) answer

  -- `Clone` and `Drop` of the sender.
  pub clone_sender : Mailbox T → Outcome (Mailbox T)
  clone_sender m = or_panic (Words.checked_add m.senders 1) >>= λ senders.
      returns (record m { senders = senders })

  -- The wake of the last sender that goes, while the receiver lives.
  abbrev pub wake_last : {E : Type ℓ} → Mailbox T → Bool × Result (Unit {0}) E → Mailbox T
  wake_last m (requested, ok _) = record m { wake_requested = requested; senders = 0 }
  wake_last m (requested, err _) = record m {
    wake_requested = requested;
    counters = increment_wake_failures m.counters;
    senders = 0;
  }

  pub drop_sender : {E : Type ℓ} → Mailbox T → Result (Unit {0}) E → Mailbox T
  unfolding wake
  drop_sender m answer =
      if m.senders == 0
      then m
      else if (m.senders == 1) && m.receiver_alive
      then wake_last m (wake m.wake_requested answer)
      else record m { senders = m.senders - 1 }

  -- The status that `MailboxReceiver::drain_into` reports, with the acknowledgement.
  settle : Mailbox T → Mailbox T × DrainStatus
  unfolding is_empty
  settle m =
      if is_empty m
      then (
        record m { wake_requested = false },
        if not m.receiver_alive || m.senders == 0 then closed else idle,
      )
      else (m, more_pending)

  pub drain_into : Mailbox T → List T → ℕ → Outcome (Mailbox T × List T × DrainReport)
  unfolding lane_drain_into settle
  drain_into m destination limit =
      let before = length destination in
      let controls = min limit (length m.control.queue) in
      let work_count = min (limit - controls) (length m.work.queue) in
      lane_drain_into controls m.control destination >>= λ c.
      lane_drain_into work_count m.work c.1 >>= λ w.
      let settled = settle (record m { control = c.0; work = w.0 }) in
      returns (settled.0, w.1, record { drained = length w.1 - before; status = settled.1 })

  pub close : Mailbox T → Outcome (Mailbox T × List T)
  unfolding lane_drain_all
  close m = lane_drain_all m.control [] >>= λ c. lane_drain_all m.work c.1 >>= λ w.
      returns (
        record m { receiver_alive = false; wake_requested = false; control = c.0; work = w.0 },
        w.1,
      )

  -- `Shared::lane_snapshot` and `Shared::snapshot`
  pub lane_snapshot : Mailbox T → Lane → LaneSnapshot
  lane_snapshot m lane = record {
    limits = lane_limits m.limits lane;
    queued_messages = length (lane_state m lane).queue;
    retained_bytes = (lane_state m lane).retained;
    message_rejections = (lane_counters m.counters lane).messages;
    byte_rejections = (lane_counters m.counters lane).bytes;
  }

  pub snapshot : Mailbox T → MailboxSnapshot
  unfolding lane_snapshot
  snapshot m = record {
    control = lane_snapshot m control;
    work = lane_snapshot m work;
    live_senders = m.senders;
    receiver_alive = m.receiver_alive;
    closed_rejections = m.counters.closed;
    wake_failures = m.counters.wake_failures;
    wake_requested = m.wake_requested;
  }
