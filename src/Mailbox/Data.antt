-- ===== src/Mailbox/Data.antt =====
-- crates/calandria/src/mailbox/config.rs, error.rs, snapshot.rs and shared.rs: the data of a mailbox
-- and its saturating counters.
use calandria.Prelude.{ℕ, Bool, List}
use calandria.Words.{saturating_add}
use calandria.Retained.{RetainedBytes}

pub data Lane : Type 0 where
  control work : Lane

pub record LaneLimits : Type 0 where
  pub messages : ℕ
  pub retained_bytes : RetainedBytes

pub record MailboxLimits : Type 0 where
  pub control : LaneLimits
  pub work : LaneLimits

pub record Entry {ℓ} (T : Type ℓ) : Type ℓ where
  pub item : T
  pub retained : RetainedBytes

pub record LaneState {ℓ} (T : Type ℓ) : Type ℓ where
  pub queue : List (Entry T)
  pub retained : RetainedBytes

pub record LaneCounters : Type 0 where
  pub messages : ℕ
  pub bytes : ℕ

pub record Counters : Type 0 where
  pub control : LaneCounters
  pub work : LaneCounters
  pub closed : ℕ
  pub wake_failures : ℕ

-- `Shared`, with the fields of `State`.
pub record Mailbox {ℓ} (T : Type ℓ) : Type ℓ where
  pub limits : MailboxLimits
  pub measure : T → RetainedBytes
  pub control : LaneState T
  pub work : LaneState T
  pub receiver_alive : Bool
  pub senders : ℕ
  pub counters : Counters
  pub wake_requested : Bool

pub data AdmissionFailure {ℓ} (E : Type ℓ) : Type ℓ where
  message_capacity : AdmissionFailure E
  byte_capacity : AdmissionFailure E
  closed : AdmissionFailure E
  wake_failed : E → AdmissionFailure E

pub record TrySendError {ℓ} (U : Type ℓ) (E : Type ℓ) : Type ℓ where
  pub item : U
  pub lane : Lane
  pub failure : AdmissionFailure E

pub data DrainStatus : Type 0 where
  idle more_pending closed : DrainStatus

pub record DrainReport : Type 0 where
  pub drained : ℕ
  pub status : DrainStatus

pub record LaneSnapshot : Type 0 where
  pub limits : LaneLimits
  pub queued_messages : ℕ
  pub retained_bytes : RetainedBytes
  pub message_rejections : ℕ
  pub byte_rejections : ℕ

pub record MailboxSnapshot : Type 0 where
  pub control : LaneSnapshot
  pub work : LaneSnapshot
  pub live_senders : ℕ
  pub receiver_alive : Bool
  pub closed_rejections : ℕ
  pub wake_failures : ℕ
  pub wake_requested : Bool

-- `MailboxLimits::lane` and `Counters::lane`
abbrev pub lane_limits : MailboxLimits → Lane → LaneLimits
lane_limits limits control = limits.control
lane_limits limits work = limits.work

abbrev pub lane_counters : Counters → Lane → LaneCounters
lane_counters counters control = counters.control
lane_counters counters work = counters.work

abbrev pub with_counters : Counters → Lane → LaneCounters → Counters
with_counters counters control c = record counters { control = c }
with_counters counters work c = record counters { work = c }

-- `increment` and the counters' methods, saturating
abbrev pub increment : ℕ → ℕ
increment value = saturating_add value 1

abbrev pub increment_messages : Counters → Lane → Counters
increment_messages counters lane =
    let c = lane_counters counters lane in
    with_counters counters lane (record c { messages = increment c.messages })

abbrev pub increment_bytes : Counters → Lane → Counters
increment_bytes counters lane =
    let c = lane_counters counters lane in
    with_counters counters lane (record c { bytes = increment c.bytes })

abbrev pub increment_closed : Counters → Counters
increment_closed counters = record counters { closed = increment counters.closed }

abbrev pub increment_wake_failures : Counters → Counters
increment_wake_failures counters = record counters {
  wake_failures = increment counters.wake_failures;
}

abbrev pub new_counters : Counters
new_counters = record {
  control = record { messages = 0; bytes = 0 };
  work = record { messages = 0; bytes = 0 };
  closed = 0;
  wake_failures = 0;
}
