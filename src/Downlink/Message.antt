-- ===== src/Downlink/Message.antt =====
-- internal/downlink/store.go, terminal.go, policy.go, capacity.go: the data of the downlink.
-- Strings and byte slices are lists of bytes, and a copy (`Clone`) is the value itself. A time is
-- the number of nanoseconds since Go's zero time, so `IsZero` is the test for 0. A duration or a
-- limit that the code tests by `<= 0` alone is 0 where the source has a negative number.
use z_courier.Base.{
  ℕ, suc, ◌+◌, ◌-◌, ℤ, pos, negsuc, ◌≡◌, ◌↔◌, Bool, true, false, [], Text, bytes, nat_eq, ltb,
  arith,
}

abbrev pub Time : Type 0
Time = ℕ

abbrev pub Duration : Type 0
Duration = ℕ

-- `t.Add(d)`. A time before Go's zero time is cut to it.
abbrev pub add_duration : Time → ℤ → Time
add_duration t (pos d) = t + d
add_duration t (negsuc d) = t - suc d

abbrev pub zero_time : Time
zero_time = 0

abbrev pub is_zero : Time → Bool
is_zero t = nat_eq t 0

-- `t.After(u)`
abbrev pub after : Time → Time → Bool
after t u = ltb u t

-- `unset` is the empty string, which `Save` replaces.
pub data MessageStatus : Type 0 where
  unset pending sent delivered failed discarded : MessageStatus

abbrev pub status_eq : MessageStatus → MessageStatus → Bool
status_eq unset unset = true
status_eq pending pending = true
status_eq sent sent = true
status_eq delivered delivered = true
status_eq failed failed = true
status_eq discarded discarded = true
status_eq _ _ = false

pub status_eq_iff : (a b : MessageStatus) → (status_eq a b ≡ true) ↔ (a ≡ b)
status_eq_iff a b = ground arith

abbrev pub status_name : MessageStatus → Text
status_name unset = bytes ""
status_name pending = bytes "pending"
status_name sent = bytes "sent"
status_name delivered = bytes "delivered"
status_name failed = bytes "failed"
status_name discarded = bytes "discarded"

-- `none` is the empty string.
pub data TerminalPublicationStatus : Type 0 where
  none disabled pending failed published : TerminalPublicationStatus

-- A float64 that is finite is a ratio of two numbers, the second positive.
pub data Multiplier : Type 0 where
  nan infinite : Multiplier
  ratio : ℤ → ℕ → Multiplier

pub record DeliveryPolicy : Type 0 where
  pub name : Text
  pub max_attempts : ℕ
  pub max_age : ℤ
  pub ack_timeout : Duration
  pub initial_retry_delay : Duration
  pub backoff_multiplier : Multiplier
  pub max_retry_delay : Duration
  pub retry_jitter : ℤ

abbrev pub default_delivery_policy_name : Text
default_delivery_policy_name = bytes "default"

pub record Message : Type 0 where
  pub message_id : Text
  pub client_id : Text
  pub device_id : Text
  pub msg_id : ℕ
  pub body : Text
  pub identity_fingerprint : Text
  pub ack_required : Bool
  pub trace_id : Text
  pub session_id : Text
  pub policy : DeliveryPolicy
  pub status : MessageStatus
  pub attempts : ℕ
  pub next_retry_at : Time
  pub last_error : Text
  pub terminal_reason : Text
  pub terminal_at : Time
  pub terminal_publish_status : TerminalPublicationStatus
  pub terminal_publish_attempts : ℕ
  pub terminal_next_publish_at : Time
  pub terminal_publish_error : Text
  pub terminal_published_at : Time
  pub claim_owner : Text
  pub claim_until : Time
  pub created_at : Time
  pub updated_at : Time
  pub sent_at : Time
  pub delivered_at : Time

-- The zero value of the struct, which a Go map gives for a key that it lacks.
abbrev pub zero_message : Message
zero_message = record {
  message_id = [];
  client_id = [];
  device_id = [];
  msg_id = 0;
  body = [];
  identity_fingerprint = [];
  ack_required = false;
  trace_id = [];
  session_id = [];
  policy = record {
    name = [];
    max_attempts = 0;
    max_age = pos 0;
    ack_timeout = 0;
    initial_retry_delay = 0;
    backoff_multiplier = ratio (pos 0) 1;
    max_retry_delay = 0;
    retry_jitter = pos 0;
  };
  status = unset;
  attempts = 0;
  next_retry_at = 0;
  last_error = [];
  terminal_reason = [];
  terminal_at = 0;
  terminal_publish_status = TerminalPublicationStatus.none;
  terminal_publish_attempts = 0;
  terminal_next_publish_at = 0;
  terminal_publish_error = [];
  terminal_published_at = 0;
  claim_owner = [];
  claim_until = 0;
  created_at = 0;
  updated_at = 0;
  sent_at = 0;
  delivered_at = 0;
}

pub record TerminalEvent : Type 0 where
  pub version : ℕ
  pub type : Text
  pub event_id : Text
  pub message_id : Text
  pub client_id : Text
  pub device_id : Text
  pub msg_id : ℕ
  pub trace_id : Text
  pub terminal_status : MessageStatus
  pub terminal_reason : Text
  pub policy_name : Text
  pub attempts : ℕ
  pub message_created : Time
  pub terminal_at : Time
  pub gateway_node : Text

pub record TerminalRecord : Type 0 where
  pub event : TerminalEvent
  pub status : TerminalPublicationStatus
  pub publish_attempts : ℕ
  pub next_attempt_at : Time
  pub last_error : Text
  pub published_at : Time
  pub claim_owner : Text
  pub claim_until : Time

pub record TerminalTransition : Type 0 where
  pub reason : Text
  pub gateway_node : Text
  pub at : Time
  pub attempted : Bool
  pub publish : Bool

pub record QueueCapacity : Type 0 where
  pub max_pending_global : ℕ
  pub max_pending_per_device : ℕ
