-- ===== src/Downlink/Marks.antt =====
-- internal/downlink/memory_store.go: the methods that move one message along its life cycle and
-- write no terminal event: `MarkSent`, `MarkDelivered`, `MarkAttemptFailed`, `RequeueWithCapacity`.
use z_courier.Base.{◌+◌, Bool, ◌||◌, not, none, some, [], Text, text_eq, if◌then◌else◌, text_Eq}
use z_courier.Downlink.Message
use z_courier.Downlink.Message.{
  Message, Time, MessageStatus, pending, sent, delivered, discarded, status_eq, is_zero, zero_time,
  QueueCapacity,
}
use z_courier.Downlink.Store.{
  Context, Result, ok, err, message_not_found, MemoryStore, with_message, put_message, is_pending,
  check_queue_capacity,
}

-- `Delivered` and `Discarded` are left alone by the marks of an attempt.
abbrev pub is_settled : Message → Bool
is_settled m = status_eq m.status delivered || status_eq m.status discarded

abbrev pub or_now : Time → Time → Time
or_now t now = if is_zero t then now else t

unfoldable pub sent_message : Text → Time → Time → Time → Message → Message
sent_message session_id sent_at next_retry_at now m = record m {
  session_id = session_id;
  status = sent;
  attempts = m.attempts + 1;
  last_error = [];
  next_retry_at = next_retry_at;
  claim_owner = [];
  claim_until = zero_time;
  sent_at = sent_at;
  updated_at = now;
}

unfoldable pub mark_sent :
    Context → Time → Text → Text → Time → Time → MemoryStore → MemoryStore × Result (Unit {0})
mark_sent ctx now id session_id sent_at next_retry_at s = with_message ctx id s λ m.
    if is_settled m then (s, ok tt) else (
      put_message id (sent_message session_id (or_now sent_at now) next_retry_at now m) s,
      ok tt,
    )

unfoldable pub delivered_message : Time → Message → Message
delivered_message delivered_at m = record m {
  status = delivered;
  last_error = [];
  next_retry_at = zero_time;
  claim_owner = [];
  claim_until = zero_time;
  delivered_at = delivered_at;
  updated_at = delivered_at;
}

unfoldable pub mark_delivered :
    Context → Time → Text → Text → Text → Time → MemoryStore → MemoryStore × Result (Unit {0})
mark_delivered ctx now id client_id device_id delivered_at s = with_message ctx id s λ m.
    if not (text_eq m.client_id client_id) || not (text_eq m.device_id device_id)
    then (s, err message_not_found)
    else (put_message id (delivered_message (or_now delivered_at now) m) s, ok tt)

unfoldable pub retried_message : Text → Time → Time → Message → Message
retried_message reason next_retry_at now m = record m {
  status = pending;
  attempts = m.attempts + 1;
  last_error = reason;
  next_retry_at = next_retry_at;
  claim_owner = [];
  claim_until = zero_time;
  updated_at = now;
}

unfoldable pub mark_attempt_failed :
    Context → Time → Text → Text → Time → MemoryStore → MemoryStore × Result (Unit {0})
mark_attempt_failed ctx now id reason next_retry_at s = with_message ctx id s λ m.
    if is_settled m
    then (s, ok tt)
    else (put_message id (retried_message reason next_retry_at now m) s, ok tt)

unfoldable pub requeued_message : Time → Message → Message
requeued_message requeued_at m = record m {
  status = pending;
  attempts = 0;
  last_error = [];
  next_retry_at = zero_time;
  claim_owner = [];
  claim_until = zero_time;
  session_id = [];
  sent_at = zero_time;
  delivered_at = zero_time;
  terminal_reason = [];
  terminal_at = zero_time;
  terminal_publish_status = Message.TerminalPublicationStatus.none;
  terminal_publish_attempts = 0;
  terminal_next_publish_at = zero_time;
  terminal_publish_error = [];
  terminal_published_at = zero_time;
  updated_at = requeued_at;
}

unfoldable pub requeue_with_capacity :
    Context → Time → Text → Time → QueueCapacity → MemoryStore → MemoryStore × Result (Unit {0})
requeue_with_capacity ctx now id requeued_at c s = with_message ctx id s λ m.
    elim (if is_pending m then none else check_queue_capacity m.client_id m.device_id c s) [
      | some e ↦ (s, err e)
      | none ↦ (put_message id (requeued_message (or_now requeued_at now) m) s, ok tt)
    ]

-- `Requeue`, with no limit.
unfoldable pub requeue :
    Context → Time → Text → Time → MemoryStore → MemoryStore × Result (Unit {0})
requeue ctx now id requeued_at =
    requeue_with_capacity ctx now id requeued_at
      (record { max_pending_global = 0; max_pending_per_device = 0 })
