-- ===== src/Downlink/Retention.antt =====
-- internal/downlink/memory_store.go: `DeleteExpired`.
use z_courier.Base.{
  ℕ, Bool, ◌&&◌, not, List, [], ◌∷◌, Text, text_eq, text_lt, text_Eq, delete, values, filter, take,
  sort, any, length, nat_eq, ltb, if◌then◌else◌,
}
use z_courier.Downlink.Message.{Message, Time, MessageStatus, failed, discarded, status_eq, is_zero}
use z_courier.Downlink.Store.{Context, Result, ok, MemoryStore, with_context}
use z_courier.Downlink.Terminal.{terminal_event_id}
use z_courier.Downlink.Outbox.{is_unpublished, or_default}

abbrev pub retention_time : Message → Time
retention_time m = if not (is_zero m.updated_at) then m.updated_at else m.created_at

unfoldable pub has_unpublished_terminal_event : Text → MemoryStore → Bool
has_unpublished_terminal_event id s =
    any (λ r. text_eq r.event.message_id id && is_unpublished r) (values s.terminal_events)

-- The tests of the loop that gathers what may be deleted.
unfoldable pub expired : MessageStatus → Time → MemoryStore → Message → Bool
expired status before s m =
    status_eq m.status status
    && (not (has_unpublished_terminal_event m.message_id s)
        && (not (is_zero (retention_time m)) && ltb (retention_time m) before))

unfoldable pub retained_before : Message → Message → Bool
retained_before left right =
    if nat_eq (retention_time left) (retention_time right)
    then text_lt left.message_id right.message_id
    else ltb (retention_time left) (retention_time right)

unfoldable pub delete_message : Text → MemoryStore → MemoryStore
delete_message id s = record {
  messages = delete id s.messages;
  terminal_events =
      delete (terminal_event_id id discarded)
        (delete (terminal_event_id id failed) s.terminal_events);
}

unfoldable pub delete_messages : List Message → MemoryStore → MemoryStore
delete_messages [] s = s
delete_messages (m ∷ ms) s = delete_messages ms (delete_message m.message_id s)

unfoldable pub expired_batch : MessageStatus → Time → ℕ → MemoryStore → List Message
expired_batch status before limit s =
    let n = or_default limit 1000 in
    let sorted = sort retained_before (filter (expired status before s) (values s.messages)) in
    if ltb n (length sorted) then take n sorted else sorted

unfoldable pub delete_expired :
    Context → MessageStatus → Time → ℕ → MemoryStore → MemoryStore × Result ℕ
delete_expired ctx status before limit s =
    let batch = expired_batch status before limit s in
    with_context ctx s
      (if is_zero before then (s, ok 0) else (delete_messages batch s, ok (length batch)))
