-- ===== src/Downlink/Terminal.antt =====
-- internal/downlink/terminal.go and memory_store.go: terminal states and the outbox of terminal
-- events: `MarkFailed`, `Discard`, `ClaimDueTerminal`, `MarkTerminalPublished`,
-- `MarkTerminalPublishFailed`.
use z_courier.Base.{
  ◌+◌, Bool, ◌||◌, not, none, some, [], ◌∷◌, ◌++◌, Text, bytes, lookup, insert, is_empty,
  if◌then◌else◌, text_Eq,
}
use z_courier.Downlink.Message.{
  Message, Time, MessageStatus, failed, discarded, status_eq, status_name, zero_time, TerminalEvent,
  TerminalRecord, TerminalTransition, default_delivery_policy_name, TerminalPublicationStatus,
}
use z_courier.Downlink.Store.{Context, Result, ok, MemoryStore, with_message, put_message}
use z_courier.Downlink.Marks.{is_settled, or_now}

-- `fmt.Sprintf("%s:%s", messageID, status)`
unfoldable pub terminal_event_id : Text → MessageStatus → Text
terminal_event_id id status = id ++ (b':' ∷ status_name status)

abbrev pub terminal_publication_status : Bool → TerminalPublicationStatus
terminal_publication_status publish =
    if publish then TerminalPublicationStatus.pending else TerminalPublicationStatus.disabled

unfoldable pub new_terminal_event : Message → MessageStatus → TerminalTransition → TerminalEvent
new_terminal_event m status t = record {
  version = 1;
  type = bytes "z_courier.downlink.terminal";
  event_id = terminal_event_id m.message_id status;
  message_id = m.message_id;
  client_id = m.client_id;
  device_id = m.device_id;
  msg_id = m.msg_id;
  trace_id = m.trace_id;
  terminal_status = status;
  terminal_reason = t.reason;
  policy_name = if is_empty m.policy.name then default_delivery_policy_name else m.policy.name;
  attempts = m.attempts;
  message_created = m.created_at;
  terminal_at = t.at;
  gateway_node = t.gateway_node;
}

unfoldable pub apply_terminal_record : Message → TerminalRecord → Message
apply_terminal_record m r = record m {
  terminal_publish_status = r.status;
  terminal_publish_attempts = r.publish_attempts;
  terminal_next_publish_at = r.next_attempt_at;
  terminal_publish_error = r.last_error;
  terminal_published_at = r.published_at;
}

-- `TerminalRecord{Event: event, Status: TerminalPublicationPending}`
unfoldable pub pending_record : TerminalEvent → TerminalRecord
pending_record event = record {
  event = event;
  status = TerminalPublicationStatus.pending;
  publish_attempts = 0;
  next_attempt_at = zero_time;
  last_error = [];
  published_at = zero_time;
  claim_owner = [];
  claim_until = zero_time;
}

-- The block under `if firstTransition`, but for the outbox.
unfoldable pub first_transition : TerminalTransition → Message → Message
first_transition t m = record m {
  terminal_reason = t.reason;
  terminal_at = t.at;
  terminal_publish_status = terminal_publication_status t.publish;
  terminal_publish_attempts = 0;
  terminal_next_publish_at = zero_time;
  terminal_publish_error = [];
  terminal_published_at = zero_time;
}

-- The block under `if transition.Publish` and the write of the message. The outbox gets a record
-- only if it has none of that id.
unfoldable pub publish_event :
    Text → MessageStatus → TerminalTransition → Message → MemoryStore → MemoryStore
publish_event id status t m s =
    let event = new_terminal_event m status t in
    let r = pending_record event in
    elim (lookup event.event_id s.terminal_events) [
      | some old ↦ put_message id (apply_terminal_record m old) s
      | none ↦
          put_message id (apply_terminal_record m r)
            (record s { terminal_events = insert event.event_id r s.terminal_events })
    ]

-- What both terminal methods do with the message whose other fields are set already.
unfoldable pub settle :
    Text → Bool → MessageStatus → TerminalTransition → Message → MemoryStore → MemoryStore
settle id first status t m s =
    if not first
    then put_message id m s
    else if t.publish
    then publish_event id status t (first_transition t m) s
    else put_message id (first_transition t m) s

unfoldable pub failed_message : TerminalTransition → Message → Message
failed_message t m = record m {
  status = failed;
  attempts = if t.attempted then m.attempts + 1 else m.attempts;
  last_error = t.reason;
  next_retry_at = zero_time;
  claim_owner = [];
  claim_until = zero_time;
  updated_at = t.at;
}

abbrev pub at_or_now : Time → TerminalTransition → TerminalTransition
at_or_now now t = record t { at = or_now t.at now }

abbrev pub is_first : MessageStatus → Message → Bool
is_first status m = not (status_eq m.status status) || is_empty m.terminal_reason

unfoldable pub mark_failed :
    Context → Time → Text → TerminalTransition → MemoryStore → MemoryStore × Result (Unit {0})
mark_failed ctx now id transition s =
    let t = at_or_now now transition in
    with_message ctx id s λ m.
      if is_settled m
      then (s, ok tt)
      else (settle id (is_first failed m) failed t (failed_message t m) s, ok tt)

abbrev pub terminal_reason_operator_discard : Text
terminal_reason_operator_discard = bytes "operator_discarded"

unfoldable pub discarded_message : Text → TerminalTransition → Message → Message
discarded_message reason t m = record m {
  status = discarded;
  last_error = reason;
  next_retry_at = zero_time;
  claim_owner = [];
  claim_until = zero_time;
  updated_at = t.at;
}

abbrev pub discard_transition : Time → TerminalTransition → TerminalTransition
discard_transition now t = record t {
  at = or_now t.at now;
  reason = if is_empty t.reason then terminal_reason_operator_discard else t.reason;
}

unfoldable pub discard :
    Context
    → Time
    → Text
    → Text
    → TerminalTransition
    → MemoryStore
    → MemoryStore × Result (Unit {0})
discard ctx now id reason transition s =
    let t = discard_transition now transition in
    with_message ctx id s
      λ m. (settle id (is_first discarded m) discarded t (discarded_message reason t m) s, ok tt)
