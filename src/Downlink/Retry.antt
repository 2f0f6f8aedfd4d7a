-- ===== src/Downlink/Retry.antt =====
-- internal/downlink/memory_store.go: which messages are due, and the claims on them:
-- `ListDueRetry`, `ListDueRetryFair`, `ClaimDueRetryFair`, `ListPendingByClientDevice`.
use z_courier.Base.{
  ℕ, ◌+◌, Bool, false, ◌&&◌, ◌||◌, not, none, some, List, [], ◌∷◌, Text, text_lt, text_Eq, lookup,
  insert, values, filter, take, sort, length, nat_eq, ltb, is_empty, if◌then◌else◌,
}
use z_courier.Downlink.Message.{
  Message, Time, Duration, MessageStatus, pending, sent, is_zero, after, zero_message,
}
use z_courier.Downlink.Store.{
  Context, context, Result, ok, err, MemoryStore, with_context, is_pending_for,
}
use z_courier.Downlink.Marks.{or_now}
use z_courier.Downlink.Outbox.{or_default, default_lease}
use z_courier.Downlink.Fairness.{
  RetrySelection, fair_retry_selection, normalize_limit, normalize_candidate_limit,
}

unfoldable pub claim_active : Message → Time → Bool
claim_active m now = not (is_zero m.claim_until) && after m.claim_until now

-- The `switch` of `messageDueForRetry`, by status.
abbrev pub due_by_status : MessageStatus → Message → Time → Duration → Bool
due_by_status pending m now ack_timeout = is_zero m.next_retry_at || not (after m.next_retry_at now)
due_by_status sent m now ack_timeout =
    if not m.ack_required
    then false
    else if not (is_zero m.next_retry_at)
    then not (after m.next_retry_at now)
    else if nat_eq ack_timeout 0 || is_zero m.sent_at
    then false
    else not (after (m.sent_at + ack_timeout) now)
due_by_status _ m now ack_timeout = false

unfoldable pub message_due_for_retry : Message → Time → Duration → Bool
message_due_for_retry m now ack_timeout =
    if claim_active m now then false else due_by_status m.status m now ack_timeout

unfoldable pub created_before : Message → Message → Bool
created_before left right =
    if nat_eq left.created_at right.created_at
    then text_lt left.message_id right.message_id
    else ltb left.created_at right.created_at

-- Oldest first; no limit if it is 0.
unfoldable pub limit_messages : List Message → ℕ → List Message
limit_messages ms limit =
    let sorted = sort created_before ms in
    if ltb 0 limit && ltb limit (length sorted) then take limit sorted else sorted

unfoldable pub retry_candidates : Time → Duration → MemoryStore → List Message
retry_candidates now ack_timeout s =
    filter (λ m. message_due_for_retry m now ack_timeout) (values s.messages)

unfoldable pub list_due_retry :
    Context → Time → Time → Duration → ℕ → MemoryStore → Result (List Message)
list_due_retry ctx clock now ack_timeout limit s = elim ctx [
  | some e ↦ err (context e)
  | none ↦ ok (limit_messages (retry_candidates (or_now now clock) ack_timeout s) limit)
]

-- The batch that both fair methods choose.
unfoldable pub fair_batch : Time → Duration → ℕ → ℕ → MemoryStore → RetrySelection
fair_batch now ack_timeout limit candidate_limit s =
    fair_retry_selection
      (limit_messages (retry_candidates now ack_timeout s)
        (normalize_candidate_limit limit candidate_limit))
      (normalize_limit limit)

unfoldable pub list_due_retry_fair :
    Context → Time → Time → Duration → ℕ → ℕ → MemoryStore → Result RetrySelection
list_due_retry_fair ctx clock now ack_timeout limit candidate_limit s = elim ctx [
  | some e ↦ err (context e)
  | none ↦ ok (fair_batch (or_now now clock) ack_timeout limit candidate_limit s)
]

abbrev pub claimed_message : Text → Time → Time → Message → Message
claimed_message owner until now m = record m {
  claim_owner = owner;
  claim_until = until;
  updated_at = now;
}

-- `s.messages[message.MessageID]`
abbrev pub stored_message : Text → MemoryStore → Message
stored_message id s = elim (lookup id s.messages) [ none ↦ zero_message | some m ↦ m ]

-- The loop over the batch: each message is claimed in the map and in the batch.
unfoldable pub claim_messages :
    Text → Time → Time → List Message → MemoryStore → MemoryStore × List Message
claim_messages owner until now [] s = (s, [])
claim_messages owner until now (m ∷ ms) s =
    let c = claimed_message owner until now (stored_message m.message_id s) in
    let (s', cs) =
      claim_messages owner until now ms
        (record s { messages = insert m.message_id c s.messages }) in
    (s', c ∷ cs)

unfoldable pub claim_due_retry_fair :
    Context
    → Time
    → Time
    → Duration
    → ℕ
    → ℕ
    → Text
    → Duration
    → MemoryStore
    → MemoryStore × Result RetrySelection
claim_due_retry_fair ctx clock now ack_timeout limit candidate_limit owner lease s =
    let at = or_now now clock in
    let batch = fair_batch at ack_timeout limit candidate_limit s in
    let (s', claimed) =
      claim_messages owner (at + or_default lease default_lease) at batch.messages s in
    with_context ctx s
      (if is_empty owner then (s, ok batch) else (s', ok (record batch { messages = claimed })))

unfoldable pub list_pending_by_client_device :
    Context → Time → Text → Text → ℕ → MemoryStore → Result (List Message)
list_pending_by_client_device ctx now client_id device_id limit s = elim ctx [
  | some e ↦ err (context e)
  | none ↦ ok (
      limit_messages
        (filter (λ m. is_pending_for client_id device_id m && not (claim_active m now))
          (values s.messages))
        limit)
]
