-- ===== src/Downlink/Outbox.antt =====
-- internal/downlink/memory_store.go: the outbox of terminal events: `ClaimDueTerminal`,
-- `MarkTerminalPublished` and `MarkTerminalPublishFailed`.
use z_courier.Base.{
  ℕ, ◌+◌, Bool, ◌&&◌, ◌||◌, not, none, some, List, [], ◌∷◌, map, Text, text_lt, text_Eq, lookup,
  insert, values, filter, take, sort, nat_eq, ltb, if◌then◌else◌,
}
use z_courier.Downlink.Message.{
  Message, Time, Duration, MessageStatus, status_eq, is_zero, after, zero_time, TerminalRecord,
  TerminalPublicationStatus,
}
use z_courier.Downlink.Store.{
  Context, Result, ok, err, message_not_found, MemoryStore, with_context,
}
use z_courier.Downlink.Marks.{or_now}
use z_courier.Downlink.Terminal.{terminal_event_id}

abbrev pub publication_eq : TerminalPublicationStatus → TerminalPublicationStatus → Bool
publication_eq TerminalPublicationStatus.none TerminalPublicationStatus.none = Bool.true
publication_eq TerminalPublicationStatus.disabled TerminalPublicationStatus.disabled = Bool.true
publication_eq TerminalPublicationStatus.pending TerminalPublicationStatus.pending = Bool.true
publication_eq TerminalPublicationStatus.failed TerminalPublicationStatus.failed = Bool.true
publication_eq TerminalPublicationStatus.published TerminalPublicationStatus.published = Bool.true
publication_eq _ _ = Bool.false

-- `Status == TerminalPublicationPending || Status == TerminalPublicationFailed`
abbrev pub is_unpublished : TerminalRecord → Bool
is_unpublished r =
    publication_eq r.status TerminalPublicationStatus.pending
    || publication_eq r.status TerminalPublicationStatus.failed

-- The tests of the loop that gathers the records to claim.
unfoldable pub due_terminal : Time → TerminalRecord → Bool
due_terminal now r =
    is_unpublished r
    && (not (not (is_zero r.next_attempt_at) && after r.next_attempt_at now)
        && not (not (is_zero r.claim_until) && after r.claim_until now))

unfoldable pub terminal_before : TerminalRecord → TerminalRecord → Bool
terminal_before left right =
    if nat_eq left.event.terminal_at right.event.terminal_at
    then text_lt left.event.event_id right.event.event_id
    else ltb left.event.terminal_at right.event.terminal_at

abbrev pub claim_record : Text → Time → TerminalRecord → TerminalRecord
claim_record owner until r = record r { claim_owner = owner; claim_until = until }

-- The loop that writes the claimed records back.
unfoldable pub store_records : List TerminalRecord → MemoryStore → MemoryStore
store_records [] s = s
store_records (r ∷ rs) s =
    store_records rs (record s { terminal_events = insert r.event.event_id r s.terminal_events })

-- A limit or a lease that is not positive is replaced by the default.
abbrev pub or_default : ℕ → ℕ → ℕ
or_default n default = if nat_eq n 0 then default else n

abbrev pub default_lease : Duration
default_lease = 30_000_000_000

unfoldable pub claim_due_terminal :
    Context
    → Time
    → Time
    → ℕ
    → Text
    → Duration
    → MemoryStore
    → MemoryStore × Result (List TerminalRecord)
claim_due_terminal ctx clock now limit owner lease s =
    let at = or_now now clock in
    let due = sort terminal_before (filter (due_terminal at) (values s.terminal_events)) in
    let claimed =
      map (claim_record owner (at + or_default lease default_lease))
        (take (or_default limit 100) due) in
    with_context ctx s (store_records claimed s, ok claimed)

-- The message follows its event as long as it is in the state that the event tells of.
unfoldable pub update_published :
    Text → MessageStatus → (Message → Message) → MemoryStore → MemoryStore
update_published id status change s = elim (lookup id s.messages) [
  | none ↦ s
  | some m ↦
      if status_eq m.status status
      then record s { messages = insert id (change m) s.messages }
      else s
]

abbrev pub published_record : Time → TerminalRecord → TerminalRecord
published_record at r = record r {
  status = TerminalPublicationStatus.published;
  publish_attempts = r.publish_attempts + 1;
  next_attempt_at = zero_time;
  last_error = [];
  published_at = at;
  claim_owner = [];
  claim_until = zero_time;
}

abbrev pub publish_failed_record : Text → Time → TerminalRecord → TerminalRecord
publish_failed_record reason next_attempt_at r = record r {
  status = TerminalPublicationStatus.failed;
  publish_attempts = r.publish_attempts + 1;
  next_attempt_at = next_attempt_at;
  last_error = reason;
  claim_owner = [];
  claim_until = zero_time;
}

-- Both methods that end a publication find the record and leave a published one alone.
abbrev pub with_record :
    Context → Text → MemoryStore → (TerminalRecord → MemoryStore) → MemoryStore × Result (Unit {0})
with_record ctx key s change = with_context ctx s (elim (lookup key s.terminal_events) [
  | none ↦ (s, err message_not_found)
  | some r ↦
      if publication_eq r.status TerminalPublicationStatus.published
      then (s, ok tt)
      else (change r, ok tt)
])

unfoldable pub mark_terminal_published :
    Context → Time → Text → MessageStatus → Time → MemoryStore → MemoryStore × Result (Unit {0})
mark_terminal_published ctx now id status published_at s =
    let key = terminal_event_id id status in
    let at = or_now published_at now in
    with_record ctx key s λ r.
      let r' = published_record at r in
      update_published id status
        (λ m. record m {
          terminal_publish_status = TerminalPublicationStatus.published;
          terminal_publish_attempts = r'.publish_attempts;
          terminal_next_publish_at = zero_time;
          terminal_publish_error = [];
          terminal_published_at = at;
        })
        (record s { terminal_events = insert key r' s.terminal_events })

unfoldable pub mark_terminal_publish_failed :
    Context → Text → MessageStatus → Text → Time → MemoryStore → MemoryStore × Result (Unit {0})
mark_terminal_publish_failed ctx id status reason next_attempt_at s =
    let key = terminal_event_id id status in
    with_record ctx key s λ r.
      let r' = publish_failed_record reason next_attempt_at r in
      update_published id status
        (λ m. record m {
          terminal_publish_status = TerminalPublicationStatus.failed;
          terminal_publish_attempts = r'.publish_attempts;
          terminal_next_publish_at = next_attempt_at;
          terminal_publish_error = reason;
        })
        (record s { terminal_events = insert key r' s.terminal_events })
