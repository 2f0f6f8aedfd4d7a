-- ===== src/Downlink/Calls/Writes.antt =====
-- A call changes the messages by writes and deletions of single entries: what these keep, it keeps.
use z_courier.Base.{
  inl, inr, Bool, true, false, ◌||◌, not, none, some, List, [], ◌∷◌, Text, text_eq, text_Eq, Map,
  lookup, insert, nat_eq, length, Bool-cases, Option-cases, if◌then◌else◌, is_empty,
}
use z_courier.Downlink.Message.{
  Message, Time, MessageStatus, status_eq, is_zero, TerminalRecord, TerminalTransition,
  QueueCapacity, TerminalPublicationStatus,
}
use z_courier.Downlink.Store.{
  Context, Result, MemoryStore, with_context, with_message, is_pending, check_queue_capacity,
  save_with_capacity, save_existing, save_new, refresh_fingerprint, prepare,
}
use z_courier.Downlink.Marks.{
  is_settled, mark_sent, mark_delivered, mark_attempt_failed, requeue_with_capacity,
}
use z_courier.Downlink.Terminal.{mark_failed, discard, settle, publish_event, new_terminal_event}
use z_courier.Downlink.Outbox.{
  claim_due_terminal, store_records, mark_terminal_published, mark_terminal_publish_failed,
  update_published, with_record, publication_eq,
}
use z_courier.Downlink.Retry.{claim_due_retry_fair, claim_messages}
use z_courier.Downlink.Retention.{delete_expired, delete_messages, delete_message}
use z_courier.Downlink.Calls.{
  Call, saves, sends, delivers, retries, requeues, fails, discards, claims, claims_terminal,
  publishes, publish_fails, expires, step,
}

module _ {κ} (P : MemoryStore → Type κ)
    (write : (id : Text) (m : Message) (s : MemoryStore)
      → P s
      → P (record s { messages = insert id m s.messages }))
    (note : (events : Map Text TerminalRecord) (s : MemoryStore)
      → P s
      → P (record s { terminal_events = events }))
    (drop_message : (id : Text) (s : MemoryStore) → P s → P (delete_message id s)) where
  with_context-keeps {ℓ} :
      {A : Type ℓ} (ctx : Context) (s : MemoryStore) (r : MemoryStore × Result A)
      → P s
      → P r.0
      → P (with_context ctx s r).0
  with_context-keeps (some e) s r p q = p
  with_context-keeps none s r p q = q

  with_message-keeps {ℓ} :
      {A : Type ℓ} (ctx : Context) (id : Text) (s : MemoryStore)
      (change : Message → MemoryStore × Result A)
      → P s
      → ((m : Message) → P (change m).0)
      → P (with_message ctx id s change).0
  with_message-keeps (some e) id s change p q = p
  with_message-keeps none id s change p q = elim (Option-cases (lookup id s.messages)) [
    | inl missing ↦ rw missing p
    | inr (m, found) ↦ rw found (q m)
  ]

  if-keeps : (b : Bool) (s t : MemoryStore) → P s → P t → P (if b then s else t)
  if-keeps true s t p q = p
  if-keeps false s t p q = q

  if_result-keeps {ℓ} :
      {A : Type ℓ} (b : Bool) (r q : MemoryStore × Result A)
      → P r.0
      → P q.0
      → P (if b then r else q).0
  if_result-keeps true r q p h = p
  if_result-keeps false r q p h = h

  publish_event-keeps :
      (id : Text) (status : MessageStatus) (t : TerminalTransition) (m : Message) (s : MemoryStore)
      → P s
      → P (publish_event id status t m s)
  unfolding publish_event
  publish_event-keeps id status t m s p =
      elim (Option-cases (lookup (new_terminal_event m status t).event_id s.terminal_events)) [
        | inl fresh ↦ rw (fresh, publish_event) (write _ _ _ (note _ s p))
        | inr (r, known) ↦ rw (known, publish_event) (write _ _ s p)
      ]

  settle-keeps :
      (id : Text) (first : Bool) (status : MessageStatus) (t : TerminalTransition) (m : Message)
      (s : MemoryStore)
      → P s
      → P (settle id first status t m s)
  unfolding settle
  settle-keeps id false status t m s p = write _ m s p
  settle-keeps id true status t m s p =
      if-keeps t.publish _ _ (publish_event-keeps id status t _ s p) (write _ _ s p)

  saves-keeps :
      (sha256 : Text → Text) (m : Message) (q : QueueCapacity) (s : MemoryStore)
      → P s
      → P (save_new sha256 m q s).0
  unfolding save_new
  saves-keeps sha256 m q s p =
      elim (Option-cases
        (if is_pending m then check_queue_capacity m.client_id m.device_id q s else none)) [
          | inr (e, full) ↦ rw (full, save_new) p
          | inl room ↦ rw (room, save_new) (write _ m s p)
        ]

  save_existing-keeps :
      (sha256 : Text → Text) (old m : Message) (s : MemoryStore)
      → P s
      → P (save_existing sha256 old m s).0
  unfolding save_existing refresh_fingerprint
  save_existing-keeps sha256 old m s p =
      elim (Bool-cases (nat_eq (length old.identity_fingerprint) (length m.identity_fingerprint))) [
        | inl same ↦ rw same p
        | inr other ↦ rw other (write _ _ s p)
      ]

  claim_messages-keeps :
      (owner : Text) (until now : Time) (ms : List Message) (s : MemoryStore)
      → P s
      → P (claim_messages owner until now ms s).0
  unfolding claim_messages
  claim_messages-keeps owner until now [] s p = p
  claim_messages-keeps owner until now (m ∷ ms) s p =
      claim_messages-keeps owner until now ms _ (write _ _ s p)

  store_records-keeps : (rs : List TerminalRecord) (s : MemoryStore) → P s → P (store_records rs s)
  unfolding store_records
  store_records-keeps [] s p = p
  store_records-keeps (r ∷ rs) s p = store_records-keeps rs _ (note _ s p)

  update_published-keeps :
      (id : Text) (status : MessageStatus) (change : Message → Message) (s : MemoryStore)
      → P s
      → P (update_published id status change s)
  unfolding update_published
  update_published-keeps id status change s p = elim (Option-cases (lookup id s.messages)) [
    | inl missing ↦ rw (missing, update_published) p
    | inr (m, found) ↦
        rw (found, update_published) (if-keeps (status_eq m.status status) _ s (write id _ s p) p)
  ]

  with_record-keeps :
      (ctx : Context) (key : Text) (s : MemoryStore) (change : TerminalRecord → MemoryStore)
      → P s
      → ((r : TerminalRecord) → P (change r))
      → P (with_record ctx key s change).0
  with_record-keeps (some e) key s change p q = p
  with_record-keeps none key s change p q = elim (Option-cases (lookup key s.terminal_events)) [
    | inl missing ↦ rw missing p
    | inr (r, found) ↦
        rw found (
          if_result-keeps (publication_eq r.status TerminalPublicationStatus.published) _ _ p (q r))
  ]

  delete_messages-keeps : (ms : List Message) (s : MemoryStore) → P s → P (delete_messages ms s)
  unfolding delete_messages
  delete_messages-keeps [] s p = p
  delete_messages-keeps (m ∷ ms) s p = delete_messages-keeps ms _ (drop_message m.message_id s p)

  save-keeps :
      (sha256 : Text → Text) (ctx : Context) (fresh : Text) (now : Time) (m : Message)
      (q : QueueCapacity) (s : MemoryStore)
      → P s
      → P (save_with_capacity sha256 ctx fresh now m q s).0
  unfolding save_with_capacity
  save-keeps sha256 (some e) fresh now m q s p = p
  save-keeps sha256 none fresh now m q s p =
      elim (Option-cases (lookup (prepare sha256 fresh now m).message_id s.messages)) [
        | inr (old, found) ↦ rw (found, save_with_capacity) (save_existing-keeps sha256 old _ s p)
        | inl missing ↦ rw (missing, save_with_capacity) (saves-keeps sha256 _ q s p)
      ]

  requeue-keeps :
      (ctx : Context) (now : Time) (id : Text) (at : Time) (q : QueueCapacity) (s : MemoryStore)
      → P s
      → P (requeue_with_capacity ctx now id at q s).0
  unfolding requeue_with_capacity
  requeue-keeps ctx now id at q s p = with_message-keeps ctx id s _ p λ m.
      elim (Option-cases
        (if is_pending m then none else check_queue_capacity m.client_id m.device_id q s)) [
          | inr (e, full) ↦ rw full p
          | inl room ↦ rw room (write _ _ s p)
        ]

  pub step-keeps : (sha256 : Text → Text) (s : MemoryStore) (c : Call) → P s → P (step sha256 s c)
  unfolding step mark_sent mark_delivered mark_attempt_failed mark_failed discard
      claim_due_retry_fair claim_due_terminal mark_terminal_published mark_terminal_publish_failed
      delete_expired
  step-keeps sha256 s (saves ctx fresh now m q) p = save-keeps sha256 ctx fresh now m q s p
  step-keeps sha256 s (sends ctx now id session at next) p =
      with_message-keeps ctx id s _ p λ m. if_result-keeps (is_settled m) _ _ p (write _ _ s p)
  step-keeps sha256 s (delivers ctx now id client device at) p =
      with_message-keeps ctx id s _ p λ m.
        if_result-keeps (not (text_eq m.client_id client) || not (text_eq m.device_id device)) _ _ p
          (write _ _ s p)
  step-keeps sha256 s (retries ctx now id reason next) p =
      with_message-keeps ctx id s _ p λ m. if_result-keeps (is_settled m) _ _ p (write _ _ s p)
  step-keeps sha256 s (requeues ctx now id at q) p = requeue-keeps ctx now id at q s p
  step-keeps sha256 s (fails ctx now id t) p =
      with_message-keeps ctx id s _ p
        λ m. if_result-keeps (is_settled m) _ _ p (settle-keeps id _ _ _ _ s p)
  step-keeps sha256 s (discards ctx now id reason t) p =
      with_message-keeps ctx id s _ p λ m. settle-keeps id _ _ _ _ s p
  step-keeps sha256 s (claims ctx clock now ack limit candidates owner lease) p =
      with_context-keeps ctx s _ p
        (if_result-keeps (is_empty owner) _ _ p (claim_messages-keeps owner _ _ _ s p))
  step-keeps sha256 s (claims_terminal ctx clock now limit owner lease) p =
      with_context-keeps ctx s _ p (store_records-keeps _ s p)
  step-keeps sha256 s (publishes ctx now id status at) p =
      with_record-keeps ctx _ s _ p λ r. update_published-keeps id status _ _ (note _ s p)
  step-keeps sha256 s (publish_fails ctx id status reason next) p =
      with_record-keeps ctx _ s _ p λ r. update_published-keeps id status _ _ (note _ s p)
  step-keeps sha256 s (expires ctx status before limit) p =
      with_context-keeps ctx s _ p
        (if_result-keeps (is_zero before) _ _ p (delete_messages-keeps _ s p))
