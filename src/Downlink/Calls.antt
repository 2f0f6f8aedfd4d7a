-- ===== src/Downlink/Calls.antt =====
-- internal/downlink/memory_store.go: the methods that change the store, as one step function. A
-- history of a store is a list of calls, in the order in which they take the mutex.
pub mod Fate
pub mod Batches
pub mod Publications
pub mod Expiry
pub mod Writes
pub mod LifeCycle
pub mod Delivered
pub mod Claims
use z_courier.Base.{
  ℕ, Bool, true, false, ◌&&◌, not, List, [], ◌∷◌, Text, text_eq, text_Eq, lookup, is_empty, Option,
  none, some, ◌≡◌, ◌⊎◌, MapAll, Distinct,
}
use z_courier.Downlink.Message.{
  Message, Time, Duration, MessageStatus, pending, sent, delivered, failed, discarded, status_eq,
  TerminalTransition, QueueCapacity,
}
use z_courier.Downlink.Store.{Context, Result, MemoryStore, new_memory_store, save_with_capacity}
use z_courier.Downlink.Marks.{mark_sent, mark_delivered, mark_attempt_failed, requeue_with_capacity}
use z_courier.Downlink.Terminal.{mark_failed, discard}
use z_courier.Downlink.Outbox.{
  claim_due_terminal, mark_terminal_published, mark_terminal_publish_failed,
}
use z_courier.Downlink.Retry.{claim_due_retry_fair}
use z_courier.Downlink.Retention.{delete_expired}

-- The arguments of each call, its clock reading included.
pub data Call : Type 0 where
  saves : Context → Text → Time → Message → QueueCapacity → Call
  sends : Context → Time → Text → Text → Time → Time → Call
  delivers : Context → Time → Text → Text → Text → Time → Call
  retries : Context → Time → Text → Text → Time → Call
  requeues : Context → Time → Text → Time → QueueCapacity → Call
  fails : Context → Time → Text → TerminalTransition → Call
  discards : Context → Time → Text → Text → TerminalTransition → Call
  claims : Context → Time → Time → Duration → ℕ → ℕ → Text → Duration → Call
  claims_terminal : Context → Time → Time → ℕ → Text → Duration → Call
  publishes : Context → Time → Text → MessageStatus → Time → Call
  publish_fails : Context → Text → MessageStatus → Text → Time → Call
  expires : Context → MessageStatus → Time → ℕ → Call

module _ (sha256 : Text → Text) where
  unfoldable pub step : MemoryStore → Call → MemoryStore
  step s (saves ctx fresh now m c) = (save_with_capacity sha256 ctx fresh now m c s).0
  step s (sends ctx now id session at next) = (mark_sent ctx now id session at next s).0
  step s (delivers ctx now id client device at) = (mark_delivered ctx now id client device at s).0
  step s (retries ctx now id reason next) = (mark_attempt_failed ctx now id reason next s).0
  step s (requeues ctx now id at c) = (requeue_with_capacity ctx now id at c s).0
  step s (fails ctx now id t) = (mark_failed ctx now id t s).0
  step s (discards ctx now id reason t) = (discard ctx now id reason t s).0
  step s (claims ctx clock now ack limit candidates owner lease) =
      (claim_due_retry_fair ctx clock now ack limit candidates owner lease s).0
  step s (claims_terminal ctx clock now limit owner lease) =
      (claim_due_terminal ctx clock now limit owner lease s).0
  step s (publishes ctx now id status at) = (mark_terminal_published ctx now id status at s).0
  step s (publish_fails ctx id status reason next) =
      (mark_terminal_publish_failed ctx id status reason next s).0
  step s (expires ctx status before limit) = (delete_expired ctx status before limit s).0

  unfoldable pub run : MemoryStore → List Call → MemoryStore
  run s [] = s
  run s (c ∷ cs) = run (step s c) cs

-- The life cycle of a message: the states between which a call may move it. A call that names a
-- message moves no other one.
abbrev pub is_open : MessageStatus → Bool
is_open status = not (status_eq status delivered) && not (status_eq status discarded)

abbrev pub allowed : Call → Text → MessageStatus → MessageStatus → Bool
allowed (saves _ _ _ _ _) j from to = status_eq from to
allowed (sends _ _ id _ _ _) j from to = text_eq id j && (is_open from && status_eq to sent)
allowed (delivers _ _ id _ _ _) j from to = text_eq id j && status_eq to delivered
allowed (retries _ _ id _ _) j from to = text_eq id j && (is_open from && status_eq to pending)
allowed (requeues _ _ id _ _) j from to = text_eq id j && status_eq to pending
allowed (fails _ _ id _) j from to = text_eq id j && (is_open from && status_eq to failed)
allowed (discards _ _ id _ _) j from to = text_eq id j && status_eq to discarded
allowed (claims _ _ _ _ _ _ owner _) j from to = not (is_empty owner) && status_eq from to
allowed (claims_terminal _ _ _ _ _ _) j from to = false
allowed (publishes _ _ id _ _) j from to = text_eq id j && status_eq from to
allowed (publish_fails _ id _ _ _) j from to = text_eq id j && status_eq from to
allowed (expires _ _ _ _) j from to = false

-- What no call changes in a message.
pub record Kept (old new : Message) : Type 0 where
  pub message_id : new.message_id ≡ old.message_id
  pub client_id : new.client_id ≡ old.client_id
  pub device_id : new.device_id ≡ old.device_id
  pub msg_id : new.msg_id ≡ old.msg_id
  pub body : new.body ≡ old.body
  pub ack_required : new.ack_required ≡ old.ack_required
  pub trace_id : new.trace_id ≡ old.trace_id
  pub policy : new.policy ≡ old.policy
  pub created_at : new.created_at ≡ old.created_at

abbrev pub is_save : Call → Bool
is_save (saves _ _ _ _ _) = true
is_save _ = false

abbrev pub is_expiry : Call → Bool
is_expiry (expires _ _ _ _) = true
is_expiry _ = false

-- What one call may do to the entry of key `j`.
abbrev pub Fate : Call → Text → Option Message → Option Message → Type 0
Fate c j none none = Unit
Fate c j none (some new) = (is_save c ≡ true) × (new.message_id ≡ j)
Fate c j (some old) none = is_expiry c ≡ true
Fate c j (some old) (some new) =
    (old ≡ new) ⊎ (Kept old new × (allowed c j old.status new.status ≡ true))

-- Every message is stored under its id.
abbrev pub Keyed : MemoryStore → Type 0
Keyed s = MapAll (λ id m. m.message_id ≡ id) s.messages

pub record IsValid (s : MemoryStore) : Type 0 where
  pub keyed : Keyed s
  pub distinct : Distinct s.messages

-- The calls that may end the delivered state of message `id`, or the message itself.
abbrev pub spares : Text → Call → Bool
spares id (requeues _ _ j _ _) = not (text_eq j id)
spares id (discards _ _ j _ _) = not (text_eq j id)
spares id (expires _ _ _ _) = false
spares id _ = true
