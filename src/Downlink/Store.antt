-- ===== src/Downlink/Store.antt =====
-- internal/downlink/memory_store.go: the store, `SaveWithCapacity`, `Get` and the capacity check.
-- A method takes what `ctx.Err()` gives, the reading of its clock and the store, and returns the
-- store beside its result. The mutex makes each method one step.
pub mod Saves
pub mod Replays
pub mod Capacity
use z_courier.Base.{
  ℕ, ◌+◌, Bool, true, false, ◌&&◌, ◌||◌, not, Option, none, some, List, [], ◌∷◌, Text, text_eq, Map,
  lookup, insert, values, count, nat_eq, ltb, leb, length, is_empty, if◌then◌else◌, text_Eq,
}
use z_courier.Downlink.Message.{
  Message, Time, MessageStatus, unset, pending, status_eq, is_zero, TerminalRecord, QueueCapacity,
}
use z_courier.Downlink.Identity.{message_identity_fingerprint, messages_have_same_identity}

pub data ContextError : Type 0 where
  canceled deadline_exceeded : ContextError

abbrev pub Context : Type 0
Context = Option ContextError

pub data CapacityScope : Type 0 where
  global device : CapacityScope

pub data StoreError : Type 0 where
  context : ContextError → StoreError
  message_not_found : StoreError
  queue_capacity_exceeded : CapacityScope → ℕ → ℕ → StoreError

pub data Result {ℓ} (A : Type ℓ) : Type ℓ where
  ok : A → Result A
  err : StoreError → Result A

pub record MemoryStore : Type 0 where
  pub messages : Map Text Message
  pub terminal_events : Map Text TerminalRecord

unfoldable pub new_memory_store : MemoryStore
new_memory_store = record { messages = []; terminal_events = [] }

-- A method returns at once when its context is done.
abbrev pub with_context {ℓ} :
    {A : Type ℓ} → Context → MemoryStore → MemoryStore × Result A → MemoryStore × Result A
with_context ctx s rest = elim ctx [ some e ↦ (s, err (context e)) | none ↦ rest ]

-- `s.messages[messageID] = message`
abbrev pub put_message : Text → Message → MemoryStore → MemoryStore
put_message id m s = record s { messages = insert id m s.messages }

-- The shape of the methods that change one message: not found, or what `change` does with it.
abbrev pub with_message {ℓ} :
    {A : Type ℓ}
    → Context
    → Text
    → MemoryStore
    → (Message → MemoryStore × Result A)
    → MemoryStore × Result A
with_message ctx id s change =
    with_context ctx s
      (elim (lookup id s.messages) [ none ↦ (s, err message_not_found) | some m ↦ change m ])

pub data SaveOutcome : Type 0 where
  created existing conflict : SaveOutcome

pub record SaveResult : Type 0 where
  pub message : Message
  pub outcome : SaveOutcome

abbrev pub capacity_enabled : QueueCapacity → Bool
capacity_enabled c = ltb 0 c.max_pending_global || ltb 0 c.max_pending_per_device

abbrev pub is_pending : Message → Bool
is_pending m = status_eq m.status pending

abbrev pub is_pending_for : Text → Text → Message → Bool
is_pending_for client_id device_id m =
    is_pending m && (text_eq m.client_id client_id && text_eq m.device_id device_id)

unfoldable pub global_pending : MemoryStore → ℕ
global_pending s = count is_pending (values s.messages)

unfoldable pub device_pending : Text → Text → MemoryStore → ℕ
device_pending client_id device_id s =
    count (is_pending_for client_id device_id) (values s.messages)

unfoldable pub check_queue_capacity : Text → Text → QueueCapacity → MemoryStore → Option StoreError
check_queue_capacity client_id device_id c s =
    if not (capacity_enabled c)
    then none
    else if ltb 0 c.max_pending_global && leb c.max_pending_global (global_pending s)
    then some (queue_capacity_exceeded global (global_pending s) c.max_pending_global)
    else if ltb 0 c.max_pending_per_device
        && leb c.max_pending_per_device (device_pending client_id device_id s)
    then some (
        queue_capacity_exceeded device (device_pending client_id device_id s)
          c.max_pending_per_device)
    else none

-- `Get`
unfoldable pub get : Context → Text → MemoryStore → Result (Option Message)
get ctx id s = elim ctx [ some e ↦ err (context e) | none ↦ ok (lookup id s.messages) ]

module _ (sha256 : Text → Text) where
  -- The defaults that `SaveWithCapacity` fills in. `fresh` is what `NewMessageID` gives.
  unfoldable pub prepare : Text → Time → Message → Message
  prepare fresh now m = record m {
    message_id = if is_empty m.message_id then fresh else m.message_id;
    status = if status_eq m.status unset then pending else m.status;
    created_at = if is_zero m.created_at then now else m.created_at;
    updated_at = if is_zero m.updated_at then now else m.updated_at;
    identity_fingerprint = message_identity_fingerprint sha256 m;
  }

  -- A stored message whose fingerprint has another length is stored with a new one.
  unfoldable pub refresh_fingerprint : Message → Message → MemoryStore → Message × MemoryStore
  refresh_fingerprint old m s =
      let fresh = record old { identity_fingerprint = message_identity_fingerprint sha256 old } in
      if nat_eq (length old.identity_fingerprint) (length m.identity_fingerprint)
      then (old, s)
      else (fresh, record s { messages = insert m.message_id fresh s.messages })

  unfoldable pub save_existing : Message → Message → MemoryStore → MemoryStore × Result SaveResult
  save_existing old m s =
      let (kept, s') = refresh_fingerprint old m s in
      (
        s',
        ok (record {
          message = kept;
          outcome = if messages_have_same_identity sha256 kept m then existing else conflict;
        }),
      )

  unfoldable pub save_new : Message → QueueCapacity → MemoryStore → MemoryStore × Result SaveResult
  save_new m c s =
      elim (if is_pending m then check_queue_capacity m.client_id m.device_id c s else none) [
        | some e ↦ (s, err e)
        | none ↦ (put_message m.message_id m s, ok (record { message = m; outcome = created }))
      ]

  unfoldable pub save_with_capacity :
      Context
      → Text
      → Time
      → Message
      → QueueCapacity
      → MemoryStore
      → MemoryStore × Result SaveResult
  save_with_capacity ctx fresh now message c s =
      let m = prepare fresh now message in
      with_context ctx s (elim (lookup m.message_id s.messages) [
        | some old ↦ save_existing old m s
        | none ↦ save_new m c s
      ])

  -- `Save`, with no limit.
  unfoldable pub save :
      Context → Text → Time → Message → MemoryStore → MemoryStore × Result SaveResult
  save ctx fresh now message =
      save_with_capacity ctx fresh now message
        (record { max_pending_global = 0; max_pending_per_device = 0 })
