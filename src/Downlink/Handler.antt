-- ===== src/Downlink/Handler.antt =====
-- internal/downlink/service.go: the service's operations as one handler of requests, in the order
-- in which they are made. What each may do to the store is a set of calls.
pub mod Transitions
pub mod Rounds
pub mod Refinement
mod Examples
pub mod Deliveries
pub mod Submissions
use z_courier.Base.{
  ℕ, Bool, true, false, ◌&&◌, ◌||◌, not, Option, none, some, List, [], ◌∷◌, Text, text_eq, text_Eq,
  lookup,
}
use z_courier.Downlink.Message.{Message, delivered, discarded, status_eq}
use z_courier.Downlink.Store.{MemoryStore}
use z_courier.Downlink.Calls.{
  Call, saves, sends, delivers, retries, requeues, fails, discards, claims, claims_terminal,
  publishes, publish_fails, expires, step,
}
use z_courier.Downlink.Requests.{PushRequest, PeerPushRequest, ClientAckRequest, RetentionPolicy}
use z_courier.Downlink.Service.{Service}
use z_courier.Downlink.System.{Outside, System}
use z_courier.Downlink.Delivery.{push_peer}
use z_courier.Downlink.Submission.{
  push, message_status, requeue_message, requeue_failed, discard_message, ack,
}
use z_courier.Downlink.Rounds.{
  retry_due, flush_client_device, publish_terminal_due, cleanup_expired,
}

-- The operations with their arguments.
pub data Request : Type 0 where
  pushes : PushRequest → Request
  pushes_peer : PeerPushRequest → Text → Request
  asks requeues_message requeues_failed : Text → Request
  discards_message : Text → Text → Request
  acks : Text → Text → ClientAckRequest → Request
  retries_due publishes_due : ℕ → Request
  flushes : Text → Text → ℕ → Request
  cleans : RetentionPolicy → Request

-- What happens in turn: a request that is served as a whole, or one call of the store by an activity
-- that began before the event and ends after it, such as a worker that still holds an old batch.
pub data Event : Type 0 where
  serves : Request → Event
  calls : Call → Event

module _ {W : Type 0} (sha256 : Text → Text) (out : Outside W) (svc : Service) where
  -- The system after a request.
  unfoldable pub handle : Request → System W → System W
  handle (pushes req) s = (push out svc sha256 req s).0
  handle (pushes_peer req node) s = (push_peer out svc req node s).0
  handle (asks id) s = (message_status out svc id s).0
  handle (requeues_message id) s = (requeue_message out svc id s).0
  handle (requeues_failed id) s = (requeue_failed out svc id s).0
  handle (discards_message id reason) s = (discard_message out svc id reason s).0
  handle (acks client_id device_id req) s = (ack out svc client_id device_id req s).0
  handle (retries_due limit) s = (retry_due out svc limit s).0
  handle (publishes_due limit) s = (publish_terminal_due out svc limit s).0
  handle (flushes client_id device_id limit) s =
      (flush_client_device out svc client_id device_id limit s).0
  handle (cleans policy) s = (cleanup_expired out svc policy s).0

  -- The system after an event.
  unfoldable pub handle_event : Event → System W → System W
  handle_event (serves r) s = handle r s
  handle_event (calls c) s = record s { store = step sha256 s.store c }

  unfoldable pub handle_all : List Event → System W → System W
  handle_all [] s = s
  handle_all (e ∷ es) s = handle_all es (handle_event e s)

-- A test on the message that a store has under an id.
abbrev pub stored_with : (Message → Bool) → Text → MemoryStore → Bool
stored_with p id s = elim (lookup id s.messages) [ none ↦ false | some m ↦ p m ]

abbrev pub can_requeue : Message → Bool
can_requeue m = not (status_eq m.status delivered || status_eq m.status discarded)

abbrev pub can_discard : Message → Bool
can_discard m = not (status_eq m.status delivered)

-- The calls that a request may make, in the store that a call meets.
abbrev pub may_call : Request → MemoryStore → Call → Bool
may_call (pushes req) s (saves _ _ _ _ _) = true
may_call (pushes req) s (sends _ _ _ _ _ _) = true
may_call (pushes req) s (retries _ _ _ _ _) = true
may_call (requeues_message id) s (requeues _ _ j _ _) = text_eq j id && stored_with can_requeue id s
may_call (requeues_failed id) s (requeues _ _ j _ _) = text_eq j id && stored_with can_requeue id s
may_call (discards_message id _) s (discards _ _ j _ _) =
    text_eq j id && stored_with can_discard id s
may_call (acks client_id device_id req) s (delivers _ _ j client device _) =
    text_eq j req.message_id && (text_eq client client_id && text_eq device device_id)
may_call (retries_due _) s (claims _ _ _ _ _ _ _ _) = true
may_call (retries_due _) s (sends _ _ _ _ _ _) = true
may_call (retries_due _) s (retries _ _ _ _ _) = true
may_call (retries_due _) s (fails _ _ _ _) = true
may_call (flushes _ _ _) s (sends _ _ _ _ _ _) = true
may_call (flushes _ _ _) s (retries _ _ _ _ _) = true
may_call (flushes _ _ _) s (fails _ _ _ _) = true
may_call (publishes_due _) s (claims_terminal _ _ _ _ _ _) = true
may_call (publishes_due _) s (publishes _ _ _ _ _) = true
may_call (publishes_due _) s (publish_fails _ _ _ _ _) = true
may_call (cleans _) s (expires _ _ _ _) = true
may_call _ s _ = false
