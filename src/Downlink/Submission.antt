-- ===== src/Downlink/Submission.antt =====
-- internal/downlink/service.go: the operations on one message: `Push`, `Ack`, `MessageStatus`,
-- `Requeue`, `RequeueFailed`, `Discard`. Metrics are left out.
pub mod Acknowledgement
pub mod Races
use z_courier.Base.{
  ℕ, ltb, leb, ◌+◌, ℤ, pos, pos_part, Bool, true, false, ◌&&◌, ◌||◌, not, Option, none, some, [],
  Text, bytes, text_eq, is_empty, if◌then◌else◌,
}
use z_courier.Base.Results.{Result, ok, err}
use z_courier.Downlink.Message.{
  Message, DeliveryPolicy, Time, Duration, MessageStatus, pending, sent, delivered, failed,
  discarded, status_eq, zero_time, zero_message,
}
use z_courier.Downlink.Store
use z_courier.Downlink.Store.{
  SaveResult, created, existing, conflict, get, capacity_enabled, save, save_with_capacity,
  queue_capacity_exceeded,
}
use z_courier.Downlink.Marks.{
  mark_sent, mark_delivered, mark_attempt_failed, requeue, requeue_with_capacity,
}
use z_courier.Downlink.Terminal
use z_courier.Downlink.Requests.{
  PushRequest, PushResponse, ClientAckRequest, zero_response, Error, missing_client_id,
  missing_device_id, missing_message_id, invalid_ack_code, invalid_transition, store_not_configured,
  message_not_found, message_id_conflict, queue_capacity, store, validate_push_request,
  message_from_push_request, push_request_from_message, push_response_from_stored_message,
  annotate_push_response_failure,
}
use z_courier.Downlink.Service.{
  Service, delivery_policy, attach_resolved_policy, terminal_transition, ack_deadline, cut_jitter,
  next_retry_at,
}
use z_courier.Downlink.System.{
  on_result, on_option, Outside, System, Op, Try, pure, return, fail, ◌>>=◌, ◌>>?◌, get_world,
  on_store, from_store,
}
use z_courier.Downlink.Delivery.{clock, deliver_online}

-- `errors.Is(err, ErrQueueCapacityExceeded)`: that error is returned as it is.
abbrev pub capacity_error : Error → Error
capacity_error (store (queue_capacity_exceeded scope count limit)) =
    queue_capacity scope count limit
capacity_error e = e

abbrev pub unwrap_capacity : {A : Type 0} → Result Error A → Result Error A
unwrap_capacity (ok a) = ok a
unwrap_capacity (err e) = err (capacity_error e)

-- The message of a new request, with the claim of this node on it.
unfoldable pub submitted_message : Service → Text → PushRequest → Time → Message
submitted_message svc fresh req now =
    let m : Message = record (message_from_push_request fresh req now) {
      policy = delivery_policy svc req.msg_id;
    } in
    if not (is_empty svc.retry_claim_owner) && ltb 0 svc.retry_claim_lease
    then record m {
      claim_owner = svc.retry_claim_owner;
      claim_until = m.created_at + svc.retry_claim_lease;
    }
    else m

-- The response to a message that is stored and could not be sent.
unfoldable pub queued_response : Text → Error → Message → PushResponse
queued_response reason e m = annotate_push_response_failure e (record zero_response {
  code = bytes "ok";
  reason = reason;
  submission_state = bytes "created";
  message_status = pending;
  delivery_state = bytes "queued";
  client_id = m.client_id;
  device_id = m.device_id;
  message_id = m.message_id;
  trace_id = m.trace_id;
})

abbrev pub sent_response : PushResponse → PushResponse
sent_response resp = record resp {
  submission_state = bytes "created";
  message_status = sent;
  delivery_state = bytes "sent";
}

-- What `Ack` returns: the message that it read, marked here as the store has marked its own.
unfoldable pub acknowledged_message : Time → Message → Message
acknowledged_message at m = record m {
  status = delivered;
  last_error = [];
  next_retry_at = zero_time;
  claim_owner = [];
  claim_until = zero_time;
  delivered_at = at;
  updated_at = at;
}

abbrev pub is_owned : Text → Text → Message → Bool
is_owned client_id device_id m = text_eq m.client_id client_id && text_eq m.device_id device_id

module _ {W : Type 0} (out : Outside W) (svc : Service) where
  -- `nextRetryJitter`
  unfoldable pub next_retry_jitter : ℤ → Op W ℤ
  next_retry_jitter max_jitter = if leb (pos_part max_jitter) 0 then pure (pos 0) else do
    drawn ← get_world (out.jitter (pos_part max_jitter))
    pure (cut_jitter (pos_part max_jitter) drawn)

  -- The failed attempt of `pushReliable` and `retryMessage`.
  unfoldable pub record_attempt : Message → DeliveryPolicy → Time → Error → ℤ → Try W (Unit {0})
  record_attempt m p failed_at e jitter = on_store out λ ctx now.
      mark_attempt_failed ctx now m.message_id (out.error_text e)
        (next_retry_at out.float out.times out.pow failed_at p m.attempts jitter)

  unfoldable pub record_sent : Message → Text → Time → Time → Try W (Unit {0})
  record_sent m session_id sent_at deadline =
      on_store out λ ctx now. mark_sent ctx now m.message_id session_id sent_at deadline

  -- `pushReliable` once the message is created.
  unfoldable pub push_created : Message → Try W PushResponse
  push_created m = do
    answer ← deliver_online out svc (push_request_from_message m)
    on_result
        (λ e. do
          failed_at ← clock out svc
          jitter ← next_retry_jitter m.policy.retry_jitter
          record_attempt m m.policy failed_at e jitter >>? λ _.
              return (queued_response (out.error_text e) e m))
        (λ resp. do
          sent_at ← clock out svc
          record_sent m resp.session_id sent_at (ack_deadline m m.policy sent_at) >>? λ _.
              return (sent_response resp))
        answer

  -- An empty id would be replaced by `fresh` here; `NewMessageID` gives none that is empty.
  unfoldable pub save_message : (Text → Text) → Text → Message → Try W SaveResult
  save_message sha256 fresh m = do
    saved ←
        (on_store out λ ctx now.
          if capacity_enabled svc.queue_capacity
          then save_with_capacity sha256 ctx fresh now m svc.queue_capacity
          else save sha256 ctx fresh now m)
    pure (unwrap_capacity saved)

  unfoldable pub push_saved : SaveResult → Try W PushResponse
  push_saved saved = elim saved.outcome [
    | existing ↦ return (push_response_from_stored_message saved.message (bytes "existing"))
    | conflict ↦ fail (message_id_conflict saved.message.message_id)
    | created ↦ push_created saved.message
  ]

  unfoldable pub push_reliable : (Text → Text) → PushRequest → Try W PushResponse
  push_reliable sha256 req = do
    now ← clock out svc
    fresh ← if is_empty req.message_id then get_world out.new_message_id else pure []
    save_message sha256 fresh (submitted_message svc fresh req now) >>? push_saved

  unfoldable pub push : (Text → Text) → PushRequest → Try W PushResponse
  push sha256 req =
      on_result (λ e. fail e)
        (λ _. if svc.has_store then push_reliable sha256 req else deliver_online out svc req)
        (validate_push_request req)

  -- `s.store.Get(ctx, messageID)`
  unfoldable pub get_message : Text → Try W (Option Message)
  get_message id = from_store out λ ctx now. get ctx id

  unfoldable pub message_status : Text → Try W (Option Message)
  message_status id =
      if is_empty id
      then fail missing_message_id
      else if not svc.has_store
      then fail store_not_configured
      else get_message id >>? λ found.
          on_option (return none) (λ m. return (some (attach_resolved_policy svc m))) found

  -- The second `Get` of an operation, whose message it returns.
  unfoldable pub reread : Text → Try W Message
  reread id = get_message id >>? λ found.
      on_option (fail message_not_found) (λ m. return (attach_resolved_policy svc m)) found

  unfoldable pub requeue_stored : Text → Try W (Unit {0})
  requeue_stored id = do
    at ← clock out svc
    done ←
        (on_store out λ ctx now.
          if capacity_enabled svc.queue_capacity
          then requeue_with_capacity ctx now id at svc.queue_capacity
          else requeue ctx now id at)
    pure (unwrap_capacity done)

  unfoldable pub requeue_found : Text → Option Message → Try W Message
  requeue_found id none = fail message_not_found
  requeue_found id (some m) =
      if status_eq m.status delivered || status_eq m.status discarded
      then fail invalid_transition
      else requeue_stored id >>? λ _. reread id

  -- `Requeue`
  unfoldable pub requeue_message : Text → Try W Message
  requeue_message id =
      if not svc.has_store
      then fail store_not_configured
      else if is_empty id
      then fail missing_message_id
      else get_message id >>? requeue_found id

  -- `RequeueFailed` gives the message that it read beside an error.
  unfoldable pub requeue_failed_found : Text → Message → Op W (Message × Option Error)
  requeue_failed_found id m =
      if not (status_eq m.status failed)
      then pure (m, some invalid_transition)
      else requeue_message id
        >>= on_result (λ e. pure (m, some e)) λ requeued. pure (requeued, none)

  unfoldable pub requeue_failed : Text → Op W (Message × Option Error)
  requeue_failed id =
      message_status id
      >>= on_result (λ e. pure (zero_message, some e))
          (on_option (pure (zero_message, some message_not_found)) (requeue_failed_found id))

  unfoldable pub discard_stored : Text → Text → Try W (Unit {0})
  discard_stored id reason = do
    at ← clock out svc
    on_store out λ ctx now.
        Terminal.discard ctx now id reason
          (terminal_transition svc Terminal.terminal_reason_operator_discard at false)

  unfoldable pub discard_found : Text → Text → Option Message → Try W Message
  discard_found id reason none = fail message_not_found
  discard_found id reason (some m) =
      if status_eq m.status delivered
      then fail invalid_transition
      else discard_stored id reason >>? λ _. reread id

  -- `Discard`
  unfoldable pub discard_message : Text → Text → Try W Message
  discard_message id reason =
      if not svc.has_store
      then fail store_not_configured
      else if is_empty id
      then fail missing_message_id
      else get_message id >>? discard_found id reason

  unfoldable pub ack_found : Text → Text → Text → Option Message → Try W Message
  ack_found id client_id device_id none = fail message_not_found
  ack_found id client_id device_id (some m) =
      if not (is_owned client_id device_id m) then fail message_not_found else do
        at ← clock out svc
        (on_store out λ ctx now. mark_delivered ctx now id client_id device_id at) >>? λ _.
            return (attach_resolved_policy svc (acknowledged_message at m))

  unfoldable pub ack : Text → Text → ClientAckRequest → Try W Message
  ack client_id device_id req =
      if not svc.has_store
      then fail store_not_configured
      else if is_empty client_id
      then fail missing_client_id
      else if is_empty device_id
      then fail missing_device_id
      else if is_empty req.message_id
      then fail missing_message_id
      else if not (text_eq req.code (bytes "delivered"))
      then fail invalid_ack_code
      else get_message req.message_id >>? ack_found req.message_id client_id device_id
