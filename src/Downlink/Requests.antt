-- ===== src/Downlink/Requests.antt =====
-- internal/downlink/service.go, types.go, errors.go, store.go and pkg/sdk/backend/types.go: what the
-- service is asked, what it answers, and its errors.
use z_courier.Base.{
  ℕ, Bool, true, false, ◌||◌, not, Option, [], Text, bytes, text_eq, nat_eq, is_empty,
  if◌then◌else◌,
}
use z_courier.Base.Results.{Result, ok, err}
use z_courier.Cluster
use z_courier.Cluster.{RouteEntry}
use z_courier.Protocol
use z_courier.Downlink.Message.{
  Message, Time, Duration, MessageStatus, unset, pending, sent, delivered, zero_message,
}
use z_courier.Downlink.Store.{ContextError, CapacityScope, StoreError}
use z_courier.Downlink.Fairness.{SelectionMode}

pub record PushRequest : Type 0 where
  pub client_id : Text
  pub device_id : Text
  pub msg_id : ℕ
  pub message_id : Text
  pub trace_id : Text
  pub ack_required : Bool
  pub body : Text

pub record PeerPushRequest : Type 0 where
  pub origin_node : Text
  pub client_id : Text
  pub device_id : Text
  pub session_id : Text
  pub msg_id : ℕ
  pub message_id : Text
  pub trace_id : Text
  pub ack_required : Bool
  pub body : Text

-- The queue-capacity fields stay empty in every response of the service.
pub record PushResponse : Type 0 where
  pub code : Text
  pub reason : Text
  pub submission_state : Text
  pub message_status : MessageStatus
  pub delivery_state : Text
  pub delivery_path : Text
  pub origin_gateway_node : Text
  pub target_gateway_node : Text
  pub target_internal_addr : Text
  pub failure_stage : Text
  pub failure_code : Text
  pub client_id : Text
  pub device_id : Text
  pub session_id : Text
  pub conn_id : ℕ
  pub message_id : Text
  pub trace_id : Text

abbrev pub zero_response : PushResponse
zero_response = record {
  code = [];
  reason = [];
  submission_state = [];
  message_status = unset;
  delivery_state = [];
  delivery_path = [];
  origin_gateway_node = [];
  target_gateway_node = [];
  target_internal_addr = [];
  failure_stage = [];
  failure_code = [];
  client_id = [];
  device_id = [];
  session_id = [];
  conn_id = 0;
  message_id = [];
  trace_id = [];
}

pub record PeerPushResponse : Type 0 where
  pub code : Text
  pub reason : Text
  pub delivery_state : Text
  pub gateway_node : Text
  pub client_id : Text
  pub device_id : Text
  pub session_id : Text
  pub conn_id : ℕ
  pub message_id : Text
  pub trace_id : Text

pub record ClientAckRequest : Type 0 where
  pub message_id : Text
  pub code : Text

pub record RetryResult : Type 0 where
  pub scanned : ℕ
  pub sent : ℕ
  pub queued : ℕ
  pub failed : ℕ
  pub selection_mode : Option SelectionMode
  pub selected_devices : ℕ
  pub max_per_device : ℕ

pub record TerminalPublishResult : Type 0 where
  pub scanned : ℕ
  pub published : ℕ
  pub failed : ℕ

pub record RetentionPolicy : Type 0 where
  pub delivered_ttl : Duration
  pub failed_ttl : Duration
  pub discarded_ttl : Duration
  pub limit : ℕ

pub record CleanupResult : Type 0 where
  pub delivered : ℕ
  pub failed : ℕ
  pub discarded : ℕ

-- What the dispatcher's error shows to `errors.Is` and `errors.As`: one of the two sentinels, a
-- `PeerPushHTTPError`, an error whose `Timeout` holds or that is `DeadlineExceeded`, or another.
pub data PeerError : Type 0 where
  session_not_found session_mismatch timeout other : PeerError
  http_status : ℕ → Text → PeerError

pub record DeliveryFailure : Type 0 where
  pub stage : Text
  pub code : Text
  pub target_gateway_node : Text
  pub target_internal_addr : Text

-- `connection_not_found` and `send` have the text of a foreign error.
pub data Error : Type 0 where
  missing_client_id missing_device_id missing_session_id invalid_msg_id missing_message_id
        invalid_ack_code invalid_status invalid_transition session_not_found session_mismatch
        peer_not_configured store_not_configured message_not_found nil_session :
      Error
  connection_not_found : Text → Error
  message_id_conflict : Text → Error
  registry : Cluster.Error → Error
  peer_dispatch : PeerError → Error
  store : StoreError → Error
  queue_capacity : CapacityScope → ℕ → ℕ → Error
  context : ContextError → Error
  packet : Protocol.Error → Error
  send : Text → Error
  delivery_failure : DeliveryFailure → Error → Error

abbrev pub non_empty : Text → Text → Text
non_empty value fallback = if is_empty value then fallback else value

abbrev pub new_delivery_failure : Text → Text → RouteEntry → Error → Error
new_delivery_failure stage code target cause =
    delivery_failure
      (record {
        stage = stage;
        code = code;
        target_gateway_node = target.gateway_node;
        target_internal_addr = target.internal_addr;
      })
      cause

abbrev pub failure_at : Text → Text → DeliveryFailure
failure_at stage code = record {
  stage = stage;
  code = code;
  target_gateway_node = [];
  target_internal_addr = [];
}

-- `errors.Is(err, ErrSessionNotFound)`
abbrev pub is_session_not_found : Error → Bool
is_session_not_found Error.session_not_found = true
is_session_not_found (peer_dispatch PeerError.session_not_found) = true
is_session_not_found (delivery_failure _ cause) = is_session_not_found cause
is_session_not_found _ = false

unfoldable pub delivery_failure_from_error : Error → DeliveryFailure
delivery_failure_from_error (delivery_failure failure _) = failure
delivery_failure_from_error Error.session_not_found =
    failure_at (bytes "session_lookup") (bytes "session_not_found")
delivery_failure_from_error (peer_dispatch PeerError.session_not_found) =
    failure_at (bytes "session_lookup") (bytes "session_not_found")
delivery_failure_from_error Error.session_mismatch =
    failure_at (bytes "session_lookup") (bytes "session_mismatch")
delivery_failure_from_error (peer_dispatch PeerError.session_mismatch) =
    failure_at (bytes "session_lookup") (bytes "session_mismatch")
delivery_failure_from_error (connection_not_found _) =
    failure_at (bytes "session_lookup") (bytes "connection_not_found")
delivery_failure_from_error peer_not_configured =
    failure_at (bytes "peer_dispatch") (bytes "peer_not_configured")
delivery_failure_from_error (peer_dispatch _) =
    failure_at (bytes "peer_dispatch") (bytes "peer_error")
delivery_failure_from_error (registry _) =
    failure_at (bytes "route_lookup") (bytes "registry_error")
delivery_failure_from_error _ = failure_at (bytes "unknown") (bytes "error")

unfoldable pub annotate_push_response_failure : Error → PushResponse → PushResponse
annotate_push_response_failure e resp =
    let failure = delivery_failure_from_error e in
    record resp {
      failure_stage = failure.stage;
      failure_code = failure.code;
      target_gateway_node = non_empty resp.target_gateway_node failure.target_gateway_node;
      target_internal_addr = non_empty resp.target_internal_addr failure.target_internal_addr;
    }

abbrev pub is_session_code : Text → Bool
is_session_code code =
    text_eq code (bytes "session_not_found") || text_eq code (bytes "session_mismatch")

unfoldable pub classify_peer_failure_code : PeerError → Text
classify_peer_failure_code (http_status status code) =
    if nat_eq status 401 || nat_eq status 403
    then bytes "peer_auth_failed"
    else if nat_eq status 404
    then if is_session_code code then bytes "peer_target_not_found" else bytes "peer_not_found"
    else if nat_eq status 409
    then bytes "peer_target_conflict"
    else bytes "peer_http_error"
classify_peer_failure_code timeout = bytes "peer_timeout"
classify_peer_failure_code _ = bytes "peer_error"

unfoldable pub is_stale_peer_route_error : PeerError → Bool
is_stale_peer_route_error PeerError.session_not_found = true
is_stale_peer_route_error PeerError.session_mismatch = true
is_stale_peer_route_error (http_status status code) =
    if not (nat_eq status 404) then false else is_session_code code
is_stale_peer_route_error _ = false

unfoldable pub validate_push_request : PushRequest → Result Error (Unit {0})
validate_push_request req =
    if is_empty req.client_id
    then err missing_client_id
    else if is_empty req.device_id
    then err missing_device_id
    else if nat_eq req.msg_id 0
    then err invalid_msg_id
    else ok tt

unfoldable pub push_request_from_peer_push_request : PeerPushRequest → PushRequest
push_request_from_peer_push_request req = record {
  client_id = req.client_id;
  device_id = req.device_id;
  msg_id = req.msg_id;
  message_id = req.message_id;
  trace_id = req.trace_id;
  ack_required = req.ack_required;
  body = req.body;
}

unfoldable pub peer_push_request_from_push_request : PushRequest → Text → Text → PeerPushRequest
peer_push_request_from_push_request req origin_node session_id = record {
  origin_node = origin_node;
  client_id = req.client_id;
  device_id = req.device_id;
  session_id = session_id;
  msg_id = req.msg_id;
  message_id = req.message_id;
  trace_id = req.trace_id;
  ack_required = req.ack_required;
  body = req.body;
}

unfoldable pub validate_peer_push_request : PeerPushRequest → Result Error (Unit {0})
validate_peer_push_request req =
    elim (validate_push_request (push_request_from_peer_push_request req)) [
      | err e ↦ err e
      | ok _ ↦ if is_empty req.session_id then err missing_session_id else ok tt
    ]

-- `fresh` is what `NewMessageID` gives.
unfoldable pub message_from_push_request : Text → PushRequest → Time → Message
message_from_push_request fresh req now = record zero_message {
  message_id = if is_empty req.message_id then fresh else req.message_id;
  client_id = req.client_id;
  device_id = req.device_id;
  msg_id = req.msg_id;
  body = req.body;
  ack_required = req.ack_required;
  trace_id = req.trace_id;
  status = pending;
  created_at = now;
  updated_at = now;
}

unfoldable pub push_request_from_message : Message → PushRequest
push_request_from_message m = record {
  client_id = m.client_id;
  device_id = m.device_id;
  msg_id = m.msg_id;
  message_id = m.message_id;
  trace_id = m.trace_id;
  ack_required = m.ack_required;
  body = m.body;
}

abbrev pub stored_delivery_state : MessageStatus → Text
stored_delivery_state pending = bytes "queued"
stored_delivery_state sent = bytes "sent"
stored_delivery_state delivered = bytes "sent"
stored_delivery_state _ = []

unfoldable pub push_response_from_stored_message : Message → Text → PushResponse
push_response_from_stored_message m submission_state = record zero_response {
  code = bytes "ok";
  submission_state = submission_state;
  message_status = m.status;
  delivery_state = stored_delivery_state m.status;
  client_id = m.client_id;
  device_id = m.device_id;
  session_id = m.session_id;
  message_id = m.message_id;
  trace_id = m.trace_id;
}
