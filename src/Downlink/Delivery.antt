-- ===== src/Downlink/Delivery.antt =====
-- internal/downlink/service.go: one attempt to deliver, to a session of this node or through the
-- node that has the route: `pushOnlineWithSession`, `pushCluster`, `deliverOnline`, `PushPeer`.
use z_courier.Base.{
  ℕ, Bool, ◌&&◌, ◌||◌, not, Option, none, some, [], Text, bytes, text_eq, is_empty, if◌then◌else◌,
}
use z_courier.Base.Results.{Result, ok, err}
use z_courier.Session.{Session, get_by_client_device}
use z_courier.Cluster
use z_courier.Cluster.{RouteKey, RouteEntry, lookup_route, unbind}
use z_courier.Protocol
use z_courier.Protocol.{Packet}
use z_courier.Downlink.Message.{Time}
use z_courier.Downlink.Store.{Context, canceled, deadline_exceeded}
use z_courier.Downlink.Requests
use z_courier.Downlink.Requests.{
  PushRequest, PushResponse, PeerPushRequest, PeerPushResponse, zero_response, Error,
  connection_not_found, packet, send, peer_dispatch, peer_not_configured, new_delivery_failure,
  is_session_not_found, non_empty, classify_peer_failure_code, is_stale_peer_route_error,
  peer_push_request_from_push_request, push_request_from_peer_push_request,
  validate_peer_push_request,
}
use z_courier.Downlink.Service.{Service}
use z_courier.Downlink.System.{
  Outside, Op, Try, pure, return, fail, ◌>>=◌, ◌>>?◌, get_world, checked,
}

-- The packet that carries a request to a session.
unfoldable pub new_packet : PushRequest → Session → ℕ → Packet
new_packet req found timestamp = record {
  version = Protocol.version;
  flags = if req.ack_required then 1 else 0;
  msg_id = req.msg_id;
  seq = 0;
  timestamp = timestamp;
  client_id = found.client_id;
  device_id = found.device_id;
  session_id = found.session_id;
  message_id = req.message_id;
  trace_id = req.trace_id;
  token = [];
  body = req.body;
}

abbrev pub encode_packet : Packet → Result Error Text
encode_packet p = elim (Protocol.encode (some p)) [
  | Protocol.err e ↦ err (packet e)
  | Protocol.ok (_, frame) ↦ ok frame
]

-- A route with nothing but the key, which a failure without a route names.
abbrev pub no_route : PushRequest → RouteEntry
no_route req = record {
  client_id = req.client_id;
  device_id = req.device_id;
  session_id = [];
  gateway_node = [];
  internal_addr = [];
  token_id = [];
  updated_at = 0;
  expires_at = 0;
}

abbrev pub route_key : PushRequest → RouteKey
route_key req = record { client_id = req.client_id; device_id = req.device_id }

unfoldable pub local_response : Service → PushRequest → Session → PushResponse
local_response svc req found = record zero_response {
  code = bytes "ok";
  delivery_state = bytes "sent";
  delivery_path = bytes "local";
  target_gateway_node = non_empty found.gateway_node svc.gateway_node;
  client_id = found.client_id;
  device_id = found.device_id;
  session_id = found.session_id;
  conn_id = found.conn_id;
  message_id = req.message_id;
  trace_id = req.trace_id;
}

unfoldable pub peer_response : Service → PushRequest → RouteEntry → PeerPushResponse → PushResponse
peer_response svc req entry resp = record zero_response {
  code = non_empty resp.code (bytes "ok");
  delivery_state = bytes "sent";
  delivery_path = bytes "cluster_peer";
  origin_gateway_node = svc.gateway_node;
  target_gateway_node = entry.gateway_node;
  target_internal_addr = entry.internal_addr;
  client_id = non_empty resp.client_id req.client_id;
  device_id = non_empty resp.device_id req.device_id;
  session_id = non_empty resp.session_id entry.session_id;
  conn_id = resp.conn_id;
  message_id = req.message_id;
  trace_id = req.trace_id;
}

abbrev pub is_local_or_empty : Service → RouteEntry → Bool
is_local_or_empty svc entry =
    text_eq entry.gateway_node svc.gateway_node || is_empty entry.internal_addr

-- Both registries and stores see one `ctx.Err()`.
abbrev pub cluster_context : Context → Cluster.Context
cluster_context none = none
cluster_context (some canceled) = some Cluster.canceled
cluster_context (some deadline_exceeded) = some Cluster.deadline_exceeded

module _ {W : Type 0} (out : Outside W) (svc : Service) where
  abbrev pub clock : Op W Time
  clock = get_world out.now

  -- `SendMsg` on the connection of a session.
  unfoldable pub send_packet : PushRequest → Session → Try W PushResponse
  send_packet req found = do
    missing ← get_world (out.connection found.conn_id)
    elim missing [
      | some text ↦ fail (connection_not_found text)
      | none ↦ do
        now ← clock
        elim (encode_packet (new_packet req found (out.unix_milli now))) [
          | err e ↦ fail e
          | ok frame ↦ do
            failed ← get_world (out.send_msg found.conn_id req.msg_id frame)
            elim failed [
              | some text ↦ fail (send text)
              | none ↦ return (local_response svc req found)
            ]
        ]
    ]

  unfoldable pub push_online_with_session : PushRequest → Text → Try W PushResponse
  push_online_with_session req expected s =
      elim (get_by_client_device req.client_id req.device_id s.sessions) [
        | none ↦ fail Error.session_not_found s
        | some none ↦ fail Error.nil_session s
        | some (some found) ↦
            if not (is_empty expected) && not (text_eq found.session_id expected)
            then fail Error.session_mismatch s
            else send_packet req found s
      ]

  unfoldable pub push_online : PushRequest → Try W PushResponse
  push_online req = push_online_with_session req []

  -- `_ = s.onlineRegistry.Unbind(ctx, key, entry.SessionID)`
  unfoldable pub drop_route : PushRequest → RouteEntry → Op W (Unit {0})
  drop_route req entry s =
      let (w, ctx) = out.done s.world in
      let (w', now) = out.now w in
      (
        record s {
          registry =
              (unbind (cluster_context ctx) now s.registry (route_key req) entry.session_id).0;
          world = w';
        },
        tt,
      )

  unfoldable pub look_up_route : PushRequest → Op W (Cluster.Result (Option RouteEntry))
  look_up_route req s =
      let (w, ctx) = out.done s.world in
      let (w', now) = out.now w in
      let (r, found) = lookup_route (cluster_context ctx) now s.registry (route_key req) in
      (record s { registry = r; world = w' }, found)

  unfoldable pub drop_stale_route : Bool → PushRequest → RouteEntry → Op W (Unit {0})
  drop_stale_route stale req entry = if stale then drop_route req entry else pure tt

  -- `pushCluster` from the call of the dispatcher on.
  unfoldable pub dispatch_to_peer : PushRequest → RouteEntry → Try W PushResponse
  dispatch_to_peer req entry = do
    answer ← get_world (
        out.push_peer entry
          (peer_push_request_from_push_request req svc.gateway_node entry.session_id))
    elim answer [
      | ok resp ↦ return (peer_response svc req entry resp)
      | err e ↦ do
        _ ← drop_stale_route (is_stale_peer_route_error e) req entry
        fail (
            new_delivery_failure (bytes "peer_dispatch") (classify_peer_failure_code e) entry
              (peer_dispatch e))
    ]

  -- `pushCluster` with the route it found.
  unfoldable pub push_along : PushRequest → RouteEntry → Try W PushResponse
  push_along req entry =
      if is_local_or_empty svc entry
      then (do
        _ ← drop_route req entry
        fail (
            new_delivery_failure (bytes "route_lookup") (bytes "stale_route") entry
              Error.session_not_found))
      else if not svc.peer_dispatcher
      then fail (
          new_delivery_failure (bytes "peer_dispatch") (bytes "peer_not_configured") entry
            peer_not_configured)
      else dispatch_to_peer req entry

  -- `pushCluster` with the answer of the registry.
  unfoldable pub push_found : PushRequest → Cluster.Result (Option RouteEntry) → Try W PushResponse
  push_found req (Cluster.err e) = fail (
      new_delivery_failure (bytes "route_lookup") (bytes "registry_error") (no_route req)
        (Requests.registry e))
  push_found req (Cluster.ok none) = fail (
      new_delivery_failure (bytes "route_lookup") (bytes "route_not_found") (no_route req)
        Error.session_not_found)
  push_found req (Cluster.ok (some entry)) = push_along req entry

  unfoldable pub push_cluster : PushRequest → Try W PushResponse
  push_cluster req =
      if not svc.online_registry
      then fail (
          new_delivery_failure (bytes "session_lookup") (bytes "session_not_found") (no_route req)
            Error.session_not_found)
      else look_up_route req >>= push_found req

  unfoldable pub deliver_online : PushRequest → Try W PushResponse
  deliver_online req = do
    answer ← push_online req
    elim answer [
      | ok resp ↦ return resp
      | err e ↦ if is_session_not_found e then push_cluster req else fail e
    ]

  -- `PushPeer`
  unfoldable pub push_peer : PeerPushRequest → Text → Try W PeerPushResponse
  push_peer req gateway_node = do
    ctx ← get_world out.done
    checked ctx (elim (validate_peer_push_request req) [
      | err e ↦ fail e
      | ok _ ↦
          push_online_with_session (push_request_from_peer_push_request req) req.session_id
          >>? λ resp. return (record {
            code = bytes "ok";
            reason = [];
            delivery_state = bytes "sent";
            gateway_node = gateway_node;
            client_id = resp.client_id;
            device_id = resp.device_id;
            session_id = resp.session_id;
            conn_id = resp.conn_id;
            message_id = resp.message_id;
            trace_id = resp.trace_id;
          })
    ])
