-- ===== src/Downlink/Handler/Deliveries.antt =====
-- The attempts to deliver: none of them calls the store.
use z_courier.Base.{refl, Option, none, some, [], Text, arith}
use z_courier.Session.{Session}
use z_courier.Cluster
use z_courier.Cluster.{RouteEntry}
use z_courier.Downlink.Requests.{PushRequest, PeerPushRequest}
use z_courier.Downlink.Service.{Service}
use z_courier.Downlink.System.{Outside, pure, get_world, ◌>>=◌, ◌>>?◌, or_fail, checked}
use z_courier.Downlink.Trace.{KeepsStore}
use z_courier.Downlink.Delivery.{
  send_packet, push_online_with_session, push_online, drop_route, drop_stale_route, look_up_route,
  dispatch_to_peer, push_along, push_found, push_cluster, deliver_online, push_peer,
}

module _ {W : Type 0} (out : Outside W) (svc : Service) where
  send_packet-KeepsStore :
      (req : PushRequest) (found : Session) → KeepsStore (send_packet out svc req found)
  unfolding send_packet ◌>>=◌ ◌>>?◌ or_fail pure get_world checked
  send_packet-KeepsStore req found s = ground arith

  push_online_with_session-KeepsStore :
      (req : PushRequest) (expected : Text)
      → KeepsStore (push_online_with_session out svc req expected)
  unfolding push_online_with_session ◌>>=◌ ◌>>?◌ or_fail pure get_world checked
  push_online_with_session-KeepsStore req expected s = grind (arith, send_packet-KeepsStore)

  dispatch_to_peer-KeepsStore :
      (req : PushRequest) (entry : RouteEntry) → KeepsStore (dispatch_to_peer out svc req entry)
  unfolding dispatch_to_peer drop_stale_route drop_route ◌>>=◌ ◌>>?◌ or_fail pure get_world checked
  dispatch_to_peer-KeepsStore req entry s = ground arith

  push_along-KeepsStore :
      (req : PushRequest) (entry : RouteEntry) → KeepsStore (push_along out svc req entry)
  unfolding push_along drop_route ◌>>=◌ ◌>>?◌ or_fail pure get_world checked
  push_along-KeepsStore req entry s = ground (arith, dispatch_to_peer-KeepsStore req entry s)

  look_up_route-KeepsStore : (req : PushRequest) → KeepsStore (look_up_route out svc req)
  unfolding look_up_route ◌>>=◌ ◌>>?◌ or_fail pure get_world checked
  look_up_route-KeepsStore req s = ground arith

  push_found-KeepsStore :
      (req : PushRequest) (found : Cluster.Result (Option RouteEntry))
      → KeepsStore (push_found out svc req found)
  unfolding push_found ◌>>=◌ ◌>>?◌ or_fail pure get_world checked
  push_found-KeepsStore req (Cluster.err e) s = refl
  push_found-KeepsStore req (Cluster.ok none) s = refl
  push_found-KeepsStore req (Cluster.ok (some entry)) s = push_along-KeepsStore req entry s

  push_cluster-KeepsStore : (req : PushRequest) → KeepsStore (push_cluster out svc req)
  unfolding push_cluster ◌>>=◌ ◌>>?◌ or_fail pure get_world checked
  push_cluster-KeepsStore req s = ground (
    arith,
    look_up_route-KeepsStore req s,
    push_found-KeepsStore req (look_up_route out svc req s).1 (look_up_route out svc req s).0,
  )

  pub deliver_online-KeepsStore : (req : PushRequest) → KeepsStore (deliver_online out svc req)
  unfolding deliver_online push_online ◌>>=◌ ◌>>?◌ or_fail pure get_world checked
  deliver_online-KeepsStore req s = ground (
    arith,
    push_online_with_session-KeepsStore req [] s,
    push_cluster-KeepsStore req (push_online_with_session out svc req [] s).0,
  )

  pub push_peer-KeepsStore :
      (req : PeerPushRequest) (node : Text) → KeepsStore (push_peer out svc req node)
  unfolding push_peer ◌>>=◌ ◌>>?◌ or_fail pure get_world checked
  push_peer-KeepsStore req node s = grind (arith, push_online_with_session-KeepsStore)
