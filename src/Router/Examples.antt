-- ===== src/Router/Examples.antt =====
-- The theorem on the routes at concrete routes, over a world that counts the calls.
use z_courier.Base.{ℕ, ◌+◌, ◌≡◌, ◌⊎◌, none, some, List, [], ◌∷◌, bytes}
use z_courier.Protocol.{Packet}
use z_courier.Router.{Forwarder, Route, resolve_route, forward, forward_along, route_not_found}
use z_courier.Router.Routes.{Takes, resolve_route-forward}

abbrev counted : Forwarder ℕ
counted p w = (w + 1, none, none)

abbrev routes : List (Route ℕ)
routes =
    record { name = bytes "unset"; msg_id_min = 1; msg_id_max = 99; forwarder = none }
    ∷ record { name = bytes "chat"; msg_id_min = 7; msg_id_max = 0; forwarder = some counted }
    ∷ []

abbrev hello : Packet
hello = record {
  version = 1;
  flags = 0;
  msg_id = 7;
  seq = 0;
  timestamp = 0;
  client_id = [];
  device_id = [];
  session_id = [];
  message_id = [];
  trace_id = [];
  token = [];
  body = bytes "hello";
}

resolve_route-forward_example :
    ((resolve_route routes 7 ≡ none)
      × (forward routes (some hello) 3 ≡ (3, none, some route_not_found)))
    ⊎ ((r : Route ℕ) × (f : Forwarder ℕ) × Takes hello r routes
        × (r.forwarder ≡ some f)
        × (resolve_route routes 7 ≡ some r.name)
        × (forward routes (some hello) 3 ≡ forward_along r.name f hello 3))
resolve_route-forward_example = resolve_route-forward routes hello 3
