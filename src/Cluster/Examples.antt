-- ===== src/Cluster/Examples.antt =====
-- The theorems on the registry at a registry with one route.
use z_courier.Base.{
  ℕ, ◌+◌, ◌<◌, ltb, nat_eq, ◌≡◌, refl, false, ◌&&◌, none, some, List, [], ◌∷◌, bytes, text_eq,
  arith, ◌==◌, if◌then◌else◌,
}
use z_courier.Cluster.{
  RouteEntry, RouteListFilter, RouteListResult, MemoryRegistry, ok, key_of, validate_route_key,
  validate_route_entry, normalize_entry, new_memory_registry, bind, unbind, lookup_route, touch,
  list, route_key_Eq,
}
use z_courier.Cluster.Routes.{
  route, written, is_ok, may_bind, touched, route-bind, route-unbind, lookup_route-route,
  touch-route,
}
use z_courier.Cluster.KeepAlive.{touch_all, InTime, last_write, keep_alive}
use z_courier.Cluster.Calls.{Call, bind_call, run, step, IsValid, run-new_memory_registry-IsValid}
use z_courier.Cluster.Listing.{IsListing, list-IsListing}

abbrev entry : RouteEntry
entry = record {
  client_id = bytes "c1";
  device_id = bytes "phone";
  session_id = bytes "s1";
  gateway_node = bytes "gateway-1";
  internal_addr = [];
  token_id = [];
  updated_at = 0;
  expires_at = 0;
}

abbrev everything : RouteListFilter
everything = record { session_id = []; client_id = []; device_id = []; limit = 10 }

abbrev calls : List Call
calls = bind_call none 100 entry ∷ []

abbrev registry : MemoryRegistry
registry = run (new_memory_registry 30) calls

run-new_memory_registry-IsValid_example : IsValid registry
run-new_memory_registry-IsValid_example = run-new_memory_registry-IsValid 30 calls

registry-IsValid : IsValid registry
registry-IsValid = run-new_memory_registry-IsValid 30 calls

is_open : registry.closed ≡ false
unfolding run step bind validate_route_entry validate_route_key new_memory_registry normalize_entry
is_open = refl

valid_entry : validate_route_entry entry ≡ none
unfolding validate_route_entry validate_route_key
valid_entry = refl

valid_key : validate_route_key (key_of entry) ≡ none
unfolding validate_route_key
valid_key = refl

route-bind_example :
    (is_ok (bind none 110 registry entry).1 ≡ may_bind none registry entry)
    × (route (bind none 110 registry entry).0 120 (key_of entry) ≡ (
        if is_ok (bind none 110 registry entry).1 && key_of entry == key_of entry
        then written registry 110 entry 120
        else route registry 120 (key_of entry)))
route-bind_example = route-bind none registry 110 entry 120 (key_of entry)

route-unbind_example :
    route (unbind none 110 registry (key_of entry) (bytes "s1")).0 120 (key_of entry)
    ≡ (elim (route registry 120 (key_of entry)) [
      | none ↦ none
      | some e ↦
          if key_of entry == key_of entry && text_eq e.session_id (bytes "s1") then none else some e
    ])
route-unbind_example =
    route-unbind registry 110 (key_of entry) (bytes "s1") 120 (key_of entry) valid_key refl is_open
      (omega arith)

lookup_route-route_example :
    ((lookup_route none 131 registry (key_of entry)).1 ≡ ok (route registry 131 (key_of entry)))
    × (route (lookup_route none 131 registry (key_of entry)).0 132 (key_of entry)
        ≡ route registry 132 (key_of entry))
lookup_route-route_example =
    lookup_route-route registry 131 (key_of entry) 132 (key_of entry) valid_key is_open
      (omega arith)

touch-route_example :
    ((touch none 110 111 registry entry).1
      ≡ (touched registry 111 entry 120 (route registry 110 (key_of entry))).1)
    × (route (touch none 110 111 registry entry).0 120 (key_of entry) ≡ (
        if key_of entry == key_of entry
        then (touched registry 111 entry 120 (route registry 110 (key_of entry))).0
        else route registry 120 (key_of entry)))
touch-route_example =
    touch-route registry 110 111 entry 120 (key_of entry) valid_entry is_open (omega arith)

abbrev clock : List (ℕ × ℕ)
clock = (120, 121) ∷ (150, 150) ∷ []

new_registry_usable : (new_memory_registry 30).closed ≡ false
unfolding new_memory_registry
new_registry_usable = refl

new_registry_positive : 0 < (new_memory_registry 30).ttl
unfolding new_memory_registry
new_registry_positive = omega arith

in_time : InTime (new_memory_registry 30).ttl 100 clock
unfolding new_memory_registry
in_time = omega arith

keep_alive_example :
    route
      (touch_all entry clock (bind none 100 (new_memory_registry 30) entry).0)
      170
      (key_of entry)
    ≡ (if ltb 170 (last_write 100 clock + (new_memory_registry 30).ttl)
        then some (record entry {
          updated_at = if nat_eq entry.updated_at 0 then last_write 100 clock else entry.updated_at;
          expires_at = last_write 100 clock + (new_memory_registry 30).ttl;
        })
        else none)
keep_alive_example =
    keep_alive (new_memory_registry 30) 100 170 entry clock valid_entry new_registry_usable
      new_registry_positive in_time

list-IsListing_example :
    (l : RouteListResult) × ((list none 110 registry everything).1 ≡ ok l)
    × IsListing registry 110 everything l
    × (route (list none 110 registry everything).0 120 (key_of entry)
        ≡ route registry 120 (key_of entry))
list-IsListing_example =
    list-IsListing registry 110 everything 120 (key_of entry) registry-IsValid is_open (omega arith)
