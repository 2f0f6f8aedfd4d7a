-- ===== src/Cluster/Order.antt =====
-- The order of `sortRouteEntries`, and the registry's well-formedness.
use z_courier.Base.{
  ◌≡◌, sym, Bool, true, false, not, some, Text, text_eq, text_eq_iff, lookup, if◌then◌else◌, arith,
  ap, ◌∙◌, IsOrder, text_lt_irrefl, text_lt_trans, text_lt_total, text_lt,
}
use z_courier.Cluster.{RouteEntry, MemoryRegistry, key_of, route_before, route_key_Eq}

-- One comparison of `sortRouteEntries`, with what the next ones say.
abbrev text_before : Text → Text → Bool → Bool
text_before a b rest = if not (text_eq a b) then text_lt a b else rest

text_before_trans :
    (a b c : Text) (p q r : Bool)
    → text_before a b p ≡ true
    → text_before b c q ≡ true
    → (p ≡ true → q ≡ true → r ≡ true)
    → text_before a c r ≡ true
text_before_trans a b c p q r h k next = ground (
  arith,
  text_lt_trans a b c,
  text_lt_irrefl a,
  text_eq_iff a b,
  text_eq_iff b c,
  text_eq_iff a c,
)

abbrev pub IsRoute : MemoryRegistry → RouteEntry → Type 0
IsRoute r e = lookup (key_of e) r.entries ≡ some e

route_before_irrefl : (x : RouteEntry) → route_before x x ≡ false
route_before_irrefl x = ground (
  arith,
  text_lt_irrefl x.client_id,
  text_lt_irrefl x.device_id,
  text_lt_irrefl x.gateway_node,
  text_lt_irrefl x.session_id,
)

route_before_total :
    (x y : RouteEntry) → route_before x y ≡ false → route_before y x ≡ false → key_of x ≡ key_of y
route_before_total x y h k = ground (
  arith,
  text_lt_total x.client_id y.client_id,
  text_lt_total x.device_id y.device_id,
  text_eq_iff x.client_id y.client_id,
  text_eq_iff x.device_id y.device_id,
  text_eq_iff y.client_id x.client_id,
  text_eq_iff y.device_id x.device_id,
)

route_before_trans :
    (x y z : RouteEntry)
    → route_before x y ≡ true
    → route_before y z ≡ true
    → route_before x z ≡ true
route_before_trans x y z h k =
    text_before_trans x.client_id y.client_id z.client_id _ _ _ h k (λ h1 k1.
      text_before_trans x.device_id y.device_id z.device_id _ _ _ h1 k1 (λ h2 k2.
        text_before_trans x.gateway_node y.gateway_node z.gateway_node _ _ _ h2 k2
          (text_lt_trans x.session_id y.session_id z.session_id)))

-- Two entries of a registry that are equal for the order are one.
pub route_before-IsOrder : (r : MemoryRegistry) → IsOrder route_before (IsRoute r)
route_before-IsOrder r = record {
  irrefl = route_before_irrefl;
  trans = route_before_trans;
  total = λ x y p q h k.
      let same : some x ≡ some y =
        sym p ∙ ap (λ key. lookup key r.entries) (route_before_total x y h k) ∙ q in
      ground (arith, same);
}
