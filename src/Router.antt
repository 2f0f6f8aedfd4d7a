-- ===== src/Router.antt =====
-- internal/router/engine.go: which route a packet takes. A forwarder is an interface: a function on
-- a world, which gives a result or none, and an error or none.
pub mod Routes
mod Examples
use z_courier.Base.{
  ℕ, Bool, true, false, ◌&&◌, ◌||◌, not, Option, none, some, List, [], ◌∷◌, Text, nat_eq, leb,
  if◌then◌else◌,
}
use z_courier.Protocol.{Packet}

pub record ForwardResult : Type 0 where
  pub route_name : Text
  pub target_type : Text
  pub status : Text
  pub status_code : ℕ
  pub endpoint : Text
  pub attempts : ℕ
  pub max_attempts : ℕ

abbrev pub zero_result : ForwardResult
zero_result = record {
  route_name = [];
  target_type = [];
  status = [];
  status_code = 0;
  endpoint = [];
  attempts = 0;
  max_attempts = 0;
}

-- `ErrRouteNotFound`, or the error of a forwarder.
pub data Error : Type 0 where
  route_not_found : Error
  forwarder_failed : Text → Error

abbrev pub named_result : Text → Option ForwardResult → ForwardResult
named_result name none = record zero_result { route_name = name }
named_result name (some result) = record result { route_name = name }

abbrev pub forward_error : Option Text → Option Error
forward_error none = none
forward_error (some text) = some (forwarder_failed text)

abbrev pub Forwarder : Type 0 → Type 0
Forwarder W = Packet → W → W × Option ForwardResult × Option Text

pub record Route (W : Type 0) : Type 0 where
  pub name : Text
  pub msg_id_min : ℕ
  pub msg_id_max : ℕ
  pub forwarder : Option (Forwarder W)

module _ {W : Type 0} where
  unfoldable pub matches : Route W → ℕ → Bool
  matches r msg_id =
      if nat_eq r.msg_id_min 0 && nat_eq r.msg_id_max 0
      then false
      else if nat_eq r.msg_id_max 0
      then nat_eq msg_id r.msg_id_min
      else leb r.msg_id_min msg_id && leb msg_id r.msg_id_max

  abbrev pub is_set : Option (Forwarder W) → Bool
  is_set none = false
  is_set (some _) = true

  -- The loop of `ResolveRoute`; the name and the flag are an option.
  unfoldable pub resolve_route : List (Route W) → ℕ → Option Text
  resolve_route [] msg_id = none
  resolve_route (r ∷ routes) msg_id =
      let rest = resolve_route routes msg_id in
      if matches r msg_id && is_set r.forwarder then some r.name else rest

  -- What `Forward` does with the route it takes.
  abbrev pub forward_along :
      Text → Forwarder W → Packet → W → W × Option ForwardResult × Option Error
  forward_along name f p w =
      let (w', result, failed) = f p w in
      (w', some (named_result name result), forward_error failed)

  -- The loop of `Forward`, which passes over what does not match or has no forwarder.
  unfoldable pub forward_loop :
      List (Route W) → Packet → W → W × Option ForwardResult × Option Error
  forward_loop [] p w = (w, none, some route_not_found)
  forward_loop (r ∷ routes) p w =
      let rest = forward_loop routes p w in
      if not (matches r p.msg_id)
      then rest
      else elim r.forwarder [ none ↦ rest | some f ↦ forward_along r.name f p w ]

  unfoldable pub forward :
      List (Route W) → Option Packet → W → W × Option ForwardResult × Option Error
  forward routes none w = (w, none, some route_not_found)
  forward routes (some p) w = forward_loop routes p w
