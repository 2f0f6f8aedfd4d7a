-- ===== src/Router/Routes.antt =====
-- `ResolveRoute` tells the route that `Forward` takes.
use z_courier.Base.{
  ◌≡◌, refl, inl, inr, ◌⊎◌, Bool-cases, true, false, ◌&&◌, Option-cases, none, some, List, [], ◌∷◌,
}
use z_courier.Protocol.{Packet}
use z_courier.Router.{
  route_not_found, Forwarder, Route, matches, is_set, resolve_route, forward_along, forward_loop,
  forward,
}

-- The first route that matches the packet and has a forwarder.
pub data Takes {W : Type 0} (p : Packet) (r : Route W) : List (Route W) → Type 0 where
  here : {routes : List (Route W)} → matches r p.msg_id ≡ true → Takes p r (r ∷ routes)
  later :
      {x : Route W} {routes : List (Route W)}
      → (matches x p.msg_id && is_set x.forwarder) ≡ false
      → Takes p r routes
      → Takes p r (x ∷ routes)

-- A packet finds no route: both say so, and the world is as it was; or both take the first route that
-- matches and has a forwarder: `ResolveRoute` tells its name, and `Forward` calls its forwarder once,
-- on the world as it is, and no other one, and gives its result, or an empty one, under that name
-- and with its error.
pub resolve_route-forward :
    {W : Type 0} (routes : List (Route W)) (p : Packet) (w : W)
    → ((resolve_route routes p.msg_id ≡ none)
        × (forward routes (some p) w ≡ (w, none, some route_not_found)))
      ⊎ ((r : Route W) × (f : Forwarder W) × Takes p r routes
          × (r.forwarder ≡ some f)
          × (resolve_route routes p.msg_id ≡ some r.name)
          × (forward routes (some p) w ≡ forward_along r.name f p w))
unfolding forward forward_loop resolve_route
resolve_route-forward [] p w = inl (refl, refl)
resolve_route-forward (x ∷ routes) p w = elim (Bool-cases (matches x p.msg_id)) [
  | inr other ↦ elim (resolve_route-forward routes p w) [
    | inl (unresolved, lost) ↦ inl (rw other unresolved, rw other lost)
    | inr (r, f, taken, has, named, sent) ↦
        inr (r, f, later (rw other refl) taken, has, rw other named, rw other sent)
  ]
  | inl hit ↦ elim (Option-cases x.forwarder) [
    | inr (f, has) ↦ inr (x, f, here hit, has, rw (hit, has) refl, rw (hit, has) refl)
    | inl unset ↦ elim (resolve_route-forward routes p w) [
      | inl (unresolved, lost) ↦ inl (rw (hit, unset) unresolved, rw (hit, unset) lost)
      | inr (r, f, taken, has, named, sent) ↦ inr (
        r,
        f,
        later (rw (hit, unset) refl) taken,
        has,
        rw (hit, unset) named,
        rw (hit, unset) sent,
      )
    ]
  ]
]
