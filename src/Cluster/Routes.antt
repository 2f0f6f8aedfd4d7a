-- ===== src/Cluster/Routes.antt =====
-- The routes of an open registry as they can be seen from outside: a route until it expires.
use z_courier.Base.{
  ℕ, ◌+◌, ◌≡◌, ◌≤◌, refl, inl, inr, Bool, true, false, not, nat_eq, ◌||◌, ◌&&◌, Option, none, some,
  Text, text_eq, Map, lookup, insert, delete, lookup-insert, lookup-delete, ltb, is_empty,
  if◌then◌else◌, arith, Bool-cases, Option-cases, ◌==◌,
}
use z_courier.Cluster.{
  Context, RouteKey, RouteEntry, MemoryRegistry, Result, ok, err, route_not_found, session_mismatch,
  key_of, is_expired, validate_route_key, validate_route_entry, normalize_entry, bind, unbind,
  lookup_route, touch, route_key_Eq,
}

-- An entry at a time: nothing once it has expired.
abbrev pub at_time : ℕ → Option RouteEntry → Option RouteEntry
at_time t none = none
at_time t (some e) = if is_expired e t then none else some e

-- The route of a key at a time, as `Lookup` answers it.
unfoldable pub route : MemoryRegistry → ℕ → RouteKey → Option RouteEntry
route r t key = at_time t (lookup key r.entries)

pub at_time-delete :
    (t : ℕ) (key k : RouteKey) (m : Map RouteKey RouteEntry) (e : RouteEntry)
    → lookup key m ≡ some e
    → is_expired e t ≡ true
    → at_time t (lookup k (delete key m)) ≡ at_time t (lookup k m)
at_time-delete t key k m e found gone =
    ground (arith, lookup-delete key k m, route_key_Eq.beq_iff key k)

pub expired_later :
    (e : RouteEntry) (now t : ℕ) → now ≤ t → is_expired e now ≡ true → is_expired e t ≡ true
expired_later e now t h gone = ground arith

pub key_of-normalize_entry :
    (r : MemoryRegistry) (entry : RouteEntry) (now : ℕ)
    → key_of (normalize_entry r entry now) ≡ key_of entry
unfolding normalize_entry
key_of-normalize_entry r entry now = elim (Bool-cases (ltb 0 r.ttl)) [
  | inl limited ↦ rw limited refl
  | inr forever ↦ rw forever refl
]

-- What the route of an entry that is written at `now` shows at a time: with a lifetime of the
-- registry, the entry until that is over, and otherwise the entry by its own expiry.
abbrev pub written : MemoryRegistry → ℕ → RouteEntry → ℕ → Option RouteEntry
written r now entry t =
    let updated : RouteEntry = record entry {
      updated_at = if nat_eq entry.updated_at 0 then now else entry.updated_at;
    } in
    if nat_eq r.ttl 0
    then if nat_eq entry.expires_at 0 || ltb t entry.expires_at then some updated else none
    else if ltb t (now + r.ttl)
    then some (record updated { expires_at = now + r.ttl })
    else none

pub at_time-normalize_entry :
    (r : MemoryRegistry) (entry : RouteEntry) (now t : ℕ)
    → at_time t (some (normalize_entry r entry now)) ≡ written r now entry t
unfolding normalize_entry
at_time-normalize_entry r entry now t = ground arith

abbrev pub is_ok : Result {0} Unit → Bool
is_ok (ok _) = true
is_ok (err _) = false

-- A context that is not done, and what a registry wants of an entry.
abbrev pub may_bind : Context → MemoryRegistry → RouteEntry → Bool
may_bind (some e) r entry = false
may_bind none r entry = not (
    r.closed
    || (is_empty entry.client_id
        || (is_empty entry.device_id
            || (is_empty entry.session_id || is_empty entry.gateway_node))))

-- `Bind` succeeds exactly with a context that is not done, on an open registry, for an entry with
-- its client, device, session and node named. If it does, its key has at every time what the entry
-- shows then, with its expiry by the registry's lifetime; if not, its key keeps its route. Every
-- other route is kept in both cases.
pub route-bind :
    (ctx : Context) (r : MemoryRegistry) (now : ℕ) (entry : RouteEntry) (t : ℕ) (k : RouteKey)
    → (is_ok (bind ctx now r entry).1 ≡ may_bind ctx r entry)
      × (route (bind ctx now r entry).0 t k ≡ (
          if is_ok (bind ctx now r entry).1 && key_of entry == k
          then written r now entry t
          else route r t k))
unfolding route bind validate_route_entry validate_route_key
route-bind (some e) r now entry t k = (refl, refl)
route-bind none r now entry t k = (
  ground arith,
  ground (
    arith,
    key_of-normalize_entry r entry now,
    at_time-normalize_entry r entry now t,
    lookup-insert (key_of entry) k (normalize_entry r entry now) r.entries,
  ),
)

-- On an open registry, `Unbind` with a valid key and a session ends the route of the key, from
-- its time on, when that is held by the session, and changes no route otherwise.
pub route-unbind :
    (r : MemoryRegistry) (now : ℕ) (key : RouteKey) (session_id : Text) (t : ℕ) (k : RouteKey)
    → validate_route_key key ≡ none
    → is_empty session_id ≡ false
    → r.closed ≡ false
    → now ≤ t
    → route (unbind none now r key session_id).0 t k ≡ (elim (route r t k) [
      | none ↦ none
      | some e ↦ if key == k && text_eq e.session_id session_id then none else some e
    ])
unfolding route unbind
route-unbind r now key session_id t k valid named usable later =
    elim (Option-cases (lookup key r.entries)) [
      | inl absent ↦
          let kept : (unbind none now r key session_id).0 ≡ r = ground arith in
          rw kept ground (arith, route_key_Eq.beq_iff key k)
      | inr (e, found) ↦ elim (Bool-cases (is_expired e now)) [
        | inl gone ↦
            let result : (unbind none now r key session_id).0
                ≡ record r { entries = delete key r.entries } =
              ground arith in
            rw (result, lookup-delete key k r.entries) ground
              (arith, route_key_Eq.beq_iff key k, expired_later e now t later gone)
        | inr live ↦ elim (Bool-cases (text_eq e.session_id session_id)) [
          | inl same ↦
              let result : (unbind none now r key session_id).0
                  ≡ record r { entries = delete key r.entries } =
                ground arith in
              rw (result, lookup-delete key k r.entries) ground (arith, route_key_Eq.beq_iff key k)
          | inr other ↦
              let kept : (unbind none now r key session_id).0 ≡ r = ground arith in
              rw kept ground (arith, route_key_Eq.beq_iff key k)
        ]
      ]
    ]

-- On an open registry, `Lookup` of a valid key answers the route of the key at its time, and
-- changes no route from then on.
pub lookup_route-route :
    (r : MemoryRegistry) (now : ℕ) (key : RouteKey) (t : ℕ) (k : RouteKey)
    → validate_route_key key ≡ none
    → r.closed ≡ false
    → now ≤ t
    → ((lookup_route none now r key).1 ≡ ok (route r now key))
      × (route (lookup_route none now r key).0 t k ≡ route r t k)
unfolding route lookup_route
lookup_route-route r now key t k valid usable later = elim (Option-cases (lookup key r.entries)) [
  | inl absent ↦ (ground arith, ground arith)
  | inr (e, found) ↦ elim (Bool-cases (is_expired e now)) [
    | inl gone ↦
        let result : (lookup_route none now r key).0 ≡ record r { entries = delete key r.entries } =
          ground arith in
        (
          ground arith,
          rw result (at_time-delete t key k r.entries e found (expired_later e now t later gone)),
        )
    | inr live ↦
        let kept : (lookup_route none now r key).0 ≡ r = ground arith in
        (ground arith, rw kept refl)
  ]
]

-- What `Touch` is to answer by the route that it finds at the time of its check, and what is to
-- show of that route at a time `t`.
pub touched :
    MemoryRegistry → ℕ → RouteEntry → ℕ → Option RouteEntry → Option RouteEntry × Result {0} Unit
touched r now entry t none = (none, err route_not_found)
touched r now entry t (some current) =
    if text_eq current.session_id entry.session_id
    then (written r now entry t, ok tt)
    else (at_time t (some current), err session_mismatch)

-- `Touch` of a valid entry on an open registry answers by the route that its key has when it
-- checks, and leaves there, from that time on, the entry with its expiry renewed by the registry's
-- lifetime if the session is the same, and what was there if not; no other route changes.
pub touch-route :
    (r : MemoryRegistry) (checked now : ℕ) (entry : RouteEntry) (t : ℕ) (k : RouteKey)
    → validate_route_entry entry ≡ none
    → r.closed ≡ false
    → checked ≤ t
    → ((touch none checked now r entry).1
        ≡ (touched r now entry t (route r checked (key_of entry))).1)
      × (route (touch none checked now r entry).0 t k ≡ (
          if key_of entry == k then (touched r now entry t (route r checked k)).0 else route r t k))
unfolding route touch touched
touch-route r checked now entry t k valid usable later =
    elim (Option-cases (lookup (key_of entry) r.entries)) [
      | inl absent ↦
          let kept : (touch none checked now r entry).0 ≡ r = ground arith in
          (ground arith, rw kept ground (arith, route_key_Eq.beq_iff (key_of entry) k))
      | inr (e, found) ↦ elim (Bool-cases (is_expired e checked)) [
        | inl gone ↦
            let result : (touch none checked now r entry).0
                ≡ record r { entries = delete (key_of entry) r.entries } =
              ground arith in
            (
              ground arith,
              rw (result, lookup-delete (key_of entry) k r.entries) ground
                  (arith, route_key_Eq.beq_iff (key_of entry) k),
            )
        | inr live ↦ elim (Bool-cases (text_eq e.session_id entry.session_id)) [
          | inl same ↦
              let result : (touch none checked now r entry).0 ≡ record r {
                entries = insert (key_of entry) (normalize_entry r entry now) r.entries;
              } =
                ground arith in
              (
                ground arith,
                rw (result, lookup-insert (key_of entry) k (normalize_entry r entry now) r.entries)
                    ground
                    (
                      arith,
                      route_key_Eq.beq_iff (key_of entry) k,
                      at_time-normalize_entry r entry now t,
                    ),
              )
          | inr other ↦
              let kept : (touch none checked now r entry).0 ≡ r = ground arith in
              (ground arith, rw kept ground (arith, route_key_Eq.beq_iff (key_of entry) k))
        ]
      ]
    ]
