-- ===== src/Cluster.antt =====
-- internal/cluster: the registry of online routes of one process (registry.go, memory_registry.go).
-- A method takes what `ctx.Err()` gives, the readings of its clock and the registry, and returns the
-- registry beside its result; the mutex makes it one step. A time is 0 for the source's zero time.
pub mod Routes
pub mod Order
pub mod Calls
pub mod Listing
pub mod KeepAlive
mod Examples
use z_courier.Base.{
  ℕ, ◌+◌, Bool, true, false, ◌&&◌, ◌||◌, not, Option, none, some, List, [], ◌∷◌, Text, text_eq,
  text_lt, text_eq_iff, text_Eq, Eq, Map, lookup, insert, delete, filter, take, length, sort, any,
  map, nat_eq, ltb, is_empty, if◌then◌else◌, ◌≡◌, ◌↔◌, arith,
}

pub record RouteKey : Type 0 where
  pub client_id : Text
  pub device_id : Text

abbrev pub route_key_eq : RouteKey → RouteKey → Bool
route_key_eq a b = text_eq a.client_id b.client_id && text_eq a.device_id b.device_id

pub route_key_eq_iff : (a b : RouteKey) → (route_key_eq a b ≡ true) ↔ (a ≡ b)
route_key_eq_iff a b =
    ground (arith, text_eq_iff a.client_id b.client_id, text_eq_iff a.device_id b.device_id)

instance abbrev pub route_key_Eq : Eq RouteKey
route_key_Eq = record { beq = route_key_eq; beq_iff = route_key_eq_iff }

pub record RouteEntry : Type 0 where
  pub client_id : Text
  pub device_id : Text
  pub session_id : Text
  pub gateway_node : Text
  pub internal_addr : Text
  pub token_id : Text
  pub updated_at : ℕ
  pub expires_at : ℕ

pub record RouteListFilter : Type 0 where
  pub session_id : Text
  pub client_id : Text
  pub device_id : Text
  pub limit : ℕ

pub record RouteListResult : Type 0 where
  pub total : ℕ
  pub unique_clients : ℕ
  pub routes : List RouteEntry

pub data ContextError : Type 0 where
  canceled deadline_exceeded : ContextError

abbrev pub Context : Type 0
Context = Option ContextError

pub data Error : Type 0 where
  context : ContextError → Error
  closed invalid_route_key invalid_route_entry route_not_found session_mismatch : Error

pub data Result {ℓ} (A : Type ℓ) : Type ℓ where
  ok : A → Result A
  err : Error → Result A

abbrev pub key_of : RouteEntry → RouteKey
key_of e = record { client_id = e.client_id; device_id = e.device_id }

abbrev pub is_expired : RouteEntry → ℕ → Bool
is_expired e now = not (nat_eq e.expires_at 0) && not (ltb now e.expires_at)

unfoldable pub validate_route_key : RouteKey → Option Error
validate_route_key key =
    if is_empty key.client_id || is_empty key.device_id then some invalid_route_key else none

unfoldable pub validate_route_entry : RouteEntry → Option Error
validate_route_entry entry = elim (validate_route_key (key_of entry)) [
  | some e ↦ some e
  | none ↦
      if is_empty entry.session_id || is_empty entry.gateway_node
      then some invalid_route_entry
      else none
]

unfoldable pub route_entry_matches_filter : RouteEntry → RouteListFilter → Bool
route_entry_matches_filter entry f =
    if not (is_empty f.session_id) && not (text_eq entry.session_id f.session_id)
    then false
    else if not (is_empty f.client_id) && not (text_eq entry.client_id f.client_id)
    then false
    else if not (is_empty f.device_id) && not (text_eq entry.device_id f.device_id)
    then false
    else true

-- The `less` of `sortRouteEntries`.
abbrev pub route_before : RouteEntry → RouteEntry → Bool
route_before left right =
    if not (text_eq left.client_id right.client_id)
    then text_lt left.client_id right.client_id
    else if not (text_eq left.device_id right.device_id)
    then text_lt left.device_id right.device_id
    else if not (text_eq left.gateway_node right.gateway_node)
    then text_lt left.gateway_node right.gateway_node
    else text_lt left.session_id right.session_id

-- The keys of `seen` after the loop of `uniqueRouteClientCount`.
unfoldable pub seen_clients : List RouteEntry → Map Text Unit → Map Text Unit
seen_clients [] seen = seen
seen_clients (e ∷ entries) seen =
    seen_clients entries (if is_empty e.client_id then seen else insert e.client_id tt seen)

abbrev pub unique_route_client_count : List RouteEntry → ℕ
unique_route_client_count entries = length (seen_clients entries [])

pub record MemoryRegistry : Type 0 where
  pub entries : Map RouteKey RouteEntry
  pub ttl : ℕ
  pub closed : Bool

unfoldable pub new_memory_registry : ℕ → MemoryRegistry
new_memory_registry ttl = record { entries = []; ttl = ttl; closed = false }

unfoldable pub normalize_entry : MemoryRegistry → RouteEntry → ℕ → RouteEntry
normalize_entry r entry now =
    let updated : RouteEntry = record entry {
      updated_at = if nat_eq entry.updated_at 0 then now else entry.updated_at;
    } in
    if ltb 0 r.ttl then record updated { expires_at = now + r.ttl } else updated

abbrev pub Outcome : Type 0 → Type 0
Outcome A = MemoryRegistry × Result A

unfoldable pub bind : Context → ℕ → MemoryRegistry → RouteEntry → Outcome Unit
bind (some e) now r entry = (r, err (context e))
bind none now r entry = elim (validate_route_entry entry) [
  | some e ↦ (r, err e)
  | none ↦
      if r.closed
      then (r, err closed)
      else let entry' = normalize_entry r entry now in
        (record r { entries = insert (key_of entry') entry' r.entries }, ok tt)
]

unfoldable pub unbind : Context → ℕ → MemoryRegistry → RouteKey → Text → Outcome Unit
unbind (some e) now r key session_id = (r, err (context e))
unbind none now r key session_id = elim (validate_route_key key) [
  | some e ↦ (r, err e)
  | none ↦
      if is_empty session_id
      then (r, err invalid_route_entry)
      else if r.closed
      then (r, err closed)
      else elim (lookup key r.entries) [
        | none ↦ (r, ok tt)
        | some entry ↦
            if is_expired entry now
            then (record r { entries = delete key r.entries }, ok tt)
            else if not (text_eq entry.session_id session_id)
            then (r, ok tt)
            else (record r { entries = delete key r.entries }, ok tt)
      ]
]

-- `Lookup`; the flag and the entry are an option.
unfoldable pub lookup_route : Context → ℕ → MemoryRegistry → RouteKey → Outcome (Option RouteEntry)
lookup_route (some e) now r key = (r, err (context e))
lookup_route none now r key = elim (validate_route_key key) [
  | some e ↦ (r, err e)
  | none ↦ if r.closed then (r, err closed) else elim (lookup key r.entries) [
    | none ↦ (r, ok none)
    | some entry ↦
        if is_expired entry now
        then (record r { entries = delete key r.entries }, ok none)
        else (r, ok (some entry))
  ]
]

-- `Touch` reads its clock twice: for the entry it finds, and for the one it writes.
unfoldable pub touch : Context → ℕ → ℕ → MemoryRegistry → RouteEntry → Outcome Unit
touch (some e) checked now r entry = (r, err (context e))
touch none checked now r entry = elim (validate_route_entry entry) [
  | some e ↦ (r, err e)
  | none ↦ if r.closed then (r, err closed) else elim (lookup (key_of entry) r.entries) [
    | none ↦ (r, err route_not_found)
    | some current ↦
        if is_expired current checked
        then (record r { entries = delete (key_of entry) r.entries }, err route_not_found)
        else if not (text_eq current.session_id entry.session_id)
        then (r, err session_mismatch)
        else let entry' = normalize_entry r entry now in
          (record r { entries = insert (key_of entry) entry' r.entries }, ok tt)
  ]
]

-- The loop of `List` over the entries, of which it deletes the expired ones: the entries left, and
-- the routes in the order of the loop.
unfoldable pub list_loop :
    ℕ
    → RouteListFilter
    → Map RouteKey RouteEntry
    → Map RouteKey RouteEntry
    → Map RouteKey RouteEntry × List RouteEntry
list_loop now f [] entries = (entries, [])
list_loop now f ((key, entry) ∷ m) entries =
    let expired = is_expired entry now in
    let (left, routes) = list_loop now f m (if expired then delete key entries else entries) in
    if expired
    then (left, routes)
    else if not (route_entry_matches_filter entry f)
    then (left, routes)
    else (left, entry ∷ routes)

unfoldable pub list : Context → ℕ → MemoryRegistry → RouteListFilter → Outcome RouteListResult
list (some e) now r f = (r, err (context e))
list none now r f =
    if r.closed
    then (r, err closed)
    else let (entries, found) = list_loop now f r.entries r.entries in
      let routes = sort route_before found in
      let total = length routes in
      (
        record r { entries = entries },
        ok (record {
          total = total;
          unique_clients = unique_route_client_count routes;
          routes = if ltb 0 f.limit && ltb f.limit total then take f.limit routes else routes;
        }),
      )

unfoldable pub ping : Context → MemoryRegistry → Result {0} Unit
ping (some e) r = err (context e)
ping none r = if r.closed then err closed else ok tt

unfoldable pub close : MemoryRegistry → Outcome Unit
close r = (record r { closed = true; entries = [] }, ok tt)
