-- ===== src/Session.antt =====
-- internal/session/manager.go: the sessions of one gateway node and their three indexes. The maps
-- hold pointers to sessions that no caller gets (each result is a clone), so a session is a value.
pub mod Remove
pub mod Bind
mod Examples
use z_courier.Base.{
  ℕ, ◌≡◌, Bool, true, false, ◌&&◌, not, Option, none, some, List, [], ◌∷◌, Text, text_eq, text_Eq,
  nat_Eq, Map, lookup, insert, delete, values, filter, length, nat_eq, is_empty, if◌then◌else◌,
}

pub record Session : Type 0 where
  pub session_id : Text
  pub conn_id : ℕ
  pub client_id : Text
  pub device_id : Text
  pub token_id : Text
  pub gateway_node : Text
  pub connected_at : ℕ
  pub last_seen_at : ℕ

pub record BindInput : Type 0 where
  pub session_id : Text
  pub conn_id : ℕ
  pub client_id : Text
  pub device_id : Text
  pub token_id : Text
  pub gateway_node : Text
  pub now : ℕ

pub record BindResult : Type 0 where
  pub session : Session
  pub replaced : Option Session
  pub is_created : Bool

pub data Error : Type 0 where
  invalid_conn_id empty_client_id empty_device_id not_found : Error

pub data Result {ℓ} (A : Type ℓ) : Type ℓ where
  ok : A → Result A
  err : Error → Result A

pub record Manager : Type 0 where
  pub by_conn_id : Map ℕ Session
  pub conn_id_by_session_id : Map Text ℕ
  pub conn_id_by_client_pair : Map Text (Map Text ℕ)

unfoldable pub new_manager : Manager
new_manager = record { by_conn_id = []; conn_id_by_session_id = []; conn_id_by_client_pair = [] }

-- The index of pairs after `delete(deviceIndex, found.DeviceID)` and, where that leaves no device,
-- `delete(m.connIDByClientPair, found.ClientID)`.
unfoldable pub delete_pair : Text → Text → Map Text (Map Text ℕ) → Map Text (Map Text ℕ)
delete_pair client_id device_id pairs = elim (lookup client_id pairs) [
  | none ↦ pairs
  | some devices ↦
      let rest = delete device_id devices in
      if nat_eq (length rest) 0 then delete client_id pairs else insert client_id rest pairs
]

-- The index of pairs after the last writes of `Bind`.
unfoldable pub insert_pair : Text → Text → ℕ → Map Text (Map Text ℕ) → Map Text (Map Text ℕ)
insert_pair client_id device_id conn_id pairs = elim (lookup client_id pairs) [
  | none ↦ insert client_id (insert device_id conn_id []) pairs
  | some devices ↦ insert client_id (insert device_id conn_id devices) pairs
]

-- `deviceIndex, ok := m.connIDByClientPair[clientID]; connID, ok := deviceIndex[deviceID]`
unfoldable pub lookup_pair : Text → Text → Map Text (Map Text ℕ) → Option ℕ
lookup_pair client_id device_id pairs = elim (lookup client_id pairs) [
  | none ↦ none
  | some devices ↦ lookup device_id devices
]

abbrev pub without : ℕ → Session → Manager → Manager
without conn_id found m = record {
  by_conn_id = delete conn_id m.by_conn_id;
  conn_id_by_session_id = delete found.session_id m.conn_id_by_session_id;
  conn_id_by_client_pair = delete_pair found.client_id found.device_id m.conn_id_by_client_pair;
}

-- `removeConnLocked`
unfoldable pub remove_conn : ℕ → Manager → Manager × Option Session
remove_conn conn_id m = elim (lookup conn_id m.by_conn_id) [
  | none ↦ (m, none)
  | some found ↦ (without conn_id found m, some found)
]

abbrev pub is_same_device : BindInput → Session → Bool
is_same_device input x = text_eq x.client_id input.client_id && text_eq x.device_id input.device_id

-- The connection that holds the device, if it is another one.
unfoldable pub remove_replaced : BindInput → Manager → Manager × Option Session
remove_replaced input m =
    elim (lookup_pair input.client_id input.device_id m.conn_id_by_client_pair) [
      | none ↦ (m, none)
      | some old ↦ if nat_eq old input.conn_id then (m, none) else remove_conn old m
    ]

abbrev pub with_session : Session → Manager → Manager
with_session x m = record {
  by_conn_id = insert x.conn_id x m.by_conn_id;
  conn_id_by_session_id = insert x.session_id x.conn_id m.conn_id_by_session_id;
  conn_id_by_client_pair = insert_pair x.client_id x.device_id x.conn_id m.conn_id_by_client_pair;
}

unfoldable pub new_session : Text → ℕ → BindInput → Session
new_session session_id now input = record {
  session_id = session_id;
  conn_id = input.conn_id;
  client_id = input.client_id;
  device_id = input.device_id;
  token_id = input.token_id;
  gateway_node = input.gateway_node;
  connected_at = now;
  last_seen_at = now;
}

-- The rest of `Bind` for a connection that is not bound to the device yet.
unfoldable pub bind_new : Text → ℕ → BindInput → Manager → Manager × BindResult
bind_new session_id now input m =
    let x = new_session session_id now input in
    let cleared = (remove_conn input.conn_id m).0 in
    let freed = remove_replaced input cleared in
    (with_session x freed.0, record { session = x; replaced = freed.1; is_created = true })

abbrev pub refreshed : ℕ → BindInput → Session → Session
refreshed now input x = record x {
  token_id = input.token_id;
  gateway_node = input.gateway_node;
  last_seen_at = now;
}

-- `Bind` after its checks of the input.
unfoldable pub bind_checked : Text → ℕ → BindInput → Manager → Manager × BindResult
bind_checked session_id now input m = elim (lookup input.conn_id m.by_conn_id) [
  | none ↦ bind_new session_id now input m
  | some x ↦
      if is_same_device input x
      then (
        record m { by_conn_id = insert input.conn_id (refreshed now input x) m.by_conn_id },
        record { session = refreshed now input x; replaced = none; is_created = false },
      )
      else bind_new session_id now input m
]

abbrev pub id_of : Text → BindInput → Text
id_of fresh input = if is_empty input.session_id then fresh else input.session_id

-- `fresh` is what `NewID` gives, `clock` what `time.Now` gives.
unfoldable pub bind : Text → ℕ → BindInput → Manager → Manager × Result BindResult
bind fresh clock input m =
    let now = if nat_eq input.now 0 then clock else input.now in
    let (m', made) = bind_checked (id_of fresh input) now input m in
    if nat_eq input.conn_id 0
    then (m, err invalid_conn_id)
    else if is_empty input.client_id
    then (m, err empty_client_id)
    else if is_empty input.device_id
    then (m, err empty_device_id)
    else (m', ok made)

unfoldable pub touch_by_conn_id : ℕ → ℕ → ℕ → Manager → Manager × Result Session
touch_by_conn_id clock conn_id now m =
    let at = if nat_eq now 0 then clock else now in
    elim (lookup conn_id m.by_conn_id) [
      | none ↦ (m, err not_found)
      | some x ↦
          let y : Session = record x { last_seen_at = at } in
          (record m { by_conn_id = insert conn_id y m.by_conn_id }, ok y)
    ]

unfoldable pub unbind_by_conn_id : ℕ → Manager → Manager × Option Session
unbind_by_conn_id conn_id m = remove_conn conn_id m

abbrev pub get_by_conn_id : ℕ → Manager → Option Session
get_by_conn_id conn_id m = lookup conn_id m.by_conn_id

-- A found connection gives its session; the outer result is the source's `ok`.
unfoldable pub get_by_session_id : Text → Manager → Option (Option Session)
get_by_session_id session_id m = elim (lookup session_id m.conn_id_by_session_id) [
  | none ↦ none
  | some conn_id ↦ some (lookup conn_id m.by_conn_id)
]

unfoldable pub get_by_client_device : Text → Text → Manager → Option (Option Session)
get_by_client_device client_id device_id m =
    elim (lookup_pair client_id device_id m.conn_id_by_client_pair) [
      | none ↦ none
      | some conn_id ↦ some (lookup conn_id m.by_conn_id)
    ]

-- The three indexes tell the same: each session stands under its connection, its session id and
-- its pair of client and device, and nothing else stands in an index.
pub record IsValid (m : Manager) : Type 0 where
  pub conn : (c : ℕ) (x : Session) → lookup c m.by_conn_id ≡ some x → x.conn_id ≡ c
  pub session :
      (c : ℕ) (x : Session)
      → lookup c m.by_conn_id ≡ some x
      → lookup x.session_id m.conn_id_by_session_id ≡ some c
  pub pair :
      (c : ℕ) (x : Session)
      → lookup c m.by_conn_id ≡ some x
      → lookup_pair x.client_id x.device_id m.conn_id_by_client_pair ≡ some c
  pub of_session :
      (sid : Text) (c : ℕ)
      → lookup sid m.conn_id_by_session_id ≡ some c
      → (x : Session) × (lookup c m.by_conn_id ≡ some x) × (x.session_id ≡ sid)
  pub of_pair :
      (client device : Text) (c : ℕ)
      → lookup_pair client device m.conn_id_by_client_pair ≡ some c
      → (x : Session) × (lookup c m.by_conn_id ≡ some x)
        × (x.client_id ≡ client)
        × (x.device_id ≡ device)
