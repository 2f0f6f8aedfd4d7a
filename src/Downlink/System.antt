-- ===== src/Downlink/System.antt =====
-- internal/downlink/service.go: what the service works on. The store, the sessions and the routes are
-- this repository's; clock, contexts, connections, peers, publisher and random numbers are in a
-- `world`, which the record `Outside` reads and moves. An operation of the service is a state change
-- with a result; a Go error is one of the two results.
use z_courier.Base.{ℕ, ℤ, Option, none, some, Text}
use z_courier.Base.Results.{Result, ok, err}
use z_courier.Session.{Manager}
use z_courier.Cluster.{RouteEntry, MemoryRegistry}
use z_courier.Downlink.Message.{Time, Multiplier, TerminalEvent}
use z_courier.Downlink.Store
use z_courier.Downlink.Store.{Context, MemoryStore}
use z_courier.Downlink.Requests.{
  PeerPushRequest, PeerPushResponse, PeerError, Error, store, context,
}

-- `send_msg` gives the text of its error; so do `connection`, which is none for a connection that
-- is there, and `publish`.
pub record Outside (W : Type 0) : Type 0 where
  pub now : W → W × Time
  pub done : W → W × Context
  pub new_message_id : W → W × Text
  pub connection : ℕ → W → W × Option Text
  pub send_msg : ℕ → ℕ → Text → W → W × Option Text
  pub push_peer : RouteEntry → PeerPushRequest → W → W × Result PeerError PeerPushResponse
  pub publish : TerminalEvent → W → W × Option Text
  pub jitter : ℕ → W → W × ℤ
  pub error_text : Error → Text
  pub unix_milli : Time → ℕ
  pub float : ℕ → Multiplier
  pub times : Multiplier → Multiplier → Multiplier
  pub pow : Multiplier → ℕ → Multiplier

pub record System (W : Type 0) : Type 0 where
  pub store : MemoryStore
  pub sessions : Manager
  pub registry : MemoryRegistry
  pub world : W

abbrev pub Op : Type 0 → Type 0 → Type 0
Op W A = System W → System W × A

-- An operation that may fail.
abbrev pub Try : Type 0 → Type 0 → Type 0
Try W A = Op W (Result Error A)

-- A method of the store; its error is wrapped as `ErrStore`.
abbrev pub wrap : {A : Type 0} → Store.Result A → Result Error A
wrap (Store.ok a) = ok a
wrap (Store.err e) = err (store e)

module _ {W : Type 0} where
  unfoldable pub pure : {A : Type 0} → A → Op W A
  pure a s = (s, a)

  infixl 5 ◌>>=◌ ◌>>?◌
  unfoldable pub ◌>>=◌ : {A B : Type 0} → Op W A → (A → Op W B) → Op W B
  (m >>= f) s = let (s', a) = m s in f a s'

  unfoldable pub or_fail : {A B : Type 0} → (A → Try W B) → Result Error A → Try W B
  or_fail f (ok a) = f a
  or_fail f (err e) = pure (err e)

  -- `if err != nil { return err }` between two operations.
  unfoldable pub ◌>>?◌ : {A B : Type 0} → Try W A → (A → Try W B) → Try W B
  m >>? f = m >>= or_fail f

  unfoldable pub get_world : {A : Type 0} → (W → W × A) → Op W A
  get_world f s = let (w, a) = f s.world in (record s { world = w }, a)

  -- `return` and `return nil, err`
  abbrev pub return : {A : Type 0} → A → Try W A
  return a = pure (ok a)

  abbrev pub fail : {A : Type 0} → Error → Try W A
  fail e = pure (err e)

  -- `if err != nil { … }`, with what is done in either case.
  unfoldable pub on_result :
      {A B : Type 0} → (Error → Op W B) → (A → Op W B) → Result Error A → Op W B
  on_result f g (err e) = f e
  on_result f g (ok a) = g a

  unfoldable pub on_option : {A B : Type 0} → Op W B → (A → Op W B) → Option A → Op W B
  on_option m f none = m
  on_option m f (some a) = f a

  -- `if err := ctx.Err(); err != nil { return …, err }`
  unfoldable pub checked : {A : Type 0} → Context → Try W A → Try W A
  checked none m = m
  checked (some e) m = fail (context e)

  module _ (out : Outside W) where
    -- The store's method reads its context and its clock.
    unfoldable pub on_store :
        {A : Type 0} → (Context → Time → MemoryStore → MemoryStore × Store.Result A) → Try W A
    on_store f s =
        let (w, ctx) = out.done s.world in
        let (w', now) = out.now w in
        let (st, r) = f ctx now s.store in (record s { store = st; world = w' }, wrap r)

    -- A method that only reads the store.
    unfoldable pub from_store :
        {A : Type 0} → (Context → Time → MemoryStore → Store.Result A) → Try W A
    from_store f s =
        let (w, ctx) = out.done s.world in
        let (w', now) = out.now w in (record s { world = w' }, wrap (f ctx now s.store))
