-- ===== src/Downlink/Submission/Acknowledgement.antt =====
-- `Ack` on all its branches.
use z_courier.Base.{
  ◌≡◌, refl, inl, inr, ◌⊎◌, Bool, Bool-cases, true, false, not, Option, Option-cases, none, some,
  Text, bytes, is_empty, text_eq, text_eq_iff, text_Eq, lookup, lookup-insert_self, if◌then◌else◌,
  arith,
}
use z_courier.Base.Results.{ok, err}
use z_courier.Downlink.Message.{Message, Time, delivered}
use z_courier.Downlink.Store
use z_courier.Downlink.Store.{put_message, ContextError, Context, MemoryStore, get}
use z_courier.Downlink.Marks.{or_now, mark_delivered, delivered_message}
use z_courier.Downlink.Requests.{Error}
use z_courier.Downlink.Service.{Service}
use z_courier.Downlink.System.{
  Outside, System, Try, pure, fail, ◌>>=◌, ◌>>?◌, or_fail, get_world, on_store, from_store,
}
use z_courier.Downlink.Submission.{get_message, ack_found, ack, is_owned}

-- An error leaves the store; a message in answer means that the one stored under the id is the
-- device's, and delivered.
abbrev pub Settles : {W : Type 0} → Text → Text → Text → Try W Message → System W → Type 0
Settles id client_id device_id f s =
    ((e : Error) × ((f s).1 ≡ err e) × ((f s).0.store ≡ s.store))
    ⊎ ((m m' : Message) × ((f s).1 ≡ ok m)
        × (lookup id (f s).0.store.messages ≡ some m')
        × (m'.status ≡ delivered)
        × (m'.client_id ≡ client_id)
        × (m'.device_id ≡ device_id))

mark_delivered_over :
    (e : ContextError) (id client_id device_id : Text) (now at : Time) (s : MemoryStore)
    → mark_delivered (some e) now id client_id device_id at s ≡ (s, Store.err (Store.context e))
unfolding mark_delivered
mark_delivered_over e id client_id device_id now at s = refl

mark_delivered_owned :
    (id client_id device_id : Text) (now at : Time) (m : Message) (s : MemoryStore)
    → lookup id s.messages ≡ some m
    → is_owned client_id device_id m ≡ true
    → mark_delivered none now id client_id device_id at s
      ≡ (put_message id (delivered_message (or_now at now) m) s, Store.ok tt)
unfolding mark_delivered
mark_delivered_owned id client_id device_id now at m s found owned =
    let c : text_eq m.client_id client_id ≡ true = ground (arith, owned) in
    let d : text_eq m.device_id device_id ≡ true = ground (arith, owned) in
    rw (found, mark_delivered, c, d) refl

module _ {W : Type 0} (id client_id device_id : Text) where
  fail-Settles : (e : Error) (s : System W) → Settles id client_id device_id (fail e) s
  unfolding pure
  fail-Settles e s = inl (e, refl, refl)

  if-Settles :
      (b : Bool) (f g : Try W Message) (s : System W)
      → Settles id client_id device_id f s
      → Settles id client_id device_id g s
      → Settles id client_id device_id (if b then f else g) s
  if-Settles true f g s h k = h
  if-Settles false f g s h k = k

  module _ (out : Outside W) (svc : Service) where
    ack_found-Settles :
        (found : Option Message) (s : System W)
        → lookup id s.store.messages ≡ found
        → Settles id client_id device_id (ack_found out svc id client_id device_id found) s
    unfolding ack_found get_world on_store delivered_message ◌>>=◌ ◌>>?◌ or_fail pure
    ack_found-Settles none s found = inl (_, refl, refl)
    ack_found-Settles (some m) s found = elim (Bool-cases (is_owned client_id device_id m)) [
      | inr other ↦ rw other (inl (_, refl, refl))
      | inl owned ↦ elim (Option-cases (out.done (out.now s.world).0).1) [
        | inr (e, over) ↦
            rw (owned, over, mark_delivered_over e id client_id device_id _ _ s.store)
              (inl (_, refl, refl))
        | inl fine ↦
            let c : text_eq m.client_id client_id ≡ true = ground (arith, owned) in
            let d : text_eq m.device_id device_id ≡ true = ground (arith, owned) in
            rw (owned, fine, mark_delivered_owned id client_id device_id _ _ m s.store found owned)
              (inr (
                _,
                _,
                refl,
                lookup-insert_self id _ s.store.messages,
                refl,
                (text_eq_iff m.client_id client_id).0 c,
                (text_eq_iff m.device_id device_id).0 d,
              ))
      ]
    ]

    read_Settles :
        (s : System W)
        → Settles id client_id device_id
            (get_message out svc id >>? ack_found out svc id client_id device_id)
            s
    unfolding get_message from_store get ◌>>=◌ ◌>>?◌ or_fail pure
    read_Settles s = elim (Option-cases (out.done s.world).1) [
      | inr (e, over) ↦ rw over (inl (_, refl, refl))
      | inl fine ↦ rw fine (ack_found-Settles _ (record s { world = _ }) refl)
    ]

    -- Every acknowledgement: if it gives an error, the store is as it was; if it gives a message, the message stored under the id it
    -- names is delivered and belongs to the client and the device that acknowledge. So no device
    -- acknowledges the message of another one.
    pub ack-Settles :
        (code : Text) (s : System W)
        → Settles id client_id device_id
            (ack out svc client_id device_id (record { message_id = id; code = code }))
            s
    unfolding ack
    ack-Settles code s = if-Settles (not svc.has_store) _ _ s (fail-Settles _ s) (
        if-Settles (is_empty client_id) _ _ s (fail-Settles _ s) (
          if-Settles (is_empty device_id) _ _ s (fail-Settles _ s) (
            if-Settles (is_empty id) _ _ s (fail-Settles _ s) (
              if-Settles (not (text_eq code (bytes "delivered"))) _ _ s (fail-Settles _ s)
                (read_Settles s)))))
