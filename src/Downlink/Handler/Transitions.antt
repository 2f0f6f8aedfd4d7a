-- ===== src/Downlink/Handler/Transitions.antt =====
-- `Requeue`, `RequeueFailed`, `Discard` and `Ack` as traces: the first three read the message before
-- they call the store, and what they read permits the call.
use z_courier.Base.{
  ◌≡◌, refl, ap, Bool, true, false, not, ◌||◌, Bool-cases, Option, Option-cases, none, some, Text,
  bytes, is_empty, text_eq, text_Eq, lookup, inl, inr, if◌then◌else◌, arith,
}
use z_courier.Downlink.Message.{
  Message, Time, delivered, failed, discarded, status_eq, QueueCapacity, TerminalTransition,
}
use z_courier.Downlink.Store.{Context, MemoryStore, get, capacity_enabled}
use z_courier.Downlink.Marks.{requeue, requeue_with_capacity}
use z_courier.Downlink.Terminal
use z_courier.Downlink.Calls.{Call, delivers, requeues, discards, step}
use z_courier.Downlink.Requests.{ClientAckRequest}
use z_courier.Downlink.Service.{Service, terminal_transition}
use z_courier.Downlink.System.{
  Outside, System, Try, pure, get_world, on_store, from_store, or_fail, ◌>>=◌, ◌>>?◌,
}
use z_courier.Downlink.Trace.{
  Reaches, here, Reaches-trans, or_fail-IsTraced, on_store-Reaches, IsTraced, pure-IsTraced,
  get_world-IsTraced, >>=-IsTraced, >>?-IsTraced, if-IsTraced, on_option-IsTraced,
  on_result-IsTraced, on_store-IsTraced, from_store-IsTraced,
}
use z_courier.Downlink.Handler.{stored_with, can_requeue, can_discard}
use z_courier.Downlink.Submission.{
  get_message, message_status, reread, requeue_stored, requeue_found, requeue_message,
  requeue_failed_found, requeue_failed, discard_stored, discard_found, discard_message, ack_found,
  ack, is_owned,
}

stored_with_found :
    (p : Message → Bool) (id : Text) (m : Message) (s : MemoryStore)
    → lookup id s.messages ≡ some m
    → p m ≡ true
    → stored_with p id s ≡ true
stored_with_found p id m s found h = rw (found, stored_with) h

module _ {W : Type 0} (sha256 : Text → Text) (may : MemoryStore → Call → Bool) (out : Outside W)
    (svc : Service) where
  get_message-IsTraced : (id : Text) → IsTraced sha256 may (get_message out svc id)
  unfolding get_message
  get_message-IsTraced id = from_store-IsTraced sha256 may out _

  pub message_status-IsTraced : (id : Text) → IsTraced sha256 may (message_status out svc id)
  unfolding message_status
  message_status-IsTraced id =
      if-IsTraced sha256 may (is_empty id) _ _ (pure-IsTraced sha256 may _) (
        if-IsTraced sha256 may (not svc.has_store) _ _ (pure-IsTraced sha256 may _) (
          >>?-IsTraced sha256 may _ _ (get_message-IsTraced id) λ found.
            on_option-IsTraced sha256 may _ _ found (pure-IsTraced sha256 may _)
              λ m. pure-IsTraced sha256 may _))

  reread-IsTraced : (id : Text) → IsTraced sha256 may (reread out svc id)
  unfolding reread
  reread-IsTraced id = >>?-IsTraced sha256 may _ _ (get_message-IsTraced id) λ found.
      on_option-IsTraced sha256 may _ _ found (pure-IsTraced sha256 may _)
        λ m. pure-IsTraced sha256 may _

  -- The rule for an operation that goes on with what it read under an id.
  get_message-Reaches :
      (id : Text) (f : Option Message → Try W Message) (s : System W)
      → ((w : W)
          → Reaches sha256 may s.store
              (f (lookup id s.store.messages) (record s { world = w })).0.store)
      → Reaches sha256 may s.store ((get_message out svc id >>? f) s).0.store
  unfolding get_message from_store ◌>>?◌ ◌>>=◌ or_fail pure get
  get_message-Reaches id f s h = elim (Option-cases (out.done s.world).1) [
    | inl fine ↦ rw fine (h _)
    | inr (e, done) ↦ rw done here
  ]

  module _ (id : Text)
      (can_requeue_here : (s : MemoryStore) (ctx : Context) (now : Time) (at : Time)
          (q : QueueCapacity)
        → stored_with can_requeue id s ≡ true
        → may s (requeues ctx now id at q) ≡ true) where
    requeue_stored-Reaches :
        (s : System W)
        → stored_with can_requeue id s.store ≡ true
        → Reaches sha256 may s.store (requeue_stored out svc id s).0.store
    unfolding requeue_stored step requeue on_store get_world pure ◌>>=◌
    requeue_stored-Reaches s h =
        on_store-Reaches sha256 may out
          (λ ctx now.
            if capacity_enabled svc.queue_capacity
            then requeue_with_capacity ctx now id (out.now s.world).1 svc.queue_capacity
            else requeue ctx now id (out.now s.world).1)
          (λ ctx now. requeues ctx now id (out.now s.world).1 (
            if capacity_enabled svc.queue_capacity
            then svc.queue_capacity
            else record { max_pending_global = 0; max_pending_per_device = 0 }))
          (record s { world = (out.now s.world).0 })
          (λ ctx now. can_requeue_here s.store ctx now _ _ h) λ ctx now. ground arith

    requeue_found-Reaches :
        (m : Message) (s : System W)
        → lookup id s.store.messages ≡ some m
        → Reaches sha256 may s.store (requeue_found out svc id (some m) s).0.store
    unfolding requeue_found ◌>>?◌ ◌>>=◌
    requeue_found-Reaches m s found =
        elim (Bool-cases (status_eq m.status delivered || status_eq m.status discarded)) [
          | inl settled ↦ rw settled ((pure-IsTraced sha256 may _).traced s)
          | inr free ↦ rw free (
              Reaches-trans sha256 may
                (requeue_stored-Reaches s
                  (stored_with_found can_requeue id m s.store found (ap not free)))
                ((or_fail-IsTraced sha256 may _ (requeue_stored out svc id s).1
                    λ done. reread-IsTraced id).traced
                  (requeue_stored out svc id s).0))
        ]

    requeue_read-Reaches :
        (found : Option Message) (s : System W)
        → lookup id s.store.messages ≡ found
        → Reaches sha256 may s.store (requeue_found out svc id found s).0.store
    unfolding requeue_found
    requeue_read-Reaches none s found = (pure-IsTraced sha256 may _).traced s
    requeue_read-Reaches (some m) s found = requeue_found-Reaches m s found

    pub requeue_message-IsTraced : IsTraced sha256 may (requeue_message out svc id)
    unfolding requeue_message
    requeue_message-IsTraced =
        if-IsTraced sha256 may (not svc.has_store) _ _ (pure-IsTraced sha256 may _) (
          if-IsTraced sha256 may (is_empty id) _ _ (pure-IsTraced sha256 may _) (record {
            traced = λ s.
                get_message-Reaches id (requeue_found out svc id) s
                  λ w. requeue_read-Reaches _ (record s { world = w }) refl;
          }))

    requeue_failed_found-IsTraced :
        (m : Message) → IsTraced sha256 may (requeue_failed_found out svc id m)
    unfolding requeue_failed_found
    requeue_failed_found-IsTraced m =
        if-IsTraced sha256 may (not (status_eq m.status failed)) _ _ (pure-IsTraced sha256 may _) (
          >>=-IsTraced sha256 may _ _ (requeue_message-IsTraced) λ r.
            on_result-IsTraced sha256 may _ _ r (λ e. pure-IsTraced sha256 may _)
              λ requeued. pure-IsTraced sha256 may _)

    pub requeue_failed-IsTraced : IsTraced sha256 may (requeue_failed out svc id)
    unfolding requeue_failed
    requeue_failed-IsTraced = >>=-IsTraced sha256 may _ _ (message_status-IsTraced id) λ r.
        on_result-IsTraced sha256 may _ _ r (λ e. pure-IsTraced sha256 may _)
          λ found.
            on_option-IsTraced sha256 may _ _ found (pure-IsTraced sha256 may _)
              requeue_failed_found-IsTraced

  module _ (id : Text)
      (can_discard_here : (s : MemoryStore) (ctx : Context) (now : Time) (reason : Text)
          (t : TerminalTransition)
        → stored_with can_discard id s ≡ true
        → may s (discards ctx now id reason t) ≡ true) where
    discard_stored-Reaches :
        (reason : Text) (s : System W)
        → stored_with can_discard id s.store ≡ true
        → Reaches sha256 may s.store (discard_stored out svc id reason s).0.store
    unfolding discard_stored step get_world ◌>>=◌
    discard_stored-Reaches reason s h =
        on_store-Reaches sha256 may out
          (λ ctx now. Terminal.discard ctx now id reason (
            terminal_transition svc Terminal.terminal_reason_operator_discard (out.now s.world).1
              false))
          (λ ctx now. discards ctx now id reason (
            terminal_transition svc Terminal.terminal_reason_operator_discard (out.now s.world).1
              false))
          (record s { world = (out.now s.world).0 })
          (λ ctx now. can_discard_here s.store ctx now reason _ h) λ ctx now. refl

    discard_found-Reaches :
        (reason : Text) (m : Message) (s : System W)
        → lookup id s.store.messages ≡ some m
        → Reaches sha256 may s.store (discard_found out svc id reason (some m) s).0.store
    unfolding discard_found ◌>>?◌ ◌>>=◌
    discard_found-Reaches reason m s found = elim (Bool-cases (status_eq m.status delivered)) [
      | inl settled ↦ rw settled ((pure-IsTraced sha256 may _).traced s)
      | inr free ↦ rw free (
          Reaches-trans sha256 may
            (discard_stored-Reaches reason s
              (stored_with_found can_discard id m s.store found (ap not free)))
            ((or_fail-IsTraced sha256 may _ (discard_stored out svc id reason s).1
                λ done. reread-IsTraced id).traced
              (discard_stored out svc id reason s).0))
    ]

    discard_read-Reaches :
        (reason : Text) (found : Option Message) (s : System W)
        → lookup id s.store.messages ≡ found
        → Reaches sha256 may s.store (discard_found out svc id reason found s).0.store
    unfolding discard_found
    discard_read-Reaches reason none s found = (pure-IsTraced sha256 may _).traced s
    discard_read-Reaches reason (some m) s found = discard_found-Reaches reason m s found

    pub discard_message-IsTraced :
        (reason : Text) → IsTraced sha256 may (discard_message out svc id reason)
    unfolding discard_message
    discard_message-IsTraced reason =
        if-IsTraced sha256 may (not svc.has_store) _ _ (pure-IsTraced sha256 may _) (
          if-IsTraced sha256 may (is_empty id) _ _ (pure-IsTraced sha256 may _) (record {
            traced = λ s.
                get_message-Reaches id (discard_found out svc id reason) s
                  λ w. discard_read-Reaches reason _ (record s { world = w }) refl;
          }))

  module _ (client_id device_id : Text) (req : ClientAckRequest)
      (can_deliver : (s : MemoryStore) (ctx : Context) (now at : Time)
        → may s (delivers ctx now req.message_id client_id device_id at) ≡ true) where
    ack_found-IsTraced :
        (found : Option Message)
        → IsTraced sha256 may (ack_found out svc req.message_id client_id device_id found)
    unfolding ack_found step
    ack_found-IsTraced none = pure-IsTraced sha256 may _
    ack_found-IsTraced (some m) =
        if-IsTraced sha256 may (not (is_owned client_id device_id m)) _ _
          (pure-IsTraced sha256 may _)
          (>>=-IsTraced sha256 may _ _ (get_world-IsTraced sha256 may _) λ at.
            >>?-IsTraced sha256 may _ _
              (on_store-IsTraced sha256 may out _
                (λ ctx now. delivers ctx now req.message_id client_id device_id at)
                (λ ctx now st. can_deliver st ctx now at) λ ctx now st. refl)
              λ done. pure-IsTraced sha256 may _)

    pub ack-IsTraced : IsTraced sha256 may (ack out svc client_id device_id req)
    unfolding ack
    ack-IsTraced = if-IsTraced sha256 may (not svc.has_store) _ _ (pure-IsTraced sha256 may _) (
        if-IsTraced sha256 may (is_empty client_id) _ _ (pure-IsTraced sha256 may _) (
          if-IsTraced sha256 may (is_empty device_id) _ _ (pure-IsTraced sha256 may _) (
            if-IsTraced sha256 may (is_empty req.message_id) _ _ (pure-IsTraced sha256 may _) (
              if-IsTraced sha256 may (not (text_eq req.code (bytes "delivered"))) _ _
                (pure-IsTraced sha256 may _)
                (>>?-IsTraced sha256 may _ _ (get_message-IsTraced req.message_id)
                  ack_found-IsTraced)))))
