-- ===== src/Downlink/Handler/Refinement.antt =====
-- The service against the calls that it may make: what each request does to the store, and what that
-- keeps of a delivered message.
use z_courier.Base.{
  ◌≡◌, refl, ap, ◌∙◌, subst, sym, Bool, true, false, not, ◌&&◌, some, List, [], ◌∷◌, Text, text_Eq,
  text_eq, text_eq_iff, lookup, Bool-cases, All, inl, inr, arith,
}
use z_courier.Downlink.Message.{Message, delivered}
use z_courier.Downlink.Store.{MemoryStore}
use z_courier.Downlink.Calls.{Call, step, IsValid, spares, Fate, requeues, discards}
use z_courier.Downlink.Calls.LifeCycle.{step-Fate, step-IsValid}
use z_courier.Downlink.Calls.Delivered.{StaysDelivered, spared-Fate, self-Kept, Kept-trans}
use z_courier.Downlink.Service.{Service}
use z_courier.Downlink.System.{Outside, System}
use z_courier.Downlink.Delivery.{push_peer}
use z_courier.Downlink.Trace.{Reaches, here, next, KeepsStore-IsTraced}
use z_courier.Downlink.Handler.{
  Event, serves, calls, handle_event, Request, pushes, pushes_peer, asks, requeues_message,
  requeues_failed, discards_message, acks, retries_due, publishes_due, flushes, cleans, handle,
  handle_all, may_call, stored_with, can_requeue, can_discard,
}
use z_courier.Downlink.Handler.Deliveries.{push_peer-KeepsStore}
use z_courier.Downlink.Handler.Submissions.{push-IsTraced}
use z_courier.Downlink.Handler.Transitions.{
  message_status-IsTraced, requeue_message-IsTraced, requeue_failed-IsTraced,
  discard_message-IsTraced, ack-IsTraced,
}
use z_courier.Downlink.Handler.Rounds.{
  retry_due-IsTraced, flush_client_device-IsTraced, publish_terminal_due-IsTraced,
  cleanup_expired-IsTraced,
}

text_eq_refl : (t : Text) → text_eq t t ≡ true
text_eq_refl t = (text_eq_iff t t).1 refl

abbrev pub is_cleanup : Request → Bool
is_cleanup (cleans _) = true
is_cleanup _ = false

-- The events that may not end the delivered state of message `id`, nor the message itself.
abbrev pub keeps : Text → Event → Bool
keeps id (serves r) = not (is_cleanup r)
keeps id (calls c) = spares id c

other_id :
    (p : Message → Bool) (j id' id : Text) (s : MemoryStore) (m : Message)
    → (text_eq j id' && stored_with p id' s) ≡ true
    → lookup id s.messages ≡ some m
    → p m ≡ false
    → not (text_eq j id) ≡ true
other_id p j id' id s m may found refused = elim (Bool-cases (text_eq j id)) [
  | inr other ↦ ap not other
  | inl named ↦
      let same : text_eq j id' ≡ true = ground (arith, may) in
      let there : lookup id' s.messages ≡ some m =
        subst (λ k. lookup k s.messages ≡ some m)
          (sym ((text_eq_iff j id).0 named) ∙ (text_eq_iff j id').0 same) found in
      ground (arith, may, there, refused)
]

-- A call that a request other than a cleanup may make spares a message that is delivered.
may_call-spares :
    (r : Request) (s : MemoryStore) (c : Call) (id : Text) (m : Message)
    → is_cleanup r ≡ false
    → may_call r s c ≡ true
    → lookup id s.messages ≡ some m
    → m.status ≡ delivered
    → spares id c ≡ true
may_call-spares (requeues_message id') s (requeues _ _ j _ _) id m kind may found d =
    other_id can_requeue j id' id s m may found (rw d refl)
may_call-spares (requeues_failed id') s (requeues _ _ j _ _) id m kind may found d =
    other_id can_requeue j id' id s m may found (rw d refl)
may_call-spares (discards_message id' _) s (discards _ _ j _ _) id m kind may found d =
    other_id can_discard j id' id s m may found (rw d refl)
may_call-spares r s c id m kind may found d = ground arith

module _ {W : Type 0} (sha256 : Text → Text) (out : Outside W) (svc : Service) where
  -- Whatever the clock, the contexts, the connections, the peers and the publisher do, the service
  -- moves its store only by calls that the request permits, one after the other: a push saves,
  -- sends or puts back; a round of retries claims, sends, puts back or fails; a flush does the same
  -- without claims; an acknowledgement delivers the message it names to the device it names; a
  -- publication round claims, publishes or puts back terminal events; a cleanup deletes what has
  -- expired; a requeue or a discard is called only on the message it names and only while that
  -- message is stored and not delivered (for a requeue, nor discarded); a request for a status
  -- and a push by a peer call nothing.
  pub handle-Reaches :
      (r : Request) (s : System W)
      → Reaches sha256 (may_call r) s.store (handle sha256 out svc r s).store
  unfolding handle
  handle-Reaches (pushes req) s =
      (push-IsTraced sha256 (may_call (pushes req)) out svc (λ _ _ _ _ _ _ _. refl)
          (λ _ _ _ _ _ _. refl) (λ _ _ _ _ _ _. refl) req).traced
        s
  handle-Reaches (pushes_peer req node) s =
      (KeepsStore-IsTraced sha256 (may_call (pushes_peer req node)) (push_peer out svc req node)
          (push_peer-KeepsStore out svc req node)).traced
        s
  handle-Reaches (asks id) s =
      (message_status-IsTraced sha256 (may_call (asks id)) out svc id).traced s
  handle-Reaches (requeues_message id) s =
      (requeue_message-IsTraced sha256 (may_call (requeues_message id)) out svc id
          (λ st ctx now at q h. rw (text_eq_refl id) h)).traced
        s
  handle-Reaches (requeues_failed id) s =
      (requeue_failed-IsTraced sha256 (may_call (requeues_failed id)) out svc id
          (λ st ctx now at q h. rw (text_eq_refl id) h)).traced
        s
  handle-Reaches (discards_message id reason) s =
      (discard_message-IsTraced sha256 (may_call (discards_message id reason)) out svc id
          (λ st ctx now reason t h. rw (text_eq_refl id) h) reason).traced
        s
  handle-Reaches (acks client_id device_id req) s =
      (ack-IsTraced sha256 (may_call (acks client_id device_id req)) out svc client_id device_id req
          (λ st ctx now at.
            rw (text_eq_refl req.message_id, text_eq_refl client_id, text_eq_refl device_id)
              refl)).traced
        s
  handle-Reaches (retries_due limit) s =
      (retry_due-IsTraced sha256 (may_call (retries_due limit)) out svc (λ _ _ _ _ _ _ _. refl)
          (λ _ _ _ _ _ _. refl) (λ _ _ _ _ _. refl) (λ _ _ _ _ _ _ _ _ _. refl) limit).traced
        s
  handle-Reaches (publishes_due limit) s =
      (publish_terminal_due-IsTraced sha256 (may_call (publishes_due limit)) out svc
          (λ _ _ _ _ _ _ _. refl) (λ _ _ _ _ _ _. refl) (λ _ _ _ _ _ _. refl) limit).traced
        s
  handle-Reaches (flushes client_id device_id limit) s =
      (flush_client_device-IsTraced sha256 (may_call (flushes client_id device_id limit)) out svc
          (λ _ _ _ _ _ _ _. refl) (λ _ _ _ _ _ _. refl) (λ _ _ _ _ _. refl) client_id device_id
          limit).traced
        s
  handle-Reaches (cleans policy) s =
      (cleanup_expired-IsTraced sha256 (may_call (cleans policy)) out svc (λ _ _ _ _ _. refl)
          policy).traced
        s

  Reaches-delivered :
      (r : Request) (id : Text) (m : Message)
      → is_cleanup r ≡ false
      → {s t : MemoryStore} → Reaches sha256 (may_call r) s t
      → IsValid s
      → lookup id s.messages ≡ some m
      → m.status ≡ delivered
      → IsValid t × StaysDelivered m (lookup id t.messages)
  Reaches-delivered r id m kind here v found d = (v, (m, found, d, self-Kept m))
  Reaches-delivered r id m kind (next {s} {t} c before may made) v found d =
      let (v', (m', found', d', kept')) = Reaches-delivered r id m kind before v found d in
      let (m'', there, d'', kept'') =
        spared-Fate c id m' _ d' (may_call-spares r s c id m' kind may found' d') (
          subst (λ o. Fate c id o (lookup id (step sha256 s c).messages)) found'
            (step-Fate sha256 s c id v')) in
      (
        subst IsValid (sym made) (step-IsValid sha256 s c v'),
        (
          m'',
          ap (λ (x : MemoryStore). lookup id x.messages) made ∙ there,
          d'',
          Kept-trans kept' kept'',
        ),
      )

  handle_event-delivered :
      (e : Event) (id : Text) (m : Message) (s : System W)
      → keeps id e ≡ true
      → IsValid s.store
      → lookup id s.store.messages ≡ some m
      → m.status ≡ delivered
      → IsValid (handle_event sha256 out svc e s).store
        × StaysDelivered m (lookup id (handle_event sha256 out svc e s).store.messages)
  unfolding handle_event
  handle_event-delivered (serves r) id m s kept v found d =
      Reaches-delivered r id m (ground arith) (handle-Reaches r s) v found d
  handle_event-delivered (calls c) id m s kept v found d = (
    step-IsValid sha256 s.store c v,
    spared-Fate c id m _ d kept (
        subst (λ o. Fate c id o (lookup id (step sha256 s.store c).messages)) found
          (step-Fate sha256 s.store c id v)),
  )

  -- In a valid store, a delivered message stays delivered, with its identity, through any sequence
  -- of events in which a request is served from its start to its end or a call of the store by
  -- some other activity comes between two requests. The requests may be any but cleanups: repeated
  -- pushes and acknowledgements, rounds, and requeues and discards of that very message included.
  -- The calls may be any but a requeue or a discard of that message and the deletion of what has
  -- expired: the late sends, retries and failures of a worker whose batch still holds the message
  -- included.
  pub handle_all-StaysDelivered :
      (es : List Event) (id : Text) (m : Message) (s : System W)
      → IsValid s.store
      → lookup id s.store.messages ≡ some m
      → m.status ≡ delivered
      → All (λ e. keeps id e ≡ true) es
      → StaysDelivered m (lookup id (handle_all sha256 out svc es s).store.messages)
  unfolding handle_all
  handle_all-StaysDelivered [] id m s v found d kind = (m, found, d, self-Kept m)
  handle_all-StaysDelivered (e ∷ es) id m s v found d kind =
      let (v', (m', found', d', kept)) = handle_event-delivered e id m s kind.0 v found d in
      let (m'', there, d'', kept') =
        handle_all-StaysDelivered es id m' (handle_event sha256 out svc e s) v' found' d' kind.1 in
      (m'', there, d'', Kept-trans kept kept')
