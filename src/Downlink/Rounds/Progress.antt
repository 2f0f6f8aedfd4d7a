-- ===== src/Downlink/Rounds/Progress.antt =====
-- A message under retry: what one attempt makes of it, and that attempts end.
use z_courier.Base.{
  ◌+◌, ℤ, ◌<◌, leb, ◌≡◌, refl, ap, ◌∙◌, inl, inr, ◌⊎◌, Bool, Bool-cases, true, false, not, none,
  some, Text, text_Eq, lookup, lookup-insert_self, Option-cases, if◌then◌else◌, arith,
}
use z_courier.Base.Results.{Result-cases}
use z_courier.Downlink.Message.{
  Message, DeliveryPolicy, Time, MessageStatus, pending, sent, failed, status_eq,
  TerminalTransition,
}
use z_courier.Downlink.Store.{MemoryStore, put_message}
use z_courier.Downlink.Marks.{
  is_settled, mark_sent, sent_message, mark_attempt_failed, retried_message,
}
use z_courier.Downlink.Terminal.{
  mark_failed, failed_message, settle, publish_event, first_transition, new_terminal_event,
  at_or_now, is_first, apply_terminal_record,
}
use z_courier.Downlink.Requests.{Error, push_request_from_message}
use z_courier.Downlink.Service.{
  Service, terminal_transition, policy_for_message, policy_max_age_exceeded,
}
use z_courier.Downlink.System.{
  Outside, System, pure, return, Try, get_world, on_store, on_result, or_fail, ◌>>=◌, ◌>>?◌,
}
use z_courier.Downlink.Trace.{KeepsStore}
use z_courier.Downlink.Delivery.{deliver_online}
use z_courier.Downlink.Handler.Deliveries.{deliver_online-KeepsStore}
use z_courier.Downlink.Submission.{next_retry_jitter, record_attempt, record_sent}
use z_courier.Downlink.Rounds.{
  fail_message, retry_failed, retry_delivery, retry_message_at, retry_message,
}

-- What is stored under an id after an attempt on `m`.
abbrev pub Attempted : DeliveryPolicy → Message → MemoryStore → Type 0
Attempted p m s =
    (m' : Message) × (lookup m.message_id s.messages ≡ some m')
    × ((m'.status ≡ failed)
        ⊎ (m'.status ≡ sent)
        ⊎ ((m'.status ≡ pending)
            × (m'.attempts ≡ m.attempts + 1)
            × (m'.attempts < p.max_attempts)
            × (m'.message_id ≡ m.message_id)
            × (m'.policy ≡ m.policy)
            × (m'.msg_id ≡ m.msg_id)))

abbrev IsStored : Text → MessageStatus → MemoryStore → Type 0
IsStored id status s = (m : Message) × (lookup id s.messages ≡ some m) × (m.status ≡ status)

if-IsStored :
    (b : Bool) (id : Text) (status : MessageStatus) (s t : MemoryStore)
    → IsStored id status s
    → IsStored id status t
    → IsStored id status (if b then s else t)
if-IsStored true id status s t h k = h
if-IsStored false id status s t h k = k

put_message-IsStored :
    (id : Text) (m : Message) (s : MemoryStore) → IsStored id m.status (put_message id m s)
put_message-IsStored id m s = (m, lookup-insert_self id m s.messages, refl)

publish_event-IsStored :
    (id : Text) (status : MessageStatus) (t : TerminalTransition) (m : Message) (s : MemoryStore)
    → IsStored id m.status (publish_event id status t m s)
unfolding publish_event apply_terminal_record
publish_event-IsStored id status t m s =
    elim (Option-cases (lookup (new_terminal_event m status t).event_id s.terminal_events)) [
      | inl new ↦ rw (new, publish_event) (_, lookup-insert_self id _ s.messages, refl)
      | inr (old, known) ↦
          rw (known, publish_event) (put_message-IsStored id (apply_terminal_record m old) s)
    ]

settle-IsStored :
    (id : Text) (first : Bool) (status : MessageStatus) (t : TerminalTransition) (m : Message)
    (s : MemoryStore)
    → IsStored id m.status (settle id first status t m s)
unfolding settle first_transition
settle-IsStored id first status t m s =
    if-IsStored (not first) _ _ _ _ (put_message-IsStored id m s) (
      if-IsStored t.publish _ _ _ _ (publish_event-IsStored id status t (first_transition t m) s)
        (put_message-IsStored id (first_transition t m) s))

module _ {W : Type 0} (out : Outside W) (svc : Service)
    (fine : (w : W) → (out.done w).1 ≡ none) where
  returned-Attempted :
      {A B : Type 0} (p : DeliveryPolicy) (m : Message) (f : Try W A) (b : B) (s : System W)
      → Attempted p m (f s).0.store
      → Attempted p m ((f >>? λ _. return b) s).0.store
  unfolding ◌>>?◌ ◌>>=◌ or_fail pure
  returned-Attempted p m f b s h = elim (Result-cases (f s).1) [
    | inl (e, refused) ↦ rw (refused, or_fail) h
    | inr (a, done) ↦ rw (done, or_fail) h
  ]

  fail_message-Attempted :
      (p : DeliveryPolicy) (m : Message) (reason : Text) (at : Time) (attempted : Bool)
      (s : System W)
      → lookup m.message_id s.store.messages ≡ some m
      → is_settled m ≡ false
      → Attempted p m (fail_message out svc m reason at attempted s).0.store
  unfolding fail_message mark_failed failed_message on_store ◌>>?◌ ◌>>=◌ or_fail pure
  fail_message-Attempted p m reason at attempted s found free =
      let t =
        at_or_now (out.now (out.done s.world).0).1 (terminal_transition svc reason at attempted) in
      let (m', there, same) =
        settle-IsStored m.message_id (is_first failed m) failed t (failed_message t m) s.store in
      rw (fine s.world, found, free) (m', there, inl same)

  record_attempt-Attempted :
      (p : DeliveryPolicy) (m : Message) (at : Time) (e : Error) (jitter : ℤ) (s : System W)
      → lookup m.message_id s.store.messages ≡ some m
      → is_settled m ≡ false
      → m.attempts + 1 < p.max_attempts
      → Attempted p m (record_attempt out svc m p at e jitter s).0.store
  unfolding record_attempt mark_attempt_failed retried_message on_store
  record_attempt-Attempted p m at e jitter s found free more =
      rw (fine s.world, found, free)
        (
          _,
          lookup-insert_self m.message_id _ s.store.messages,
          inr (inr (refl, refl, more, refl, refl, refl)),
        )

  record_sent-Attempted :
      (p : DeliveryPolicy) (m : Message) (session_id : Text) (at deadline : Time) (s : System W)
      → lookup m.message_id s.store.messages ≡ some m
      → is_settled m ≡ false
      → Attempted p m (record_sent out svc m session_id at deadline s).0.store
  unfolding record_sent mark_sent sent_message on_store
  record_sent-Attempted p m session_id at deadline s found free =
      rw (fine s.world, found, free)
        (_, lookup-insert_self m.message_id _ s.store.messages, inr (inl refl))

  next_retry_jitter-KeepsStore : (n : ℤ) → KeepsStore (next_retry_jitter out svc n)
  unfolding next_retry_jitter pure get_world ◌>>=◌
  next_retry_jitter-KeepsStore n s = ground arith

  next_retry_jitter-finds :
      (p : DeliveryPolicy) (m : Message) (s : System W)
      → lookup m.message_id s.store.messages ≡ some m
      → lookup m.message_id (next_retry_jitter out svc p.retry_jitter s).0.store.messages ≡ some m
  next_retry_jitter-finds p m s found =
      ap (λ (t : MemoryStore). lookup m.message_id t.messages)
        (next_retry_jitter-KeepsStore p.retry_jitter s)
      ∙ found

  retry_failed-Attempted :
      (p : DeliveryPolicy) (m : Message) (e : Error) (s : System W)
      → lookup m.message_id s.store.messages ≡ some m
      → is_settled m ≡ false
      → Attempted p m (retry_failed out svc m p e s).0.store
  unfolding retry_failed get_world ◌>>=◌
  retry_failed-Attempted p m e s found free =
      elim (Bool-cases (policy_max_age_exceeded m p (out.now s.world).1)) [
        | inl old ↦ rw old (fail_message-Attempted p m _ _ _ _ found free)
        | inr young ↦ elim (Bool-cases (leb p.max_attempts (m.attempts + 1))) [
          | inl last ↦ rw (young, last) (fail_message-Attempted p m _ _ _ _ found free)
          | inr more ↦
              rw (young, more)
                (returned-Attempted p m _ pending _ (
                  record_attempt-Attempted p m _ e _ _
                    (next_retry_jitter-finds p m (record s { world = (out.now s.world).0 }) found)
                    free (ground (arith, more))))
        ]
      ]

  retry_delivery-Attempted :
      (p : DeliveryPolicy) (m : Message) (s : System W)
      → lookup m.message_id s.store.messages ≡ some m
      → is_settled m ≡ false
      → Attempted p m (retry_delivery out svc m p s).0.store
  unfolding retry_delivery get_world ◌>>=◌ on_result
  retry_delivery-Attempted p m s found free =
      let found' : lookup m.message_id
            (deliver_online out svc (push_request_from_message m) s).0.store.messages
          ≡ some m =
        ap (λ (t : MemoryStore). lookup m.message_id t.messages)
          (deliver_online-KeepsStore out svc (push_request_from_message m) s)
        ∙ found in
      elim (Result-cases (deliver_online out svc (push_request_from_message m) s).1) [
        | inl (e, refused) ↦ rw refused (retry_failed-Attempted p m e _ found' free)
        | inr (resp, taken) ↦ rw taken (
            returned-Attempted p m _ sent _
              (record_sent-Attempted p m resp.session_id _ _ _ found' free))
      ]

  pub retry_message-Attempted :
      (m : Message) (s : System W)
      → lookup m.message_id s.store.messages ≡ some m
      → m.status ≡ pending
      → Attempted (policy_for_message svc m) m (retry_message out svc m s).0.store
  unfolding retry_message retry_message_at get_world ◌>>=◌
  retry_message-Attempted m s found open_ =
      let p = policy_for_message svc m in
      let free : is_settled m ≡ false = ground (arith, open_) in
      let unsent : status_eq m.status sent ≡ false = ground (arith, open_) in
      elim (Bool-cases (policy_max_age_exceeded m p (out.now s.world).1)) [
        | inl old ↦ rw old (fail_message-Attempted p m _ _ _ _ found free)
        | inr young ↦ elim (Bool-cases (leb p.max_attempts m.attempts)) [
          | inl last ↦ rw (young, last) (fail_message-Attempted p m _ _ _ _ found free)
          | inr more ↦
              rw (young, more, unsent)
                (retry_delivery-Attempted p m (record s { world = (out.now s.world).0 }) found free)
        ]
      ]
