-- ===== src/Downlink/Submission/Races.antt =====
-- What is left of the guards of `Requeue` when an acknowledgement comes between its reading of the
-- message and its call of the store.
use z_courier.Base.{
  ◌≡◌, refl, false, Option, none, some, Text, lookup-insert_self, text_Eq, lookup, arith,
}
use z_courier.Base.Results.{Result, ok, err}
use z_courier.Downlink.Requests.{Error, message_not_found}
use z_courier.Downlink.Message.{Message, Time, delivered, discarded, pending, status_eq}
use z_courier.Downlink.Store.{MemoryStore, put_message, check_queue_capacity, capacity_enabled}
use z_courier.Downlink.Service.{Service, attach_resolved_policy}
use z_courier.Downlink.System.{
  Outside, System, fail, return, on_option, ◌>>=◌, ◌>>?◌, or_fail, get_world, on_store, from_store,
  pure,
}
use z_courier.Downlink.Trace.{KeepsStore}
use z_courier.Downlink.Submission.{requeue_found, requeue_stored, reread, get_message}
use z_courier.Downlink.Marks.{requeue, requeue_with_capacity, requeued_message, or_now}

requeue_delivered :
    (now at : Time) (id : Text) (m : Message) (s : MemoryStore)
    → lookup id s.messages ≡ some m
    → (requeue none now id at s).0 ≡ put_message id (requeued_message (or_now at now) m) s
unfolding requeue requeue_with_capacity check_queue_capacity
requeue_delivered now at id m s found = ground (arith, found)

abbrev pub IsPending : Text → MemoryStore → Type 0
IsPending id s = (m : Message) × (lookup id s.messages ≡ some m) × (m.status ≡ pending)

module _ {W : Type 0} (out : Outside W) (svc : Service) (id : Text) where
  answer-KeepsStore :
      (r : Result Error (Option Message))
      → KeepsStore (
          or_fail {W = W}
            (on_option (fail message_not_found) λ m. return (attach_resolved_policy svc m))
            r)
  unfolding or_fail on_option pure
  answer-KeepsStore (ok none) s = refl
  answer-KeepsStore (ok (some m)) s = refl
  answer-KeepsStore (err e) s = refl

  -- The second `Get` only reads.
  reread-KeepsStore : KeepsStore (reread out svc id)
  unfolding reread get_message from_store ◌>>?◌ ◌>>=◌
  reread-KeepsStore s = answer-KeepsStore (get_message out svc id s).1 (get_message out svc id s).0

  or_reread-KeepsStore :
      (r : Result Error (Unit {0})) → KeepsStore (or_fail {W = W} (λ _. reread out svc id) r)
  unfolding or_fail pure
  or_reread-KeepsStore (ok tt) s = reread-KeepsStore s
  or_reread-KeepsStore (err e) s = refl

  requeue_stored-late :
      (m : Message) (s : System W)
      → lookup id s.store.messages ≡ some m
      → ((w : W) → (out.done w).1 ≡ none)
      → capacity_enabled svc.queue_capacity ≡ false
      → IsPending id (requeue_stored out svc id s).0.store
  unfolding requeue_stored get_world on_store requeued_message ◌>>=◌ pure
  requeue_stored-late m s found calm unlimited =
      let at = (out.now s.world).1 in
      let world = (out.now s.world).0 in
      let now = (out.now (out.done world).0).1 in
      (
        requeued_message (or_now at now) m,
        rw (unlimited, calm world, requeue_delivered now at id m s.store found)
            (lookup-insert_self id _ s.store.messages),
        refl,
      )

  -- With no limits and contexts that are not done, a requeue that read its message while that
  -- was neither delivered nor discarded makes the stored message pending although it is
  -- delivered by then: neither the service nor the store in memory looks at its state once more.
  pub requeue_found-late :
      (old m : Message) (s : System W)
      → status_eq old.status delivered ≡ false
      → status_eq old.status discarded ≡ false
      → lookup id s.store.messages ≡ some m
      → m.status ≡ delivered
      → ((w : W) → (out.done w).1 ≡ none)
      → capacity_enabled svc.queue_capacity ≡ false
      → IsPending id (requeue_found out svc id (some old) s).0.store
  unfolding requeue_found ◌>>?◌ ◌>>=◌
  requeue_found-late old m s undelivered undiscarded found late calm unlimited =
      rw
        (
          undelivered,
          undiscarded,
          or_reread-KeepsStore (requeue_stored out svc id s).1 (requeue_stored out svc id s).0,
        )
        (requeue_stored-late m s found calm unlimited)
