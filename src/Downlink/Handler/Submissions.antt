-- ===== src/Downlink/Handler/Submissions.antt =====
-- The operations on one message, as traces.
use z_courier.Base.{◌≡◌, refl, ℤ, Bool, true, Text, if◌then◌else◌, arith}
use z_courier.Downlink.Message.{Message, Time, DeliveryPolicy, QueueCapacity}
use z_courier.Downlink.Store.{
  Context, MemoryStore, SaveResult, SaveOutcome, created, existing, conflict, capacity_enabled,
  save,
}
use z_courier.Downlink.Calls.{Call, saves, sends, retries, step}
use z_courier.Downlink.Requests.{Error, PushRequest}
use z_courier.Downlink.Service.{Service, next_retry_at, ack_deadline}
use z_courier.Downlink.System.{Outside}
use z_courier.Downlink.Trace.{
  IsTraced, KeepsStore-IsTraced, pure-IsTraced, get_world-IsTraced, >>=-IsTraced, >>?-IsTraced,
  if-IsTraced, on_result-IsTraced, on_store-IsTraced,
}
use z_courier.Downlink.Delivery.{deliver_online}
use z_courier.Downlink.Handler.Deliveries.{deliver_online-KeepsStore}
use z_courier.Downlink.Submission.{
  next_retry_jitter, record_attempt, record_sent, push_created, save_message, push_saved,
  push_reliable, push,
}

module _ {W : Type 0} (sha256 : Text → Text) (may : MemoryStore → Call → Bool) (out : Outside W)
    (svc : Service) where
  pub deliver_online-IsTraced :
      (req : PushRequest) → IsTraced sha256 may (deliver_online out svc req)
  deliver_online-IsTraced req =
      KeepsStore-IsTraced sha256 may _ (deliver_online-KeepsStore out svc req)

  pub next_retry_jitter-IsTraced :
      (max_jitter : ℤ) → IsTraced sha256 may (next_retry_jitter out svc max_jitter)
  unfolding next_retry_jitter
  next_retry_jitter-IsTraced max_jitter =
      if-IsTraced sha256 may _ _ _ (pure-IsTraced sha256 may _) (
        >>=-IsTraced sha256 may _ _ (get_world-IsTraced sha256 may _)
          λ drawn. pure-IsTraced sha256 may _)

  pub record_attempt-IsTraced :
      (m : Message) (p : DeliveryPolicy) (at : Time) (e : Error) (jitter : ℤ)
      → ((s : MemoryStore) (ctx : Context) (now : Time) (id reason : Text) (next : Time)
          → may s (retries ctx now id reason next) ≡ true)
      → IsTraced sha256 may (record_attempt out svc m p at e jitter)
  unfolding record_attempt step
  record_attempt-IsTraced m p at e jitter h =
      on_store-IsTraced sha256 may out _
        (λ ctx now.
          retries ctx now m.message_id (out.error_text e)
            (next_retry_at out.float out.times out.pow at p m.attempts jitter))
        (λ ctx now st. h st ctx now _ _ _) λ ctx now st. refl

  pub record_sent-IsTraced :
      (m : Message) (session_id : Text) (at deadline : Time)
      → ((s : MemoryStore) (ctx : Context) (now : Time) (id session : Text) (at next : Time)
          → may s (sends ctx now id session at next) ≡ true)
      → IsTraced sha256 may (record_sent out svc m session_id at deadline)
  unfolding record_sent step
  record_sent-IsTraced m session_id at deadline h =
      on_store-IsTraced sha256 may out _
        (λ ctx now. sends ctx now m.message_id session_id at deadline)
        (λ ctx now st. h st ctx now _ _ _ _) λ ctx now st. refl

  module _
      (can_send : (s : MemoryStore) (ctx : Context) (now : Time) (id session : Text)
          (at next : Time)
        → may s (sends ctx now id session at next) ≡ true)
      (can_retry : (s : MemoryStore) (ctx : Context) (now : Time) (id reason : Text) (next : Time)
        → may s (retries ctx now id reason next) ≡ true) where
    push_created-IsTraced : (m : Message) → IsTraced sha256 may (push_created out svc m)
    unfolding push_created
    push_created-IsTraced m = >>=-IsTraced sha256 may _ _ (deliver_online-IsTraced _) λ answer.
        on_result-IsTraced sha256 may _ _ answer
          (λ e. >>=-IsTraced sha256 may _ _ (get_world-IsTraced sha256 may _) λ at.
            >>=-IsTraced sha256 may _ _ (next_retry_jitter-IsTraced _) λ jitter.
              >>?-IsTraced sha256 may _ _ (record_attempt-IsTraced m m.policy at e jitter can_retry)
                λ done. pure-IsTraced sha256 may _)
          λ resp. >>=-IsTraced sha256 may _ _ (get_world-IsTraced sha256 may _) λ at.
            >>?-IsTraced sha256 may _ _
              (record_sent-IsTraced m resp.session_id at (ack_deadline m m.policy at) can_send)
              λ done. pure-IsTraced sha256 may _

    push_saved-IsTraced : (saved : SaveResult) → IsTraced sha256 may (push_saved out svc saved)
    unfolding push_saved
    push_saved-IsTraced saved = by_outcome saved.outcome
      where
        by_outcome :
            (o : SaveOutcome)
            → IsTraced sha256 may (push_saved out svc (record saved { outcome = o }))
        by_outcome existing = pure-IsTraced sha256 may _
        by_outcome conflict = pure-IsTraced sha256 may _
        by_outcome created = push_created-IsTraced saved.message

    module _
        (can_save : (s : MemoryStore) (ctx : Context) (fresh : Text) (now : Time) (m : Message)
            (q : QueueCapacity)
          → may s (saves ctx fresh now m q) ≡ true) where
      save_message-IsTraced :
          (fresh : Text) (m : Message) → IsTraced sha256 may (save_message out svc sha256 fresh m)
      unfolding save_message save step
      save_message-IsTraced fresh m =
          >>=-IsTraced sha256 may _ _
            (on_store-IsTraced sha256 may out _
              (λ ctx now. saves ctx fresh now m (
                if capacity_enabled svc.queue_capacity
                then svc.queue_capacity
                else record { max_pending_global = 0; max_pending_per_device = 0 }))
              (λ ctx now st. can_save st ctx fresh now m _) λ ctx now st. ground arith)
            λ saved. pure-IsTraced sha256 may _

      pub push-IsTraced : (req : PushRequest) → IsTraced sha256 may (push out svc sha256 req)
      unfolding push push_reliable
      push-IsTraced req =
          on_result-IsTraced sha256 may _ _ _ (λ e. pure-IsTraced sha256 may _)
            λ valid.
              if-IsTraced sha256 may _ _ _
                (>>=-IsTraced sha256 may _ _ (get_world-IsTraced sha256 may _) λ now.
                  >>=-IsTraced sha256 may _ _
                    (if-IsTraced sha256 may _ _ _ (get_world-IsTraced sha256 may _)
                      (pure-IsTraced sha256 may _))
                    λ fresh.
                      >>?-IsTraced sha256 may _ _ (save_message-IsTraced fresh _)
                        push_saved-IsTraced)
                (deliver_online-IsTraced req)
