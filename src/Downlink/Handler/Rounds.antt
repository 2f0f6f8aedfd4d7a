-- ===== src/Downlink/Handler/Rounds.antt =====
-- The operations on many messages, as traces.
use z_courier.Base.{
  ℕ, ◌+ℤ◌, int64, ◌≡◌, refl, leb, ◌+◌, ◌-◌, nat_eq, Bool, true, not, ◌&&◌, List, [], ◌∷◌, Text,
  is_empty, if◌then◌else◌,
}
use z_courier.Downlink.Message.{
  Message, Time, Duration, DeliveryPolicy, MessageStatus, delivered, failed, discarded, sent,
  status_eq, TerminalTransition, TerminalRecord, add_duration,
}
use z_courier.Downlink.Store.{Context, MemoryStore}
use z_courier.Downlink.Outbox.{or_default}
use z_courier.Downlink.Fairness.{candidate_limit}
use z_courier.Downlink.Calls.{
  Call, sends, retries, fails, claims, claims_terminal, publishes, publish_fails, expires, step,
}
use z_courier.Downlink.Requests.{Error, RetryResult, TerminalPublishResult, RetentionPolicy}
use z_courier.Downlink.Service.{
  Service, policy_for_message, terminal_transition, ack_deadline, ack_timed_out,
  policy_max_age_exceeded, terminal_retry_delay_for_attempt, has_terminal_publisher,
}
use z_courier.Downlink.System.{Outside}
use z_courier.Downlink.Trace.{
  IsTraced, pure-IsTraced, get_world-IsTraced, >>=-IsTraced, >>?-IsTraced, if-IsTraced,
  on_result-IsTraced, on_option-IsTraced, on_store-IsTraced, from_store-IsTraced,
}
use z_courier.Downlink.Handler.Submissions.{
  deliver_online-IsTraced, next_retry_jitter-IsTraced, record_attempt-IsTraced,
  record_sent-IsTraced,
}
use z_courier.Downlink.Rounds.{
  fail_message, retry_failed, retry_delivery, retry_message_at, retry_message, retry_messages,
  list_retry_messages, retry_due, flush_client_device, publication_failed, publication_done,
  publish_records, publish_terminal_due, clean_target, clean_discarded, clean_failed,
  cleanup_expired,
}

module _ {W : Type 0} (sha256 : Text → Text) (may : MemoryStore → Call → Bool) (out : Outside W)
    (svc : Service) where
  module _
      (can_send : (s : MemoryStore) (ctx : Context) (now : Time) (id session : Text)
          (at next : Time)
        → may s (sends ctx now id session at next) ≡ true)
      (can_retry : (s : MemoryStore) (ctx : Context) (now : Time) (id reason : Text) (next : Time)
        → may s (retries ctx now id reason next) ≡ true)
      (can_fail : (s : MemoryStore) (ctx : Context) (now : Time) (id : Text)
          (t : TerminalTransition)
        → may s (fails ctx now id t) ≡ true) where
    fail_message-IsTraced :
        (m : Message) (reason : Text) (at : Time) (attempted : Bool)
        → IsTraced sha256 may (fail_message out svc m reason at attempted)
    unfolding fail_message step
    fail_message-IsTraced m reason at attempted =
        >>?-IsTraced sha256 may _ _
          (on_store-IsTraced sha256 may out _
            (λ ctx now. fails ctx now m.message_id (terminal_transition svc reason at attempted))
            (λ ctx now st. can_fail st ctx now _ _) λ ctx now st. refl)
          λ done. pure-IsTraced sha256 may _

    retry_failed-IsTraced :
        (m : Message) (p : DeliveryPolicy) (e : Error)
        → IsTraced sha256 may (retry_failed out svc m p e)
    unfolding retry_failed
    retry_failed-IsTraced m p e =
        >>=-IsTraced sha256 may _ _ (get_world-IsTraced sha256 may _) λ at.
          if-IsTraced sha256 may (policy_max_age_exceeded m p at) _ _
            (fail_message-IsTraced m _ at _)
            (if-IsTraced sha256 may (leb p.max_attempts (m.attempts + 1)) _ _
              (fail_message-IsTraced m _ at _)
              (>>=-IsTraced sha256 may _ _ (next_retry_jitter-IsTraced sha256 may out svc _)
                λ jitter.
                  >>?-IsTraced sha256 may _ _
                    (record_attempt-IsTraced sha256 may out svc m p at e jitter can_retry)
                    λ done. pure-IsTraced sha256 may _))

    retry_delivery-IsTraced :
        (m : Message) (p : DeliveryPolicy) → IsTraced sha256 may (retry_delivery out svc m p)
    unfolding retry_delivery
    retry_delivery-IsTraced m p =
        >>=-IsTraced sha256 may _ _ (deliver_online-IsTraced sha256 may out svc _) λ answer.
          on_result-IsTraced sha256 may _ _ answer (λ e. retry_failed-IsTraced m p e)
            λ resp. >>=-IsTraced sha256 may _ _ (get_world-IsTraced sha256 may _) λ at.
              >>?-IsTraced sha256 may _ _
                (record_sent-IsTraced sha256 may out svc m resp.session_id at (ack_deadline m p at)
                  can_send)
                λ done. pure-IsTraced sha256 may _

    retry_message-IsTraced : (m : Message) → IsTraced sha256 may (retry_message out svc m)
    unfolding retry_message retry_message_at
    retry_message-IsTraced m = >>=-IsTraced sha256 may _ _ (get_world-IsTraced sha256 may _) λ now.
        let p = policy_for_message svc m in
        if-IsTraced sha256 may (policy_max_age_exceeded m p now) _ _
          (fail_message-IsTraced m _ now _)
          (if-IsTraced sha256 may (leb p.max_attempts m.attempts) _ _
            (fail_message-IsTraced m _ now _)
            (if-IsTraced sha256 may (status_eq m.status sent && not (ack_timed_out m p now)) _ _
              (pure-IsTraced sha256 may _) (retry_delivery-IsTraced m p)))

    retry_messages-IsTraced :
        (ms : List Message) (r : RetryResult) → IsTraced sha256 may (retry_messages out svc ms r)
    unfolding retry_messages
    retry_messages-IsTraced [] r = pure-IsTraced sha256 may _
    retry_messages-IsTraced (m ∷ ms) r =
        >>=-IsTraced sha256 may _ _ (get_world-IsTraced sha256 may _) λ ctx.
          on_option-IsTraced sha256 may _ _ ctx
            (>>=-IsTraced sha256 may _ _ (retry_message-IsTraced m) λ answer.
              on_result-IsTraced sha256 may _ _ answer (λ e. pure-IsTraced sha256 may _)
                λ status. retry_messages-IsTraced ms _)
            λ e. pure-IsTraced sha256 may _

    pub flush_client_device-IsTraced :
        (client_id device_id : Text) (limit : ℕ)
        → IsTraced sha256 may (flush_client_device out svc client_id device_id limit)
    unfolding flush_client_device
    flush_client_device-IsTraced client_id device_id limit =
        if-IsTraced sha256 may (not svc.has_store) _ _ (pure-IsTraced sha256 may _) (
          if-IsTraced sha256 may (is_empty client_id) _ _ (pure-IsTraced sha256 may _) (
            if-IsTraced sha256 may (is_empty device_id) _ _ (pure-IsTraced sha256 may _) (
              >>=-IsTraced sha256 may _ _ (from_store-IsTraced sha256 may out _) λ found.
                on_result-IsTraced sha256 may _ _ found (λ e. pure-IsTraced sha256 may _)
                  λ ms. retry_messages-IsTraced ms _)))

    module _
        (can_claim : (s : MemoryStore) (ctx : Context) (clock now : Time) (ack : Duration)
            (limit candidates : ℕ) (owner : Text) (lease : Duration)
          → may s (claims ctx clock now ack limit candidates owner lease) ≡ true) where
      list_retry_messages-IsTraced :
          (now : Time) (limit : ℕ) → IsTraced sha256 may (list_retry_messages out svc now limit)
      unfolding list_retry_messages step
      list_retry_messages-IsTraced now limit =
          if-IsTraced sha256 may svc.retry_fairness.enabled _ _
            (if-IsTraced sha256 may (not (is_empty svc.retry_claim_owner)) _ _
              (on_store-IsTraced sha256 may out _
                (λ ctx clock.
                  claims ctx clock now svc.ack_timeout limit
                    (candidate_limit svc.retry_fairness.candidate_multiplier limit
                      svc.queue_capacity.max_pending_per_device)
                    svc.retry_claim_owner svc.retry_claim_lease)
                (λ ctx clock st. can_claim st ctx clock _ _ _ _ _ _) λ ctx clock st. refl)
              (from_store-IsTraced sha256 may out _))
            (>>?-IsTraced sha256 may _ _ (from_store-IsTraced sha256 may out _)
              λ ms. pure-IsTraced sha256 may _)

      pub retry_due-IsTraced : (limit : ℕ) → IsTraced sha256 may (retry_due out svc limit)
      unfolding retry_due
      retry_due-IsTraced limit =
          if-IsTraced sha256 may (not svc.has_store) _ _ (pure-IsTraced sha256 may _) (
            >>=-IsTraced sha256 may _ _ (get_world-IsTraced sha256 may _) λ now.
              >>=-IsTraced sha256 may _ _ (list_retry_messages-IsTraced now limit) λ selected.
                on_result-IsTraced sha256 may _ _ selected (λ e. pure-IsTraced sha256 may _)
                  λ selection.
                    >>=-IsTraced sha256 may _ _ (retry_messages-IsTraced _ _)
                      λ done. pure-IsTraced sha256 may _)

  module _
      (can_claim : (s : MemoryStore) (ctx : Context) (clock now : Time) (limit : ℕ) (owner : Text)
          (lease : Duration)
        → may s (claims_terminal ctx clock now limit owner lease) ≡ true)
      (can_publish : (s : MemoryStore) (ctx : Context) (now : Time) (id : Text)
          (status : MessageStatus) (at : Time)
        → may s (publishes ctx now id status at) ≡ true)
      (can_fail : (s : MemoryStore) (ctx : Context) (id : Text) (status : MessageStatus)
          (reason : Text) (at : Time)
        → may s (publish_fails ctx id status reason at) ≡ true) where
    publication_failed-IsTraced :
        (r : TerminalRecord) (text : Text) → IsTraced sha256 may (publication_failed out svc r text)
    unfolding publication_failed step
    publication_failed-IsTraced r text =
        >>=-IsTraced sha256 may _ _ (get_world-IsTraced sha256 may _) λ at.
          >>=-IsTraced sha256 may _ _ (next_retry_jitter-IsTraced sha256 may out svc _) λ jitter.
            on_store-IsTraced sha256 may out _
              (λ ctx now. publish_fails ctx r.event.message_id r.event.terminal_status text (
                add_duration at (
                  int64 (
                    terminal_retry_delay_for_attempt out.float out.times out.pow svc
                      r.publish_attempts
                    +ℤ jitter))))
              (λ ctx now st. can_fail st ctx _ _ _ _) λ ctx now st. refl

    publication_done-IsTraced :
        (r : TerminalRecord) → IsTraced sha256 may (publication_done out svc r)
    unfolding publication_done step
    publication_done-IsTraced r =
        >>=-IsTraced sha256 may _ _ (get_world-IsTraced sha256 may _) λ at.
          on_store-IsTraced sha256 may out _
            (λ ctx now. publishes ctx now r.event.message_id r.event.terminal_status at)
            (λ ctx now st. can_publish st ctx now _ _ _) λ ctx now st. refl

    publish_records-IsTraced :
        (rs : List TerminalRecord) (result : TerminalPublishResult)
        → IsTraced sha256 may (publish_records out svc rs result)
    unfolding publish_records
    publish_records-IsTraced [] result = pure-IsTraced sha256 may _
    publish_records-IsTraced (r ∷ rs) result =
        >>=-IsTraced sha256 may _ _ (get_world-IsTraced sha256 may _) λ ctx.
          on_option-IsTraced sha256 may _ _ ctx
            (>>=-IsTraced sha256 may _ _ (get_world-IsTraced sha256 may _) λ refused.
              on_option-IsTraced sha256 may _ _ refused
                (>>=-IsTraced sha256 may _ _ (publication_done-IsTraced r) λ marked.
                  on_result-IsTraced sha256 may _ _ marked (λ e. pure-IsTraced sha256 may _)
                    λ done. publish_records-IsTraced rs _)
                λ text. >>=-IsTraced sha256 may _ _ (publication_failed-IsTraced r text) λ marked.
                  on_result-IsTraced sha256 may _ _ marked (λ e. pure-IsTraced sha256 may _)
                    λ done. publish_records-IsTraced rs _)
            λ e. pure-IsTraced sha256 may _

    pub publish_terminal_due-IsTraced :
        (limit : ℕ) → IsTraced sha256 may (publish_terminal_due out svc limit)
    unfolding publish_terminal_due step
    publish_terminal_due-IsTraced limit =
        if-IsTraced sha256 may (not (has_terminal_publisher svc)) _ _ (pure-IsTraced sha256 may _) (
          >>=-IsTraced sha256 may _ _ (get_world-IsTraced sha256 may _) λ now.
            >>=-IsTraced sha256 may _ _
              (on_store-IsTraced sha256 may out _
                (λ ctx clock.
                  claims_terminal ctx clock now (or_default limit 100)
                    (if is_empty svc.terminal_claim_owner
                      then svc.terminal_gateway_node
                      else svc.terminal_claim_owner)
                    svc.terminal_claim_lease)
                (λ ctx clock st. can_claim st ctx clock _ _ _ _) λ ctx clock st. refl)
              λ claimed.
                on_result-IsTraced sha256 may _ _ claimed (λ e. pure-IsTraced sha256 may _)
                  λ rs. publish_records-IsTraced rs _)

  module _
      (can_expire : (s : MemoryStore) (ctx : Context) (status : MessageStatus) (before : Time)
          (limit : ℕ)
        → may s (expires ctx status before limit) ≡ true) where
    clean_target-IsTraced :
        (now : Time) (limit : ℕ) (status : MessageStatus) (ttl : Duration)
        → IsTraced sha256 may (clean_target out svc now limit status ttl)
    unfolding clean_target step
    clean_target-IsTraced now limit status ttl =
        if-IsTraced sha256 may (nat_eq ttl 0) _ _ (pure-IsTraced sha256 may _) (
          on_store-IsTraced sha256 may out _ (λ ctx clock. expires ctx status (now - ttl) limit)
            (λ ctx clock st. can_expire st ctx _ _ _) λ ctx clock st. refl)

    pub cleanup_expired-IsTraced :
        (policy : RetentionPolicy) → IsTraced sha256 may (cleanup_expired out svc policy)
    unfolding cleanup_expired clean_failed clean_discarded
    cleanup_expired-IsTraced policy =
        if-IsTraced sha256 may (not svc.has_store) _ _ (pure-IsTraced sha256 may _) (
          >>=-IsTraced sha256 may _ _ (get_world-IsTraced sha256 may _) λ now.
            >>=-IsTraced sha256 may _ _ (clean_target-IsTraced now _ delivered _) λ deleted.
              on_result-IsTraced sha256 may _ _ deleted (λ e. pure-IsTraced sha256 may _)
                λ n. >>=-IsTraced sha256 may _ _ (clean_target-IsTraced now _ failed _) λ deleted'.
                  on_result-IsTraced sha256 may _ _ deleted' (λ e. pure-IsTraced sha256 may _)
                    λ n'.
                      >>=-IsTraced sha256 may _ _ (clean_target-IsTraced now _ discarded _)
                        λ deleted''.
                          on_result-IsTraced sha256 may _ _ deleted''
                            (λ e. pure-IsTraced sha256 may _) λ n''. pure-IsTraced sha256 may _)
