-- ===== src/Downlink/Rounds.antt =====
-- internal/downlink/service.go: the operations on many messages: `RetryDue`, `FlushClientDevice`,
-- `PublishTerminalDue`, `CleanupExpired`. Where Go returns a result beside an error, so does the
-- model. Metrics are left out.
pub mod Termination
pub mod Progress
use z_courier.Base.{
  ℕ, ◌+◌, ◌-◌, pos, ◌+ℤ◌, int64, Bool, true, false, ◌&&◌, ◌||◌, not, Option, none, some, List, [],
  ◌∷◌, Text, bytes, length, nat_eq, leb, is_empty, if◌then◌else◌,
}
use z_courier.Base.Results.{Result, ok, err}
use z_courier.Downlink.Message.{
  Message, DeliveryPolicy, Time, Duration, MessageStatus, pending, sent, delivered, failed,
  discarded, status_eq, TerminalRecord, add_duration,
}
use z_courier.Downlink.Store
use z_courier.Downlink.Terminal.{mark_failed}
use z_courier.Downlink.Outbox.{
  or_default, claim_due_terminal, mark_terminal_published, mark_terminal_publish_failed,
}
use z_courier.Downlink.Fairness.{
  RetrySelection, fifo, candidate_limit, retry_selection_from_messages,
}
use z_courier.Downlink.Retry.{
  list_due_retry, list_due_retry_fair, claim_due_retry_fair, list_pending_by_client_device,
}
use z_courier.Downlink.Retention.{delete_expired}
use z_courier.Downlink.Requests.{
  Error, missing_client_id, missing_device_id, context, RetryResult, TerminalPublishResult,
  RetentionPolicy, CleanupResult, push_request_from_message,
}
use z_courier.Downlink.Service.{
  Service, has_terminal_publisher, policy_for_message, terminal_transition, ack_deadline,
  ack_timed_out, policy_max_age_exceeded, terminal_retry_delay_for_attempt,
}
use z_courier.Downlink.System.{
  on_result, on_option, Outside, System, Op, Try, pure, return, fail, ◌>>=◌, ◌>>?◌, get_world,
  on_store, from_store,
}
use z_courier.Downlink.Delivery.{clock, deliver_online}
use z_courier.Downlink.Submission.{next_retry_jitter, record_attempt, record_sent}

abbrev pub zero_retry : RetryResult
zero_retry = record {
  scanned = 0;
  sent = 0;
  queued = 0;
  failed = 0;
  selection_mode = none;
  selected_devices = 0;
  max_per_device = 0;
}

abbrev pub one_scanned : RetryResult → RetryResult
one_scanned r = record r { scanned = r.scanned + 1 }

-- The `switch` that counts what became of a message.
unfoldable pub count_retry : MessageStatus → RetryResult → RetryResult
count_retry MessageStatus.sent r = record r { sent = r.sent + 1 }
count_retry MessageStatus.failed r = record r { failed = r.failed + 1 }
count_retry _ r = record r { queued = r.queued + 1 }

abbrev pub with_selection : RetrySelection → RetryResult → RetryResult
with_selection selection r = record r {
  selection_mode = some selection.mode;
  selected_devices = selection.device_count;
  max_per_device = selection.max_per_device;
}

abbrev pub zero_cleanup : CleanupResult
zero_cleanup = record { delivered = 0; failed = 0; discarded = 0 }

module _ {W : Type 0} (out : Outside W) (svc : Service) where
  unfoldable pub fail_message : Message → Text → Time → Bool → Try W MessageStatus
  fail_message m reason at attempted =
      (on_store out
        λ ctx now. mark_failed ctx now m.message_id (terminal_transition svc reason at attempted))
      >>? λ _. return failed

  -- `retryMessage` after an attempt that failed.
  unfoldable pub retry_failed : Message → DeliveryPolicy → Error → Try W MessageStatus
  retry_failed m p e = do
    failed_at ← clock out svc
    if policy_max_age_exceeded m p failed_at
        then fail_message m (bytes "max_age_exceeded") failed_at true
        else if leb p.max_attempts (m.attempts + 1)
        then fail_message m (bytes "max_attempts_exceeded") failed_at true
        else do
          jitter ← next_retry_jitter out svc p.retry_jitter
          record_attempt out svc m p failed_at e jitter >>? λ _. return pending

  unfoldable pub retry_delivery : Message → DeliveryPolicy → Try W MessageStatus
  retry_delivery m p = do
    answer ← deliver_online out svc (push_request_from_message m)
    on_result (λ e. retry_failed m p e)
        (λ resp. do
          sent_at ← clock out svc
          record_sent out svc m resp.session_id sent_at (ack_deadline m p sent_at) >>? λ _.
              return sent)
        answer

  -- `retryMessage` under its policy, at the time it reads first.
  unfoldable pub retry_message_at : Message → DeliveryPolicy → Time → Try W MessageStatus
  retry_message_at m p now =
      if policy_max_age_exceeded m p now
      then fail_message m (bytes "max_age_exceeded") now false
      else if leb p.max_attempts m.attempts
      then fail_message m (bytes "max_attempts_exceeded") now false
      else if status_eq m.status sent && not (ack_timed_out m p now)
      then return sent
      else retry_delivery m p

  unfoldable pub retry_message : Message → Try W MessageStatus
  retry_message m = do now ← clock out svc; retry_message_at m (policy_for_message svc m) now

  unfoldable pub retry_messages : List Message → RetryResult → Op W (RetryResult × Option Error)
  retry_messages [] r = pure (r, none)
  retry_messages (m ∷ ms) r = do
    ctx ← get_world out.done
    on_option
        (retry_message m
          >>= on_result (λ e. pure (one_scanned r, some e))
              λ status. retry_messages ms (count_retry status (one_scanned r)))
        (λ e. pure (r, some (context e))) ctx

  -- The store in memory has no claims that are not fair (`ClaimStore`).
  unfoldable pub list_retry_messages : Time → ℕ → Try W RetrySelection
  list_retry_messages now limit =
      let candidates =
        candidate_limit svc.retry_fairness.candidate_multiplier limit
          svc.queue_capacity.max_pending_per_device in
      if svc.retry_fairness.enabled
      then if not (is_empty svc.retry_claim_owner)
        then (on_store out λ ctx clock.
            claim_due_retry_fair ctx clock now svc.ack_timeout limit candidates
              svc.retry_claim_owner svc.retry_claim_lease)
        else (from_store out
            λ ctx clock. list_due_retry_fair ctx clock now svc.ack_timeout limit candidates)
      else (from_store out λ ctx clock. list_due_retry ctx clock now svc.ack_timeout limit)
        >>? λ ms. return (retry_selection_from_messages ms fifo)

  unfoldable pub retry_due : ℕ → Op W (RetryResult × Option Error)
  retry_due limit = if not svc.has_store then pure (zero_retry, none) else do
    now ← clock out svc
    selected ← list_retry_messages now limit
    on_result (λ e. pure (zero_retry, some e))
        (λ selection. retry_messages selection.messages zero_retry >>= λ done.
          pure (with_selection selection done.0, done.1))
        selected

  unfoldable pub flush_client_device : Text → Text → ℕ → Op W (RetryResult × Option Error)
  flush_client_device client_id device_id limit =
      if not svc.has_store
      then pure (zero_retry, none)
      else if is_empty client_id
      then pure (zero_retry, some missing_client_id)
      else if is_empty device_id
      then pure (zero_retry, some missing_device_id)
      else do
        found ←
            (from_store out
              λ ctx now. list_pending_by_client_device ctx now client_id device_id limit)
        on_result (λ e. pure (zero_retry, some e)) (λ ms. retry_messages ms zero_retry) found

  unfoldable pub publication_failed : TerminalRecord → Text → Try W (Unit {0})
  publication_failed r text = do
    failed_at ← clock out svc
    jitter ← next_retry_jitter out svc (pos svc.terminal_retry_jitter)
    on_store out λ ctx now.
        mark_terminal_publish_failed ctx r.event.message_id r.event.terminal_status text (
          add_duration failed_at (
            int64 (
              terminal_retry_delay_for_attempt out.float out.times out.pow svc r.publish_attempts
              +ℤ jitter)))

  unfoldable pub publication_done : TerminalRecord → Try W (Unit {0})
  publication_done r = do
    at ← clock out svc
    on_store out
        λ ctx now. mark_terminal_published ctx now r.event.message_id r.event.terminal_status at

  -- The loop over the records that were claimed.
  unfoldable pub publish_records :
      List TerminalRecord → TerminalPublishResult → Op W (TerminalPublishResult × Option Error)
  publish_records [] result = pure (result, none)
  publish_records (r ∷ rs) result = do
    ctx ← get_world out.done
    on_option
        (get_world (out.publish r.event)
          >>= on_option
              (publication_done r
                >>= on_result (λ e. pure (result, some e))
                    λ _. publish_records rs (record result { published = result.published + 1 }))
              λ text.
                publication_failed r text
                >>= on_result (λ e. pure (result, some e))
                    λ _. publish_records rs (record result { failed = result.failed + 1 }))
        (λ e. pure (result, some (context e))) ctx

  unfoldable pub publish_terminal_due : ℕ → Op W (TerminalPublishResult × Option Error)
  publish_terminal_due limit =
      let owner =
        if is_empty svc.terminal_claim_owner
        then svc.terminal_gateway_node
        else svc.terminal_claim_owner in
      if not (has_terminal_publisher svc)
      then pure (record { scanned = 0; published = 0; failed = 0 }, none)
      else do
        now ← clock out svc
        claimed ←
            (on_store out λ ctx clock.
              claim_due_terminal ctx clock now (or_default limit 100) owner
                svc.terminal_claim_lease)
        on_result (λ e. pure (record { scanned = 0; published = 0; failed = 0 }, some e))
            (λ rs. publish_records rs (record { scanned = length rs; published = 0; failed = 0 }))
            claimed

  -- One target of the loop of `CleanupExpired`, passed over if it has no TTL.
  unfoldable pub clean_target : Time → ℕ → MessageStatus → Duration → Try W ℕ
  clean_target now limit status ttl =
      if nat_eq ttl 0
      then return 0
      else on_store out λ ctx clock. delete_expired ctx status (now - ttl) limit

  unfoldable pub clean_discarded :
      Time → RetentionPolicy → CleanupResult → Op W (CleanupResult × Option Error)
  clean_discarded now policy result = do
    deleted ← clean_target now (or_default policy.limit 1000) discarded policy.discarded_ttl
    on_result (λ e. pure (result, some e)) (λ n. pure (record result { discarded = n }, none))
        deleted

  unfoldable pub clean_failed :
      Time → RetentionPolicy → CleanupResult → Op W (CleanupResult × Option Error)
  clean_failed now policy result = do
    deleted ← clean_target now (or_default policy.limit 1000) failed policy.failed_ttl
    on_result (λ e. pure (result, some e))
        (λ n. clean_discarded now policy (record result { failed = n })) deleted

  unfoldable pub cleanup_expired : RetentionPolicy → Op W (CleanupResult × Option Error)
  cleanup_expired policy = if not svc.has_store then pure (zero_cleanup, none) else do
    now ← clock out svc
    deleted ← clean_target now (or_default policy.limit 1000) delivered policy.delivered_ttl
    on_result (λ e. pure (zero_cleanup, some e))
        (λ n. clean_failed now policy (record zero_cleanup { delivered = n })) deleted
