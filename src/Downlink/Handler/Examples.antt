-- ===== src/Downlink/Handler/Examples.antt =====
-- The theorems on the service at a concrete system: its world is a clock that ticks at each reading,
-- every connection is there and every message is taken.
use z_courier.Base.{
  ℕ, ◌+◌, ◌≡◌, ◌≤◌, ◌<◌, int64, ◌+ℤ◌, refl, pos, negsuc, true, false, none, some, List, [], ◌∷◌,
  Text, bytes, text_Eq, lookup, insert, lookup-insert_self, length, MapAll-insert, insert-Distinct,
  arith,
}
use z_courier.Base.Results.{err}
use z_courier.Session.{new_manager}
use z_courier.Cluster.{new_memory_registry}
use z_courier.Downlink.Message.{
  Message, DeliveryPolicy, delivered, pending, zero_message, ratio, default_delivery_policy_name,
}
use z_courier.Downlink.Store.{MemoryStore, capacity_enabled}
use z_courier.Downlink.Policy.{validate_delivery_policy, valid_delivery_policy_name}
use z_courier.Downlink.Calls.{sends, retries, IsValid}
use z_courier.Downlink.Calls.Delivered.{StaysDelivered}
use z_courier.Downlink.Requests.{PushRequest, PeerError}
use z_courier.Downlink.Service.{
  Service, new_service, default_service, apply_options, apply_option, policy_for_message,
  delivery_policy, with_store, with_max_attempts, with_retry_claim, ServiceOption, next_retry_at,
  cut_jitter, retry_delay_for_attempt, limited_delay,
}
use z_courier.Downlink.Service.Options.{policy_for_message-valid}
use z_courier.Downlink.Service.Schedule.{next_retry_at-bounds}
use z_courier.Downlink.System.{Outside, System}
use z_courier.Downlink.Submission.Acknowledgement.{Settles, ack-Settles}
use z_courier.Downlink.Submission.Races.{IsPending, requeue_found-late}
use z_courier.Downlink.Submission.{ack, requeue_found}
use z_courier.Downlink.Rounds.Termination.{retry_rounds, IsDone, retry_rounds-IsDone}
use z_courier.Downlink.Trace.{Reaches}
use z_courier.Downlink.Handler.{
  Event, serves, calls, pushes, requeues_message, discards_message, retries_due, handle, handle_all,
  may_call,
}
use z_courier.Downlink.Handler.Refinement.{handle-Reaches, handle_all-StaysDelivered}

abbrev outside : Outside ℕ
outside = record {
  now = λ w. (w + 1, w);
  done = λ w. (w, none);
  new_message_id = λ w. (w + 1, bytes "dl-1");
  connection = λ id w. (w, none);
  send_msg = λ id msg_id frame w. (w, none);
  push_peer = λ route req w. (w, err PeerError.timeout);
  publish = λ event w. (w, none);
  jitter = λ limit w. (w, negsuc 3);
  error_text = λ e. bytes "error";
  unix_milli = λ t. t;
  float = λ n. ratio (pos n) 1;
  times = λ x y. x;
  pow = λ x n. x;
}

abbrev id : Text
id = bytes "msg-1"

abbrev client : Text
client = bytes "client-1"

abbrev phone : Text
phone = bytes "phone"

abbrev greeting : PushRequest
greeting = record {
  client_id = client;
  device_id = phone;
  msg_id = 7;
  message_id = id;
  trace_id = [];
  ack_required = true;
  body = bytes "hi";
}

abbrev waiting : Message
waiting = record zero_message {
  message_id = id;
  client_id = client;
  device_id = phone;
  msg_id = 7;
  status = pending;
  created_at = 5;
}

abbrev arrived : Message
arrived = record waiting { status = delivered; delivered_at = 9 }

abbrev store_of : Message → MemoryStore
store_of m = record { messages = insert m.message_id m []; terminal_events = [] }

abbrev system_of : Message → System ℕ
system_of m = record {
  store = store_of m;
  sessions = new_manager;
  registry = new_memory_registry 60;
  world = 100;
}

abbrev options : List ServiceOption
options = with_store true ∷ with_retry_claim (bytes "node-1") 0 ∷ with_max_attempts 3 ∷ []

abbrev service : Service
service = new_service options

-- A digest that only measures.
abbrev short_digest : Text → Text
short_digest t = length t ∷ []

empty_Keyed : (k : Text) (m : Message) → lookup k [] ≡ some m → m.message_id ≡ k
unfolding lookup
empty_Keyed k m found = ground (arith, found)

store_of-IsValid : (m : Message) → IsValid (store_of m)
store_of-IsValid m = record {
  keyed = MapAll-insert (λ k n. n.message_id ≡ k) m.message_id m [] refl empty_Keyed;
  distinct = insert-Distinct m.message_id m [] tt;
}

handle-Reaches_example :
    Reaches short_digest
      (may_call (pushes greeting))
      (store_of arrived)
      (handle short_digest outside service (pushes greeting) (system_of arrived)).store
handle-Reaches_example =
    handle-Reaches short_digest outside service (pushes greeting) (system_of arrived)

-- A retry round that took its batch before the acknowledgement ends between two requests.
abbrev late_events : List Event
late_events =
    serves (requeues_message id)
    ∷ calls (sends none 30 id (bytes "s1") 30 60)
    ∷ serves (discards_message id (bytes "spam"))
    ∷ calls (retries none 40 id (bytes "timeout") 70)
    ∷ serves (retries_due 10)
    ∷ serves (pushes greeting)
    ∷ []

handle_all-StaysDelivered_example : StaysDelivered arrived (
    lookup id
      (handle_all short_digest outside service late_events (system_of arrived)).store.messages)
handle_all-StaysDelivered_example =
    handle_all-StaysDelivered short_digest outside service late_events id arrived
      (system_of arrived) (store_of-IsValid arrived) (lookup-insert_self id arrived []) refl
      (refl, (refl, (refl, (refl, (refl, (refl, tt))))))

policy_for_message-valid_example :
    validate_delivery_policy (policy_for_message (new_service options) waiting) ≡ none
policy_for_message-valid_example =
    policy_for_message-valid (λ t. t) options waiting (tt, (tt, (tt, tt)))

abbrev steady : DeliveryPolicy
steady = record {
  name = default_delivery_policy_name;
  max_attempts = 3;
  max_age = pos 0;
  ack_timeout = 10;
  initial_retry_delay = 20;
  backoff_multiplier = ratio (pos 3) 2;
  max_retry_delay = 60;
  retry_jitter = pos 5;
}

steady_valid : validate_delivery_policy steady ≡ none
unfolding validate_delivery_policy valid_delivery_policy_name
steady_valid = refl

next_retry_at-bounds_example :
    (100
      ≤ next_retry_at outside.float outside.times outside.pow 100 steady 4
          (cut_jitter 5 (negsuc 3)))
    × (next_retry_at outside.float outside.times outside.pow 100 steady 4 (cut_jitter 5 (negsuc 3))
        ≤ 100 + (60 + 5))
next_retry_at-bounds_example =
    next_retry_at-bounds outside.float outside.times outside.pow 100 steady 4 (negsuc 3)
      steady_valid refl (omega arith)

-- Delays of 2 ^ 62 pass the checks, and their sum is no int64: the next attempt is due in the past.
abbrev far : DeliveryPolicy
far = record steady {
  initial_retry_delay = 4_611_686_018_427_387_904;
  max_retry_delay = 4_611_686_018_427_387_904;
  retry_jitter = pos 4_611_686_018_427_387_904;
}

far_valid : validate_delivery_policy far ≡ none
unfolding validate_delivery_policy valid_delivery_policy_name
far_valid = refl

far_due :
    next_retry_at outside.float outside.times outside.pow 100 far 4
      (cut_jitter 4_611_686_018_427_387_904 (pos 4_611_686_018_427_387_904))
    < 100
unfolding next_retry_at retry_delay_for_attempt limited_delay cut_jitter int64 ◌+ℤ◌
far_due = omega arith

three_attempts : (policy_for_message service waiting).max_attempts ≤ 0 + 3
unfolding policy_for_message delivery_policy new_service apply_options apply_option default_service
three_attempts = omega arith

retry_rounds-IsDone_example :
    IsDone id (retry_rounds outside service 3 id (system_of waiting)).store
retry_rounds-IsDone_example =
    retry_rounds-IsDone outside service (λ w. refl) 2 waiting (system_of waiting)
      (lookup-insert_self id waiting []) refl three_attempts

ack-Settles_example :
    Settles id client phone
      (ack outside service client phone (record { message_id = id; code = bytes "delivered" }))
      (system_of waiting)
ack-Settles_example =
    ack-Settles id client phone outside service (bytes "delivered") (system_of waiting)

no_limits : capacity_enabled service.queue_capacity ≡ false
unfolding new_service apply_options apply_option default_service
no_limits = refl

requeue_found-late_example :
    IsPending id (requeue_found outside service id (some waiting) (system_of arrived)).0.store
requeue_found-late_example =
    requeue_found-late outside service id waiting arrived (system_of arrived) refl refl
      (lookup-insert_self id arrived []) refl (λ w. refl) no_limits
