-- ===== src/Downlink/Service.antt =====
-- internal/downlink/service.go: the service's configuration, the policy in effect for a message, and
-- the times at which it tries again. Floating-point arithmetic is a parameter.
pub mod Options
pub mod Schedule
use z_courier.Base.{
  ℕ, suc, ◌+◌, ◌*◌, ◌/◌, ℤ, pos, negsuc, abs, pos_part, sub_ℕ, ◌+ℤ◌, int64, is_negative, Bool, true,
  false, ◌&&◌, ◌||◌, not, Option, none, some, List, [], ◌∷◌, Text, nat_eq, ltb, leb, is_empty,
  if◌then◌else◌,
}
use z_courier.Downlink.Message.{
  Message, Time, Duration, MessageStatus, sent, status_eq, is_zero, after, zero_time, add_duration,
  DeliveryPolicy, Multiplier, nan, infinite, ratio, default_delivery_policy_name, QueueCapacity,
  TerminalTransition,
}
use z_courier.Downlink.Policy.{DeliveryPolicySet, validate_delivery_policy, resolve}

pub record RetryFairness : Type 0 where
  pub enabled : Bool
  pub candidate_multiplier : ℕ

-- The fields that are interfaces are told by whether they are set; the system has what they hold.
pub record Service : Type 0 where
  pub has_store : Bool
  pub retry_delay : Duration
  pub retry_jitter : Duration
  pub ack_timeout : Duration
  pub retry_claim_owner : Text
  pub retry_claim_lease : Duration
  pub retry_fairness : RetryFairness
  pub max_attempts : ℕ
  pub delivery_policies : Option DeliveryPolicySet
  pub queue_capacity : QueueCapacity
  pub terminal_publisher : Bool
  pub terminal_gateway_node : Text
  pub terminal_retry_delay : Duration
  pub terminal_retry_jitter : Duration
  pub terminal_backoff_multiplier : Multiplier
  pub terminal_max_retry_delay : Duration
  pub terminal_claim_owner : Text
  pub terminal_claim_lease : Duration
  pub gateway_node : Text
  pub online_registry : Bool
  pub peer_dispatcher : Bool

pub record TerminalPublishingConfig : Type 0 where
  pub publisher : Bool
  pub gateway_node : Text
  pub retry_delay : Duration
  pub retry_jitter : ℤ
  pub backoff_multiplier : Multiplier
  pub max_retry_delay : Duration
  pub claim_owner : Text
  pub claim_lease : Duration

pub record ClusterDeliveryConfig : Type 0 where
  pub gateway_node : Text
  pub registry : Bool
  pub peer_dispatcher : Bool

-- One constructor for each function that gives a `ServiceOption`.
pub data ServiceOption : Type 0 where
  with_store : Bool → ServiceOption
  with_retry_delay with_retry_jitter with_ack_timeout : Duration → ServiceOption
  with_max_attempts : ℕ → ServiceOption
  with_delivery_policies : Option DeliveryPolicySet → ServiceOption
  with_queue_capacity : QueueCapacity → ServiceOption
  with_terminal_publishing : TerminalPublishingConfig → ServiceOption
  with_retry_claim : Text → Duration → ServiceOption
  with_retry_fairness : RetryFairness → ServiceOption
  with_cluster_delivery : ClusterDeliveryConfig → ServiceOption

-- `if value > 0 { field = value }`
abbrev pub if_positive : ℕ → ℕ → ℕ
if_positive value field = if ltb 0 value then value else field

-- `config.BackoffMultiplier >= 1`
abbrev pub is_at_least_one : Multiplier → Bool
is_at_least_one nan = false
is_at_least_one infinite = true
is_at_least_one (ratio n d) = not (is_negative n) && leb d (pos_part n)

unfoldable pub apply_option : ServiceOption → Service → Service
apply_option (with_store store) s = record s { has_store = store }
apply_option (with_retry_delay delay) s = record s { retry_delay = if_positive delay s.retry_delay }
apply_option (with_retry_jitter jitter) s = record s {
  retry_jitter = if_positive jitter s.retry_jitter;
}
apply_option (with_ack_timeout timeout) s = record s {
  ack_timeout = if_positive timeout s.ack_timeout;
}
apply_option (with_max_attempts max_attempts) s = record s {
  max_attempts = if_positive max_attempts s.max_attempts;
}
apply_option (with_delivery_policies none) s = s
apply_option (with_delivery_policies (some policies)) s = record s {
  delivery_policies = some policies;
}
apply_option (with_queue_capacity capacity) s = record s { queue_capacity = capacity }
apply_option (with_terminal_publishing config) s = record s {
  terminal_publisher = config.publisher;
  terminal_gateway_node = config.gateway_node;
  terminal_retry_delay = if_positive config.retry_delay s.terminal_retry_delay;
  terminal_retry_jitter =
      if is_negative config.retry_jitter
      then s.terminal_retry_jitter
      else pos_part config.retry_jitter;
  terminal_backoff_multiplier =
      if is_at_least_one config.backoff_multiplier
      then config.backoff_multiplier
      else s.terminal_backoff_multiplier;
  terminal_max_retry_delay = if_positive config.max_retry_delay s.terminal_max_retry_delay;
  terminal_claim_owner = config.claim_owner;
  terminal_claim_lease = if_positive config.claim_lease s.terminal_claim_lease;
}
apply_option (with_retry_claim owner lease) s = record s {
  retry_claim_owner = owner;
  retry_claim_lease = if_positive lease s.retry_claim_lease;
}
apply_option (with_retry_fairness fairness) s = record s { retry_fairness = fairness }
apply_option (with_cluster_delivery config) s = record s {
  gateway_node = config.gateway_node;
  online_registry = config.registry;
  peer_dispatcher = config.peer_dispatcher;
}

abbrev pub half_minute : Duration
half_minute = 30_000_000_000

unfoldable pub default_service : Service
default_service = record {
  has_store = false;
  retry_delay = half_minute;
  retry_jitter = 0;
  ack_timeout = half_minute;
  retry_claim_owner = [];
  retry_claim_lease = half_minute;
  retry_fairness = record { enabled = false; candidate_multiplier = 0 };
  max_attempts = 5;
  delivery_policies = none;
  queue_capacity = record { max_pending_global = 0; max_pending_per_device = 0 };
  terminal_publisher = false;
  terminal_gateway_node = [];
  terminal_retry_delay = half_minute;
  terminal_retry_jitter = 0;
  terminal_backoff_multiplier = ratio (pos 2) 1;
  terminal_max_retry_delay = 300_000_000_000;
  terminal_claim_owner = [];
  terminal_claim_lease = half_minute;
  gateway_node = [];
  online_registry = false;
  peer_dispatcher = false;
}

unfoldable pub apply_options : List ServiceOption → Service → Service
apply_options [] s = s
apply_options (option ∷ options) s = apply_options options (apply_option option s)

unfoldable pub new_service : List ServiceOption → Service
new_service options = apply_options options default_service

-- The store of the model is the one in memory, which is a `TerminalStore`.
unfoldable pub has_terminal_publisher : Service → Bool
has_terminal_publisher s = s.terminal_publisher && s.has_store

-- `DeliveryPolicy`
unfoldable pub delivery_policy : Service → ℕ → DeliveryPolicy
delivery_policy s msg_id = elim s.delivery_policies [
  | some policies ↦ resolve (some policies) msg_id
  | none ↦ record {
    name = default_delivery_policy_name;
    max_attempts = s.max_attempts;
    max_age = pos 0;
    ack_timeout = s.ack_timeout;
    initial_retry_delay = s.retry_delay;
    backoff_multiplier = ratio (pos 1) 1;
    max_retry_delay = s.retry_delay;
    retry_jitter = pos s.retry_jitter;
  }
]

abbrev pub is_valid_policy : DeliveryPolicy → Bool
is_valid_policy p = elim (validate_delivery_policy p) [ none ↦ true | some _ ↦ false ]

unfoldable pub policy_for_message : Service → Message → DeliveryPolicy
policy_for_message s m =
    if not (is_empty m.policy.name) && is_valid_policy m.policy
    then m.policy
    else delivery_policy s m.msg_id

unfoldable pub attach_resolved_policy : Service → Message → Message
attach_resolved_policy s m = record m { policy = policy_for_message s m }

unfoldable pub terminal_transition : Service → Text → Time → Bool → TerminalTransition
terminal_transition s reason at attempted = record {
  reason = reason;
  gateway_node = s.terminal_gateway_node;
  at = at;
  attempted = attempted;
  publish = has_terminal_publisher s;
}

unfoldable pub policy_max_age_exceeded : Message → DeliveryPolicy → Time → Bool
policy_max_age_exceeded m p now =
    if leb (pos_part p.max_age) 0 || is_zero m.created_at
    then false
    else not (after (m.created_at + pos_part p.max_age) now)

unfoldable pub ack_timed_out : Message → DeliveryPolicy → Time → Bool
ack_timed_out m p now =
    if not (status_eq m.status sent) || not m.ack_required
    then false
    else if is_zero m.next_retry_at
    then if is_zero m.sent_at || nat_eq p.ack_timeout 0
      then false
      else not (after (m.sent_at + p.ack_timeout) now)
    else not (after m.next_retry_at now)

unfoldable pub ack_deadline : Message → DeliveryPolicy → Time → Time
ack_deadline m p sent_at =
    if not m.ack_required || nat_eq p.ack_timeout 0 || is_zero sent_at
    then zero_time
    else sent_at + p.ack_timeout

-- What the function field `retryJitterFunc` gives is cut to the range from 0 to the limit.
unfoldable pub cut_jitter : Duration → ℤ → ℤ
cut_jitter max_jitter jitter =
    if is_negative jitter
    then pos 0
    else if ltb max_jitter (pos_part jitter)
    then pos max_jitter
    else jitter

-- `x >= y` and `x <= 0` of two floats.
abbrev pub float_ge : Multiplier → Multiplier → Bool
float_ge nan y = false
float_ge infinite nan = false
float_ge infinite y = true
float_ge (ratio n d) (ratio n' d') =
    if is_negative n
    then is_negative n' && leb (d' * abs n) (d * abs n')
    else is_negative n' || leb (d * pos_part n') (d' * pos_part n)
float_ge (ratio n d) y = false

abbrev pub is_at_most_zero : Multiplier → Bool
is_at_most_zero (ratio n d) = is_negative n || nat_eq (pos_part n) 0
is_at_most_zero _ = false

-- `time.Duration(x)` of a finite float cuts its fraction; Go leaves open what it is of others.
abbrev pub to_duration : Multiplier → ℤ
to_duration (ratio (pos n) d) = pos (n / d)
to_duration (ratio (negsuc n) d) = sub_ℕ 0 (suc n / d)
to_duration _ = pos 0

-- float64's conversion from an integer, its multiplication, and `math.Pow` with a whole exponent.
module _ (float : ℕ → Multiplier) (times : Multiplier → Multiplier → Multiplier)
    (pow : Multiplier → ℕ → Multiplier) where
  -- The tests that both delays share: the limit is `max`, and `initial` is the delay for a
  -- product that is not positive.
  unfoldable pub limited_delay : Duration → Duration → Multiplier → ℤ
  limited_delay initial max infinite = pos max
  limited_delay initial max nan = pos max
  limited_delay initial max delay =
      if float_ge delay (float max)
      then pos max
      else if is_at_most_zero delay
      then pos initial
      else to_duration delay

  unfoldable pub retry_delay_for_attempt : DeliveryPolicy → ℕ → ℤ
  retry_delay_for_attempt p attempts =
      limited_delay p.initial_retry_delay p.max_retry_delay
        (times (float p.initial_retry_delay) (pow p.backoff_multiplier attempts))

  unfoldable pub terminal_retry_delay_for_attempt : Service → ℕ → ℤ
  terminal_retry_delay_for_attempt s attempts =
      limited_delay s.terminal_retry_delay s.terminal_max_retry_delay
        (times (float s.terminal_retry_delay) (pow s.terminal_backoff_multiplier attempts))

  -- With the jitter that is drawn. The sum of the two durations is one of int64.
  unfoldable pub next_retry_at : Time → DeliveryPolicy → ℕ → ℤ → Time
  next_retry_at now p attempts jitter =
      add_duration now (int64 (retry_delay_for_attempt p attempts +ℤ jitter))
