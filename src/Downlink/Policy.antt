-- ===== src/Downlink/Policy.antt =====
-- internal/downlink/policy.go: the rules that give each message id one delivery policy.
-- `strings.TrimSpace` is the parameter `trim`.
pub mod Ranges
mod Examples
use z_courier.Base.{
  ℕ, ◌+◌, ℤ, is_negative, pos_part, Bool, true, false, ◌&&◌, ◌||◌, not, Option, none, some, List,
  [], ◌∷◌, Text, text_eq, text_lt, text_Eq, Map, lookup, insert, sort, length, nat_eq, ltb, leb,
  is_empty, if◌then◌else◌,
}
use z_courier.Base.Results.{Result, ok, err}
use z_courier.Downlink.Message.{
  DeliveryPolicy, Multiplier, nan, infinite, ratio, default_delivery_policy_name, zero_message,
}

pub record DeliveryPolicyRule : Type 0 where
  pub policy : DeliveryPolicy
  pub msg_id_min : ℕ
  pub msg_id_max : ℕ

pub record DeliveryPolicySet : Type 0 where
  pub default_policy : DeliveryPolicy
  pub rules : List DeliveryPolicyRule
  pub by_name : Map Text DeliveryPolicy

-- The reasons for which the source formats an error; a rule's reason comes with its index.
pub data Error : Type 0 where
  default_name invalid_name max_attempts max_age ack_timeout retry_delay backoff_multiplier
        max_retry_delay retry_jitter :
      Error
  reserved_name duplicate_name msg_id_min msg_id_max : Error
  rule : ℕ → Error → Error
  overlap : Text → Text → Error

-- `char == '_' || char == '-' || …` of the loop over a name.
abbrev pub is_name_char : ℕ → Bool
is_name_char c = nat_eq c 95 || nat_eq c 45 || leb 97 c && leb c 122 || leb 48 c && leb c 57

abbrev pub all_name_chars : Text → Bool
all_name_chars [] = true
all_name_chars (c ∷ cs) = is_name_char c && all_name_chars cs

unfoldable pub valid_delivery_policy_name : Text → Bool
valid_delivery_policy_name [] = false
valid_delivery_policy_name (c ∷ cs) =
    not (ltb 64 (length (c ∷ cs))) && (not (ltb c 97) && (not (ltb 122 c) && all_name_chars cs))

-- The test of the multiplier, `IsNaN`, `IsInf` or below 1.
abbrev pub is_bad_multiplier : Multiplier → Bool
is_bad_multiplier nan = true
is_bad_multiplier infinite = true
is_bad_multiplier (ratio n d) = is_negative n || ltb (pos_part n) d

unfoldable pub validate_delivery_policy : DeliveryPolicy → Option Error
validate_delivery_policy p =
    if not (valid_delivery_policy_name p.name)
    then some invalid_name
    else if nat_eq p.max_attempts 0
    then some max_attempts
    else if is_negative p.max_age
    then some max_age
    else if nat_eq p.ack_timeout 0
    then some ack_timeout
    else if nat_eq p.initial_retry_delay 0
    then some retry_delay
    else if is_bad_multiplier p.backoff_multiplier
    then some backoff_multiplier
    else if ltb p.max_retry_delay p.initial_retry_delay
    then some max_retry_delay
    else if is_negative p.retry_jitter
    then some retry_jitter
    else none

abbrev pub rule_before : DeliveryPolicyRule → DeliveryPolicyRule → Bool
rule_before l r =
    if nat_eq l.msg_id_min r.msg_id_min
    then if nat_eq l.msg_id_max r.msg_id_max
      then text_lt l.policy.name r.policy.name
      else ltb l.msg_id_max r.msg_id_max
    else ltb l.msg_id_min r.msg_id_min

-- The loop over neighbours in the sorted rules.
unfoldable pub check_overlaps : List DeliveryPolicyRule → Option Error
check_overlaps [] = none
check_overlaps (r ∷ []) = none
check_overlaps (previous ∷ current ∷ rules) =
    let rest = check_overlaps (current ∷ rules) in
    if leb current.msg_id_min previous.msg_id_max
    then some (overlap current.policy.name previous.policy.name)
    else rest

-- `rule.Policy.Name = …` and `rule.MsgIDMax = …`
abbrev pub with_range_max : DeliveryPolicyRule → DeliveryPolicyRule
with_range_max r = record r {
  msg_id_max = if nat_eq r.msg_id_max 0 then r.msg_id_min else r.msg_id_max;
}

module _ (trim : Text → Text) where
  abbrev pub trimmed : DeliveryPolicy → DeliveryPolicy
  trimmed p = record p { name = trim p.name }

  -- The body of the loop over the rules.
  unfoldable pub normalize_rule :
      ℕ → DeliveryPolicyRule → Map Text DeliveryPolicy → Result Error DeliveryPolicyRule
  normalize_rule index r by_name =
      let p = trimmed r.policy in
      let r' : DeliveryPolicyRule = with_range_max (record r { policy = p }) in
      if text_eq p.name default_delivery_policy_name
      then err (rule (index + 1) reserved_name)
      else elim (validate_delivery_policy p) [
        | some e ↦ err (rule (index + 1) e)
        | none ↦ elim (lookup p.name by_name) [
          | some _ ↦ err duplicate_name
          | none ↦
              if nat_eq r.msg_id_min 0
              then err msg_id_min
              else if ltb r'.msg_id_max r'.msg_id_min
              then err msg_id_max
              else ok r'
        ]
      ]

  -- The loop over the rules: those that it appends, and the policies by name.
  unfoldable pub normalize_rules :
      ℕ
      → List DeliveryPolicyRule
      → Map Text DeliveryPolicy
      → Result Error (List DeliveryPolicyRule × Map Text DeliveryPolicy)
  normalize_rules index [] by_name = ok ([], by_name)
  normalize_rules index (r ∷ rules) by_name = elim (normalize_rule index r by_name) [
    | err e ↦ err e
    | ok r' ↦ elim (normalize_rules (index + 1) rules (insert r'.policy.name r'.policy by_name)) [
      | err e ↦ err e
      | ok (rest, by_name') ↦ ok (r' ∷ rest, by_name')
    ]
  ]

  -- The default policy with its name.
  abbrev pub named_default : DeliveryPolicy → DeliveryPolicy
  named_default p = record p {
    name = if is_empty (trim p.name) then default_delivery_policy_name else trim p.name;
  }

  unfoldable pub new_delivery_policy_set :
      DeliveryPolicy → List DeliveryPolicyRule → Result Error DeliveryPolicySet
  new_delivery_policy_set default rules =
      let p = named_default default in
      if not (text_eq p.name default_delivery_policy_name)
      then err default_name
      else elim (validate_delivery_policy p) [
        | some e ↦ err e
        | none ↦ elim (normalize_rules 0 rules (insert p.name p [])) [
          | err e ↦ err e
          | ok (normalized, by_name) ↦
              let sorted = sort rule_before normalized in
              elim (check_overlaps sorted) [
                | some e ↦ err e
                | none ↦ ok (record { default_policy = p; rules = sorted; by_name = by_name })
              ]
        ]
      ]

  unfoldable pub policy : Option DeliveryPolicySet → Text → Option DeliveryPolicy
  policy none name = none
  policy (some s) name = lookup (trim name) s.by_name

-- The loop of `Resolve`, which breaks at a rule above the id.
unfoldable pub resolve_rules : ℕ → List DeliveryPolicyRule → DeliveryPolicy → DeliveryPolicy
resolve_rules msg_id [] default = default
resolve_rules msg_id (r ∷ rules) default =
    let rest = resolve_rules msg_id rules default in
    if ltb msg_id r.msg_id_min then default else if leb msg_id r.msg_id_max then r.policy else rest

-- A nil set resolves to the zero value.
unfoldable pub resolve : Option DeliveryPolicySet → ℕ → DeliveryPolicy
resolve none msg_id = zero_message.policy
resolve (some s) msg_id = resolve_rules msg_id s.rules s.default_policy
