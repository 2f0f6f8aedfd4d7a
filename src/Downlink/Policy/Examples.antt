-- ===== src/Downlink/Policy/Examples.antt =====
-- The theorems on a set of policies at a concrete set.
use z_courier.Base.{
  ◌≡◌, ◌≤◌, refl, pos, none, some, [], ◌∷◌, Text, bytes, text_eq, text_Eq, lookup, insert, sort,
  sort_insert, count, find, map,
}
use z_courier.Base.Results.{ok}
use z_courier.Downlink.Message.{DeliveryPolicy, ratio, default_delivery_policy_name}
use z_courier.Downlink.Policy.{
  DeliveryPolicyRule, DeliveryPolicySet, new_delivery_policy_set, normalize_rules, normalize_rule,
  validate_delivery_policy, valid_delivery_policy_name, check_overlaps, named_default, resolve,
}
use z_courier.Downlink.Policy.Ranges.{covers, policy_of, normalized, resolve-find, resolve-validate}

abbrev named : Text → DeliveryPolicy
named name = record {
  name = name;
  max_attempts = 3;
  max_age = pos 0;
  ack_timeout = 10;
  initial_retry_delay = 20;
  backoff_multiplier = ratio (pos 2) 1;
  max_retry_delay = 60;
  retry_jitter = pos 0;
}

abbrev no_trim : Text → Text
no_trim t = t

abbrev base : DeliveryPolicy
base = named default_delivery_policy_name

abbrev alerts : DeliveryPolicyRule
alerts = record { policy = named (bytes "alerts"); msg_id_min = 20; msg_id_max = 29 }

abbrev chat : DeliveryPolicyRule
chat = record { policy = named (bytes "chat"); msg_id_min = 10; msg_id_max = 15 }

abbrev both : DeliveryPolicySet
both = record {
  default_policy = base;
  rules = chat ∷ alerts ∷ [];
  by_name = insert (bytes "chat") (named (bytes "chat")) (
      insert (bytes "alerts") (named (bytes "alerts"))
        (insert default_delivery_policy_name base []));
}

made : new_delivery_policy_set no_trim base (alerts ∷ chat ∷ []) ≡ ok both
unfolding new_delivery_policy_set normalize_rules normalize_rule validate_delivery_policy
    valid_delivery_policy_name check_overlaps text_eq lookup insert sort sort_insert
made = refl

resolve-find_example :
    (resolve (some both) 12
      ≡ policy_of
          (named_default no_trim base)
          (find (covers 12) (map (normalized no_trim) (alerts ∷ chat ∷ []))))
    × (count (covers 12) (map (normalized no_trim) (alerts ∷ chat ∷ [])) ≤ 1)
resolve-find_example = resolve-find no_trim base (alerts ∷ chat ∷ []) both 12 made

resolve-validate_example : validate_delivery_policy (resolve (some both) 25) ≡ none
resolve-validate_example = resolve-validate no_trim base (alerts ∷ chat ∷ []) both 25 made
