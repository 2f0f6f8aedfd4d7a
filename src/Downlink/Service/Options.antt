-- ===== src/Downlink/Service/Options.antt =====
-- The policies of a service that options have built.
use z_courier.Base.{
  ℕ, ◌≡◌, subst, ◌<◌, Option-cases, none, some, List, [], ◌∷◌, Text, All, inl, inr, arith,
}
use z_courier.Base.Results.{ok}
use z_courier.Downlink.Message.{Message, DeliveryPolicy}
use z_courier.Downlink.Policy.{
  DeliveryPolicyRule, DeliveryPolicySet, validate_delivery_policy, valid_delivery_policy_name,
  new_delivery_policy_set,
}
use z_courier.Downlink.Policy.Ranges.{resolve-validate}
use z_courier.Downlink.Service.{
  Service, ServiceOption, with_delivery_policies, apply_option, apply_options, default_service,
  new_service, delivery_policy, policy_for_message,
}

module _ (trim : Text → Text) where
  abbrev pub IsMade : DeliveryPolicySet → Type 0
  IsMade s =
      (default : DeliveryPolicy) × (rules : List DeliveryPolicyRule) × (new_delivery_policy_set trim
          default rules
        ≡ ok s)

  -- A set of policies that is given as an option comes from its constructor.
  abbrev pub IsMadeOption : ServiceOption → Type 0
  IsMadeOption (with_delivery_policies (some s)) = IsMade s
  IsMadeOption _ = Unit

  record IsReady (s : Service) : Type 0 where
    retry_delay : 0 < s.retry_delay
    ack_timeout : 0 < s.ack_timeout
    max_attempts : 0 < s.max_attempts
    policies : (p : DeliveryPolicySet) → s.delivery_policies ≡ some p → IsMade p

  default_service-IsReady : IsReady default_service
  unfolding default_service
  default_service-IsReady = record {
    retry_delay = omega arith;
    ack_timeout = omega arith;
    max_attempts = omega arith;
    policies = λ p h. ground (arith, h);
  }

  apply_option-IsReady :
      (o : ServiceOption) (s : Service) → IsMadeOption o → IsReady s → IsReady (apply_option o s)
  unfolding apply_option
  apply_option-IsReady (with_delivery_policies (some p)) s made r = record {
    retry_delay = r.retry_delay;
    ack_timeout = r.ack_timeout;
    max_attempts = r.max_attempts;
    policies = λ p' h. subst IsMade (ground (arith, h)) made;
  }
  apply_option-IsReady (with_delivery_policies none) s made r = r
  apply_option-IsReady o s made r = record {
    retry_delay = ground (arith, r.retry_delay);
    ack_timeout = ground (arith, r.ack_timeout);
    max_attempts = ground (arith, r.max_attempts);
    policies = r.policies;
  }

  apply_options-IsReady :
      (os : List ServiceOption) (s : Service)
      → All IsMadeOption os
      → IsReady s
      → IsReady (apply_options os s)
  unfolding apply_options
  apply_options-IsReady [] s made r = r
  apply_options-IsReady (o ∷ os) s made r =
      apply_options-IsReady os (apply_option o s) made.1 (apply_option-IsReady o s made.0 r)

  delivery_policy-valid :
      (s : Service) (msg_id : ℕ)
      → IsReady s
      → validate_delivery_policy (delivery_policy s msg_id) ≡ none
  unfolding delivery_policy validate_delivery_policy valid_delivery_policy_name
  delivery_policy-valid s msg_id r = elim (Option-cases s.delivery_policies) [
    | inr (p, set) ↦
        let (default, rules, made) = r.policies p set in
        rw (set, delivery_policy) (resolve-validate trim default rules p msg_id made)
    | inl unset ↦
        rw (unset, delivery_policy) (ground (arith, r.retry_delay, r.ack_timeout, r.max_attempts))
  ]

  -- Whatever options a service is made with, a set of policies among them coming from
  -- `NewDeliveryPolicySet`, the policy in effect for any message passes the checks of a policy: the
  -- message's own, if it passes them, and the service's if not. So no attempt is made under a
  -- policy without attempts, without an acknowledgement timeout or with a shrinking delay.
  pub policy_for_message-valid :
      (options : List ServiceOption) (m : Message)
      → All IsMadeOption options
      → validate_delivery_policy (policy_for_message (new_service options) m) ≡ none
  unfolding policy_for_message new_service
  policy_for_message-valid options m made =
      let ready = apply_options-IsReady options default_service made default_service-IsReady in
      let fallback = delivery_policy-valid (apply_options options default_service) m.msg_id ready in
      elim (Option-cases (validate_delivery_policy m.policy)) [
        | inl valid ↦ ground (arith, valid, fallback)
        | inr (e, invalid) ↦ ground (arith, invalid, fallback)
      ]
