-- ===== src/Downlink/Policy/Ranges.antt =====
-- The ranges of a set of delivery policies do not overlap, so the order of the rules is of no matter.
use z_courier.Base.{
  ℕ, ◌+◌, ◌≡◌, ◌≤◌, ◌<◌, refl, subst, ap, ◌∙◌, inl, inr, Bool, ◌&&◌, Option, none, some, List, [],
  ◌∷◌, Text, text_Eq, Map, insert, map, sort, sort-All, count, count-sort, find, find-none,
  find-sort, All, All-map, ltb, leb, arith, Bool-cases, Option-cases,
}
use z_courier.Base.Results.{ok, Result-cases}
use z_courier.Downlink.Message.{DeliveryPolicy}
use z_courier.Downlink.Policy.{
  DeliveryPolicyRule, DeliveryPolicySet, validate_delivery_policy, rule_before, check_overlaps,
  with_range_max, trimmed, normalize_rule, normalize_rules, named_default, new_delivery_policy_set,
  resolve_rules, resolve,
}

-- `msg_id` lies in the range of the rule.
abbrev pub covers : ℕ → DeliveryPolicyRule → Bool
covers msg_id r = leb r.msg_id_min msg_id && leb msg_id r.msg_id_max

-- What a rule has once it is accepted.
pub record IsNormal (r : DeliveryPolicyRule) : Type 0 where
  pub range : r.msg_id_min ≤ r.msg_id_max
  pub policy : validate_delivery_policy r.policy ≡ none

-- Each range ends before the later ones begin.
abbrev Ascending : List DeliveryPolicyRule → Type 0
Ascending [] = Unit
Ascending (r ∷ rules) = All (λ x. r.msg_id_max < x.msg_id_min) rules × Ascending rules

check_overlaps-Ascending :
    (rules : List DeliveryPolicyRule)
    → All IsNormal rules
    → check_overlaps rules ≡ none
    → Ascending rules
unfolding check_overlaps
check_overlaps-Ascending [] n h = tt
check_overlaps-Ascending (r ∷ []) n h = (tt, tt)
check_overlaps-Ascending (r ∷ x ∷ rules) n h =
    let above : r.msg_id_max < x.msg_id_min = ground arith in
    let rest : Ascending (x ∷ rules) = check_overlaps-Ascending (x ∷ rules) n.1 (ground arith) in
    (
      (
        above,
        All-map (λ y. x.msg_id_max < y.msg_id_min) (λ y. r.msg_id_max < y.msg_id_min)
            (λ y h. ground (arith, n.1.0.range)) rules rest.0,
      ),
      rest,
    )

count-above :
    (msg_id : ℕ) (rules : List DeliveryPolicyRule)
    → All (λ x. msg_id < x.msg_id_min) rules
    → count (covers msg_id) rules ≡ 0
count-above msg_id [] h = refl
count-above msg_id (x ∷ rules) h = ground (arith, count-above msg_id rules h.1)

count-covers :
    (msg_id : ℕ) (rules : List DeliveryPolicyRule)
    → Ascending rules
    → count (covers msg_id) rules ≤ 1
count-covers msg_id [] a = omega arith
count-covers msg_id (r ∷ rules) a = elim (Bool-cases (covers msg_id r)) [
  | inr miss ↦ rw miss (ground (arith, count-covers msg_id rules a.1))
  | inl hit ↦
      let none_above : count (covers msg_id) rules ≡ 0 = count-above msg_id rules (
        All-map (λ x. r.msg_id_max < x.msg_id_min) (λ x. msg_id < x.msg_id_min)
          (λ x h. ground arith) rules a.0) in
      ground arith
]

-- The policy of the rule that `find` gives, or the default one.
abbrev pub policy_of : DeliveryPolicy → Option DeliveryPolicyRule → DeliveryPolicy
policy_of default none = default
policy_of default (some r) = r.policy

resolve_rules-find :
    (msg_id : ℕ) (rules : List DeliveryPolicyRule) (default : DeliveryPolicy)
    → Ascending rules
    → All IsNormal rules
    → resolve_rules msg_id rules default ≡ policy_of default (find (covers msg_id) rules)
unfolding resolve_rules
resolve_rules-find msg_id [] default a n = refl
resolve_rules-find msg_id (r ∷ rules) default a n = elim (Bool-cases (ltb msg_id r.msg_id_min)) [
  | inl below ↦
      let none_above : count (covers msg_id) rules ≡ 0 = count-above msg_id rules (
        All-map (λ x. r.msg_id_max < x.msg_id_min) (λ x. msg_id < x.msg_id_min)
          (λ x h. ground (arith, n.0.range)) rules a.0) in
      ground (arith, find-none (covers msg_id) rules)
  | inr above ↦ ground (arith, resolve_rules-find msg_id rules default a.1 n.1)
]

module _ (trim : Text → Text) where
  -- A rule as it is kept: its policy's name trimmed, its range completed.
  abbrev pub normalized : DeliveryPolicyRule → DeliveryPolicyRule
  normalized r = with_range_max (record r { policy = trimmed trim r.policy })

  normalize_rule-IsNormal :
      (index : ℕ) (r r' : DeliveryPolicyRule) (by_name : Map Text DeliveryPolicy)
      → normalize_rule trim index r by_name ≡ ok r'
      → (r' ≡ normalized r) × IsNormal r'
  unfolding normalize_rule
  normalize_rule-IsNormal index r r' by_name h =
      let same : r' ≡ normalized r = ground arith in
      let range : r'.msg_id_min ≤ r'.msg_id_max = ground arith in
      let valid : validate_delivery_policy r'.policy ≡ none = ground arith in
      (same, record { range = range; policy = valid })

  normalize_rules-IsNormal :
      (index : ℕ) (rules rest : List DeliveryPolicyRule)
      (by_name by_name' : Map Text DeliveryPolicy)
      → normalize_rules trim index rules by_name ≡ ok (rest, by_name')
      → (rest ≡ map normalized rules) × All IsNormal rest
  unfolding normalize_rules
  normalize_rules-IsNormal index [] rest by_name by_name' h =
      let same : rest ≡ [] = ground arith in (same, rw same tt)
  normalize_rules-IsNormal index (r ∷ rules) rest by_name by_name' h =
      elim (Result-cases (normalize_rule trim index r by_name)) [
        | inl (e, bad) ↦ ground arith
        | inr (r', good) ↦
            elim (Result-cases
              (normalize_rules trim (index + 1) rules (insert r'.policy.name r'.policy by_name))) [
                | inl (e, bad) ↦ ground arith
                | inr ((tail, last), made) ↦
                    let (same, n) = normalize_rule-IsNormal index r r' by_name good in
                    let (sames, ns) = normalize_rules-IsNormal (index + 1) rules tail _ last made in
                    let whole : rest ≡ r' ∷ tail = ground arith in
                    (rw (whole, same, sames) refl, rw whole (n, ns))
              ]
      ]

  -- What a set holds when it could be made.
  record IsMade (default : DeliveryPolicy) (rules : List DeliveryPolicyRule) (s : DeliveryPolicySet)
      : Type 0 where
    default_policy : s.default_policy ≡ named_default trim default
    default_valid : validate_delivery_policy (named_default trim default) ≡ none
    sorted : s.rules ≡ sort rule_before (map normalized rules)
    normal : All IsNormal s.rules
    ascending : Ascending s.rules

  new_delivery_policy_set-IsMade :
      (default : DeliveryPolicy) (rules : List DeliveryPolicyRule) (s : DeliveryPolicySet)
      → new_delivery_policy_set trim default rules ≡ ok s
      → IsMade default rules s
  unfolding new_delivery_policy_set
  new_delivery_policy_set-IsMade default rules s h =
      let p = named_default trim default in
      elim (Option-cases (validate_delivery_policy p)) [
        | inr (e, bad) ↦ ground arith
        | inl valid ↦ elim (Result-cases (normalize_rules trim 0 rules (insert p.name p []))) [
          | inl (e, bad) ↦ ground arith
          | inr ((kept, by_name), made) ↦
              let (same, n) = normalize_rules-IsNormal 0 rules kept _ by_name made in
              let apart : check_overlaps (sort rule_before kept) ≡ none = ground arith in
              let set : s ≡ record {
                default_policy = p;
                rules = sort rule_before kept;
                by_name = by_name;
              } =
                ground arith in
              rw set (record {
                default_policy = refl;
                default_valid = valid;
                sorted = ap (sort rule_before) same;
                normal = sort-All rule_before IsNormal kept n;
                ascending =
                    check_overlaps-Ascending (sort rule_before kept)
                      (sort-All rule_before IsNormal kept n) apart;
              })
        ]
      ]

  -- A set that could be made gives each message id the policy of the only rule whose range has the
  -- id, or the default policy: the rules may be written in any order.
  pub resolve-find :
      (default : DeliveryPolicy) (rules : List DeliveryPolicyRule) (s : DeliveryPolicySet)
      (msg_id : ℕ)
      → new_delivery_policy_set trim default rules ≡ ok s
      → (resolve (some s) msg_id
          ≡ policy_of (named_default trim default) (find (covers msg_id) (map normalized rules)))
        × (count (covers msg_id) (map normalized rules) ≤ 1)
  unfolding resolve
  resolve-find default rules s msg_id h =
      let made = new_delivery_policy_set-IsMade default rules s h in
      let kept = map normalized rules in
      let once : count (covers msg_id) kept ≤ 1 =
        subst (◌≤ 1)
          (ap (count (covers msg_id)) made.sorted ∙ count-sort rule_before (covers msg_id) kept)
          (count-covers msg_id s.rules made.ascending) in
      let found : find (covers msg_id) s.rules ≡ find (covers msg_id) kept =
        ap (find (covers msg_id)) made.sorted ∙ find-sort rule_before (covers msg_id) kept once in
      (
        resolve_rules-find msg_id s.rules s.default_policy made.ascending made.normal
            ∙ ap (λ d. policy_of d (find (covers msg_id) s.rules)) made.default_policy
            ∙ ap (policy_of (named_default trim default)) found,
        once,
      )

  find-valid :
      (msg_id : ℕ) (rules : List DeliveryPolicyRule) (default : DeliveryPolicy)
      → All IsNormal rules
      → validate_delivery_policy default ≡ none
      → validate_delivery_policy (policy_of default (find (covers msg_id) rules)) ≡ none
  find-valid msg_id [] default n d = d
  find-valid msg_id (r ∷ rules) default n d = elim (Bool-cases (covers msg_id r)) [
    | inl hit ↦ rw hit n.0.policy
    | inr miss ↦ rw miss (find-valid msg_id rules default n.1 d)
  ]

  -- Whatever id a set that could be made is asked for, the policy that it gives passes the checks.
  pub resolve-validate :
      (default : DeliveryPolicy) (rules : List DeliveryPolicyRule) (s : DeliveryPolicySet)
      (msg_id : ℕ)
      → new_delivery_policy_set trim default rules ≡ ok s
      → validate_delivery_policy (resolve (some s) msg_id) ≡ none
  unfolding resolve
  resolve-validate default rules s msg_id h =
      let made = new_delivery_policy_set-IsMade default rules s h in
      rw
        (
          resolve_rules-find msg_id s.rules s.default_policy made.ascending made.normal,
          made.default_policy,
        )
        (find-valid msg_id s.rules (named_default trim default) made.normal made.default_valid)
