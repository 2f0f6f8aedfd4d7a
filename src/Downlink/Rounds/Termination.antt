-- ===== src/Downlink/Rounds/Termination.antt =====
-- A message that stays due does not stay pending: its attempts end.
use z_courier.Base.{
  ℕ, ◌<◌, true, false, zero, suc, ◌+◌, ◌≤◌, ◌≡◌, refl, ap, sym, subst, inl, inr, ◌⊎◌, none, some,
  Text, text_Eq, lookup, if◌then◌else◌, arith,
}
use z_courier.Downlink.Message.{Message, DeliveryPolicy, pending, sent, failed, status_eq}
use z_courier.Downlink.Store.{MemoryStore}
use z_courier.Downlink.Service.{Service, policy_for_message}
use z_courier.Downlink.System.{Outside, System}
use z_courier.Downlink.Rounds.{retry_message}
use z_courier.Downlink.Rounds.Progress.{retry_message-Attempted}

-- The rounds of retries that meet the message, as long as it is pending.
unfoldable pub retry_rounds : {W : Type 0} → Outside W → Service → ℕ → Text → System W → System W
retry_rounds out svc zero id s = s
retry_rounds out svc (suc n) id s = elim (lookup id s.store.messages) [
  | none ↦ s
  | some m ↦
      let rest = retry_rounds out svc n id (retry_message out svc m s).0 in
      if status_eq m.status pending then rest else s
]

-- The message under an id is failed or with its device.
abbrev pub IsDone : Text → MemoryStore → Type 0
IsDone id s =
    (m : Message) × (lookup id s.messages ≡ some m) × ((m.status ≡ failed) ⊎ (m.status ≡ sent))

module _ {W : Type 0} (out : Outside W) (svc : Service) where
  rounds_stop :
      (n : ℕ) (id : Text) (s : System W)
      → IsDone id s.store
      → IsDone id (retry_rounds out svc n id s).store
  unfolding retry_rounds
  rounds_stop zero id s done = done
  rounds_stop (suc n) id s (m, found, ended) =
      let over : status_eq m.status pending ≡ false = ground (arith, ended) in
      rw (found, retry_rounds, over) (m, found, ended)

  same_policy :
      (m m' : Message)
      → m'.policy ≡ m.policy
      → m'.msg_id ≡ m.msg_id
      → policy_for_message svc m' ≡ policy_for_message svc m
  unfolding policy_for_message
  same_policy m m' p i = rw (p, i) refl

  abbrev MoreRounds : ℕ → Message → System W → Type 0
  MoreRounds n m s =
      (m' : Message) (t : System W)
      → lookup m.message_id t.store.messages ≡ some m'
      → m'.message_id ≡ m.message_id
      → m'.status ≡ pending
      → m'.attempts < (policy_for_message svc m').max_attempts
      → (policy_for_message svc m').max_attempts ≤ m'.attempts + n
      → IsDone m.message_id (retry_rounds out svc n m.message_id t).store

  module _ (fine : (w : W) → (out.done w).1 ≡ none) where
    one_round :
        (n : ℕ) (m : Message) (s : System W)
        → lookup m.message_id s.store.messages ≡ some m
        → m.status ≡ pending
        → (policy_for_message svc m).max_attempts ≤ m.attempts + suc n
        → MoreRounds n m s
        → IsDone m.message_id (retry_rounds out svc (suc n) m.message_id s).store
    unfolding retry_rounds
    one_round n m s found waits enough more =
        let (m', found', ended) = retry_message-Attempted out svc fine m s found waits in
        let waiting : status_eq m.status pending ≡ true = ground (arith, waits) in
        let rest : IsDone m.message_id
            (retry_rounds out svc n m.message_id (retry_message out svc m s).0).store =
          elim ended [
            | inl fails ↦ rounds_stop n _ _ (m', found', inl fails)
            | inr (inl sends) ↦ rounds_stop n _ _ (m', found', inr sends)
            | inr (inr (waits', counted, below, same_id, same, same_msg)) ↦
                let policy : (policy_for_message svc m').max_attempts
                    ≡ (policy_for_message svc m).max_attempts =
                  ap (λ (p : DeliveryPolicy). p.max_attempts) (same_policy m m' same same_msg) in
                more m' _ found' same_id waits' (omega (arith, policy, below))
                  (omega (arith, policy, counted, enough))
          ] in
        rw (found, retry_rounds, waiting) rest

    more_rounds : (n : ℕ) (m : Message) (s : System W) → MoreRounds n m s
    more_rounds zero m s m' t found id waits below enough = absurd (omega (arith, below, enough))
    more_rounds (suc n) m s m' t found id waits below enough =
        subst (λ k. IsDone k (retry_rounds out svc (suc n) k t).store) id
          (one_round n m' t (subst (λ k. lookup k t.store.messages ≡ some m') (sym id) found) waits
            enough (more_rounds n m' t))

    -- With contexts that are never done, a pending message is retried at most as often as its
    -- policy allows: after that many rounds that meet it, and at least one, it is pending no
    -- more, but failed or sent, whatever the connections, the peers and the routes do meanwhile.
    pub retry_rounds-IsDone :
        (n : ℕ) (m : Message) (s : System W)
        → lookup m.message_id s.store.messages ≡ some m
        → m.status ≡ pending
        → (policy_for_message svc m).max_attempts ≤ m.attempts + suc n
        → IsDone m.message_id (retry_rounds out svc (suc n) m.message_id s).store
    retry_rounds-IsDone n m s found waits enough =
        one_round n m s found waits enough (more_rounds n m s)
