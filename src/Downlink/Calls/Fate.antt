-- ===== src/Downlink/Calls/Fate.antt =====
-- What one call does to each message of the store.
use z_courier.Base.{
  ◌≡◌, refl, inl, inr, Bool, true, false, ◌||◌, not, Option, none, some, Text, text_eq, text_eq_iff,
  text_Eq, lookup, insert, lookup-insert, Bool-cases, Option-cases, arith, if◌then◌else◌, nat_eq,
  length,
}
use z_courier.Downlink.Message.{Message, Time, MessageStatus, TerminalTransition, QueueCapacity}
use z_courier.Downlink.Store.{
  Context, Result, err, message_not_found, with_message, MemoryStore, put_message, is_pending,
  save_with_capacity, save_existing, save_new, refresh_fingerprint, prepare, check_queue_capacity,
}
use z_courier.Downlink.Marks.{
  is_settled, mark_sent, sent_message, mark_delivered, delivered_message, mark_attempt_failed,
  retried_message, requeue_with_capacity, requeued_message,
}
use z_courier.Downlink.Terminal.{
  mark_failed, discard, settle, publish_event, first_transition, apply_terminal_record,
  failed_message, discarded_message, new_terminal_event,
}
use z_courier.Downlink.Calls.{
  Call, saves, sends, delivers, retries, requeues, fails, discards, is_save, Fate, Kept, Keyed,
  allowed,
}

pub self-Fate : (c : Call) (j : Text) (o : Option Message) → Fate c j o o
self-Fate c j none = tt
self-Fate c j (some m) = inl refl

-- The write of a changed message.
pub put-Fate :
    (c : Call) (id j : Text) (s : MemoryStore) (old new : Message)
    → lookup id s.messages ≡ some old
    → Kept old new
    → (text_eq id j ≡ true → allowed c j old.status new.status ≡ true)
    → Fate c j (lookup j s.messages) (lookup j (insert id new s.messages))
put-Fate c id j s old new found kept may = elim (Bool-cases (text_eq id j)) [
  | inl hit ↦
      let same : id ≡ j = (text_eq_iff id j).0 hit in
      let here : lookup j s.messages ≡ some old = rw (← same) found in
      rw (lookup-insert id j new s.messages, hit, here) (inr (kept, may hit))
  | inr miss ↦ rw (lookup-insert id j new s.messages, miss) (self-Fate c j (lookup j s.messages))
]

module _ {ℓ} {A : Type ℓ} (c : Call) (j : Text) (id : Text) (s : MemoryStore) where
  found-Fate :
      (o : Option Message) (change : Message → MemoryStore × Result A)
      → lookup id s.messages ≡ o
      → ((m : Message)
          → lookup id s.messages ≡ some m
          → Fate c j (lookup j s.messages) (lookup j (change m).0.messages))
      → Fate c j (lookup j s.messages) (
          lookup j (
            let r : MemoryStore × Result A = elim o [
              | none ↦ (s, err message_not_found)
              | some m ↦ change m
            ] in
            r.0.messages))
  found-Fate none change e keep = self-Fate c j (lookup j s.messages)
  found-Fate (some m) change e keep = keep m e

  -- A method that changes one message.
  with_message-Fate :
      (ctx : Context) (change : Message → MemoryStore × Result A)
      → ((m : Message)
          → lookup id s.messages ≡ some m
          → Fate c j (lookup j s.messages) (lookup j (change m).0.messages))
      → Fate c j (lookup j s.messages) (lookup j (with_message ctx id s change).0.messages)
  with_message-Fate (some e) change keep = self-Fate c j (lookup j s.messages)
  with_message-Fate none change keep = found-Fate (lookup id s.messages) change refl keep

module _ (s : MemoryStore) (keyed : Keyed s) (j : Text) where
  -- The write of a message under its id, which the change has kept.
  pub put_message-Fate :
      (c : Call) (id : Text) (old new : Message)
      → lookup id s.messages ≡ some old
      → Kept old new
      → (text_eq id j ≡ true → allowed c j old.status new.status ≡ true)
      → Fate c j (lookup j s.messages) (lookup j (put_message id new s).messages)
  put_message-Fate c id old new found kept may = put-Fate c id j s old new found kept may

  pub sends-Fate :
      (ctx : Context) (now : Time) (id session : Text) (at next : Time)
      → Fate
          (sends ctx now id session at next)
          j
          (lookup j s.messages)
          (lookup j (mark_sent ctx now id session at next s).0.messages)
  unfolding mark_sent sent_message
  sends-Fate ctx now id session at next =
      let c = sends ctx now id session at next in
      with_message-Fate c j id s ctx _ λ m found. elim (Bool-cases (is_settled m)) [
        | inl settled ↦ rw settled (self-Fate c j (lookup j s.messages))
        | inr unsettled ↦
            rw unsettled (put_message-Fate c id m _ found (ground arith) λ hit. ground arith)
      ]

  pub retries-Fate :
      (ctx : Context) (now : Time) (id reason : Text) (next : Time)
      → Fate
          (retries ctx now id reason next)
          j
          (lookup j s.messages)
          (lookup j (mark_attempt_failed ctx now id reason next s).0.messages)
  unfolding mark_attempt_failed retried_message
  retries-Fate ctx now id reason next =
      let c = retries ctx now id reason next in
      with_message-Fate c j id s ctx _ λ m found. elim (Bool-cases (is_settled m)) [
        | inl settled ↦ rw settled (self-Fate c j (lookup j s.messages))
        | inr unsettled ↦
            rw unsettled (put_message-Fate c id m _ found (ground arith) λ hit. ground arith)
      ]

  pub delivers-Fate :
      (ctx : Context) (now : Time) (id client device : Text) (at : Time)
      → Fate
          (delivers ctx now id client device at)
          j
          (lookup j s.messages)
          (lookup j (mark_delivered ctx now id client device at s).0.messages)
  unfolding mark_delivered delivered_message
  delivers-Fate ctx now id client device at =
      let c = delivers ctx now id client device at in
      with_message-Fate c j id s ctx _ λ m found.
        elim (Bool-cases (not (text_eq m.client_id client) || not (text_eq m.device_id device))) [
          | inl other ↦ rw other (self-Fate c j (lookup j s.messages))
          | inr own ↦ rw own (put_message-Fate c id m _ found (ground arith) λ hit. ground arith)
        ]

  pub requeues-Fate :
      (ctx : Context) (now : Time) (id : Text) (at : Time) (q : QueueCapacity)
      → Fate
          (requeues ctx now id at q)
          j
          (lookup j s.messages)
          (lookup j (requeue_with_capacity ctx now id at q s).0.messages)
  unfolding requeue_with_capacity requeued_message
  requeues-Fate ctx now id at q =
      let c = requeues ctx now id at q in
      with_message-Fate c j id s ctx _ λ m found.
        elim (Option-cases
          (if is_pending m then none else check_queue_capacity m.client_id m.device_id q s)) [
            | inr (e, full) ↦ rw full (self-Fate c j (lookup j s.messages))
            | inl room ↦
                rw room (put_message-Fate c id m _ found (ground arith) λ hit. ground arith)
          ]

  -- What both terminal calls do: the outbox is another map.
  publish_event-Fate :
      (c : Call) (id : Text) (status : MessageStatus) (t : TerminalTransition) (old new : Message)
      → lookup id s.messages ≡ some old
      → Kept old new
      → (text_eq id j ≡ true → allowed c j old.status new.status ≡ true)
      → Fate c j (lookup j s.messages) (lookup j (publish_event id status t new s).messages)
  unfolding publish_event apply_terminal_record
  publish_event-Fate c id status t old new found kept may =
      elim (Option-cases (lookup (new_terminal_event new status t).event_id s.terminal_events)) [
        | inl fresh ↦
            rw (fresh, publish_event) (put_message-Fate c id old _ found (ground arith) may)
        | inr (r, known) ↦
            rw (known, publish_event) (put_message-Fate c id old _ found (ground arith) may)
      ]

  settle-Fate :
      (c : Call) (id : Text) (first : Bool) (status : MessageStatus) (t : TerminalTransition)
      (old new : Message)
      → lookup id s.messages ≡ some old
      → Kept old new
      → (text_eq id j ≡ true → allowed c j old.status new.status ≡ true)
      → Fate c j (lookup j s.messages) (lookup j (settle id first status t new s).messages)
  unfolding settle first_transition
  settle-Fate c id false status t old new found kept may =
      put_message-Fate c id old new found kept may
  settle-Fate c id true status t old new found kept may =
      let new' = first_transition t new in
      let kept' : Kept old new' = ground arith in
      elim t.publish
        as (λ b. Fate c j (lookup j s.messages) (
          lookup j
            (if b then publish_event id status t new' s else put_message id new' s).messages)) [
              | false ↦ put_message-Fate c id old new' found kept' may
              | true ↦ publish_event-Fate c id status t old new' found kept' may
            ]

  pub fails-Fate :
      (ctx : Context) (now : Time) (id : Text) (t : TerminalTransition)
      → Fate
          (fails ctx now id t)
          j
          (lookup j s.messages)
          (lookup j (mark_failed ctx now id t s).0.messages)
  unfolding mark_failed failed_message
  fails-Fate ctx now id t =
      let c = fails ctx now id t in
      with_message-Fate c j id s ctx _ λ m found. elim (Bool-cases (is_settled m)) [
        | inl settled ↦ rw settled (self-Fate c j (lookup j s.messages))
        | inr unsettled ↦
            rw unsettled (settle-Fate c id _ _ _ m _ found (ground arith) λ hit. ground arith)
      ]

  pub discards-Fate :
      (ctx : Context) (now : Time) (id reason : Text) (t : TerminalTransition)
      → Fate
          (discards ctx now id reason t)
          j
          (lookup j s.messages)
          (lookup j (discard ctx now id reason t s).0.messages)
  unfolding discard discarded_message
  discards-Fate ctx now id reason t =
      with_message-Fate (discards ctx now id reason t) j id s ctx _ λ m found.
        settle-Fate (discards ctx now id reason t) id _ _ _ m _ found (ground arith)
          λ hit. ground arith

  -- A save writes under a new id, or a fingerprint into the message that is there.
  save_existing-Fate :
      (sha256 : Text → Text) (c : Call) (old new : Message)
      → lookup new.message_id s.messages ≡ some old
      → allowed c j old.status old.status ≡ true
      → Fate c j (lookup j s.messages) (lookup j (save_existing sha256 old new s).0.messages)
  unfolding save_existing refresh_fingerprint
  save_existing-Fate sha256 c old new found may =
      elim (Bool-cases
        (nat_eq (length old.identity_fingerprint) (length new.identity_fingerprint))) [
          | inl same ↦ rw same (self-Fate c j (lookup j s.messages))
          | inr other ↦
              rw other (put-Fate c new.message_id j s old _ found (ground arith) λ hit. may)
        ]

  save_new-Fate :
      (sha256 : Text → Text) (c : Call) (q : QueueCapacity) (new : Message)
      → lookup new.message_id s.messages ≡ none
      → is_save c ≡ true
      → Fate c j (lookup j s.messages) (lookup j (save_new sha256 new q s).0.messages)
  unfolding save_new
  save_new-Fate sha256 c q new missing saving =
      elim (Option-cases
        (if is_pending new then check_queue_capacity new.client_id new.device_id q s else none)) [
          | inr (e, full) ↦ rw (full, save_new) (self-Fate c j (lookup j s.messages))
          | inl room ↦
              rw (room, save_new)
                (elim (Bool-cases (text_eq new.message_id j)) [
                  | inr miss ↦
                      rw (lookup-insert new.message_id j new s.messages, miss)
                        (self-Fate c j (lookup j s.messages))
                  | inl hit ↦
                      let same : new.message_id ≡ j = (text_eq_iff _ j).0 hit in
                      let gone : lookup j s.messages ≡ none = rw (← same) missing in
                      rw (lookup-insert new.message_id j new s.messages, hit, gone) (saving, same)
                ])
        ]

  pub saves-Fate :
      (sha256 : Text → Text) (ctx : Context) (fresh : Text) (now : Time) (m : Message)
      (q : QueueCapacity)
      → Fate
          (saves ctx fresh now m q)
          j
          (lookup j s.messages)
          (lookup j (save_with_capacity sha256 ctx fresh now m q s).0.messages)
  unfolding save_with_capacity
  saves-Fate sha256 (some e) fresh now m q =
      self-Fate (saves (some e) fresh now m q) j (lookup j s.messages)
  saves-Fate sha256 none fresh now m q =
      let c = saves none fresh now m q in
      let new = prepare sha256 fresh now m in
      elim (Option-cases (lookup new.message_id s.messages)) [
        | inr (old, found) ↦ rw found (save_existing-Fate sha256 c old new found (ground arith))
        | inl missing ↦ rw missing (save_new-Fate sha256 c q new missing refl)
      ]
