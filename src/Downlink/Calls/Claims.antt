-- ===== src/Downlink/Calls/Claims.antt =====
-- A claim is a lease: what one node has claimed is not due for another until the lease ends.
use z_courier.Base.{
  ℕ, ◌+◌, ◌<◌, ◌≡◌, refl, sym, ◌∙◌, subst, inl, inr, true, false, none, some, List, [], ◌∷◌, Text,
  text_eq, text_eq_iff, text_Eq, lookup, insert, lookup-insert, lookup-insert_self, All, All-map,
  Bool-cases, arith,
}
use z_courier.Downlink.Message.{Message, Time, Duration}
use z_courier.Downlink.Store.{MemoryStore, ok}
use z_courier.Downlink.Marks.{or_now}
use z_courier.Downlink.Outbox.{or_default, default_lease}
use z_courier.Downlink.Fairness.{RetrySelection}
use z_courier.Downlink.Retry.{
  claim_due_retry_fair, claim_messages, claimed_message, stored_message, fair_batch, claim_active,
  message_due_for_retry,
}
use z_courier.Downlink.Calls.{IsValid}
use z_courier.Downlink.Calls.Batches.{fair_batch-Stored, Stored}

-- `m` is stored as claimed by `owner` until `until`, and is not due at time `later`, however long
-- the wait for an acknowledgement is.
pub record IsLeased (owner : Text) (until later : Time) (ack : Duration) (s : MemoryStore)
    (m : Message) : Type 0 where
  pub stored : lookup m.message_id s.messages ≡ some m
  pub claimed : m.claim_owner ≡ owner
  pub lease : m.claim_until ≡ until
  pub undue : message_due_for_retry m later ack ≡ false

active_lease :
    (m : Message) (until now : Time)
    → m.claim_until ≡ until
    → now < until
    → claim_active m now ≡ true
unfolding claim_active
active_lease m until now e h = ground arith

leased_undue :
    (m : Message) (until now : Time) (ack : Duration)
    → m.claim_until ≡ until
    → now < until
    → message_due_for_retry m now ack ≡ false
unfolding message_due_for_retry
leased_undue m until now ack e h = rw (active_lease m until now e h)

-- There is a message of that id under that id.
abbrev IsHere : MemoryStore → Text → Type 0
IsHere s id = (n : Message) × (lookup id s.messages ≡ some n) × (n.message_id ≡ id)

module _ (owner : Text) (until now : Time) where
  abbrev claim : Message → Message
  claim = claimed_message owner until now

  abbrev after_claim : Text → MemoryStore → MemoryStore
  after_claim id s = record s { messages = insert id (claim (stored_message id s)) s.messages }

  insert-IsHere :
      (id j : Text) (m : Message) (s : MemoryStore)
      → m.message_id ≡ id
      → IsHere s j
      → IsHere (record s { messages = insert id m s.messages }) j
  insert-IsHere id j m s same (n, found, e) = elim (Bool-cases (text_eq id j)) [
    | inl hit ↦ (m, rw (lookup-insert id j m s.messages, hit) refl, same ∙ (text_eq_iff id j).0 hit)
    | inr miss ↦ (n, rw (lookup-insert id j m s.messages, miss) found, e)
  ]

  stored_message-id :
      (id : Text) (s : MemoryStore) → IsHere s id → (stored_message id s).message_id ≡ id
  stored_message-id id s (n, found, e) = rw (found, stored_message) e

  -- To claim again what is claimed changes nothing.
  claim_messages-claimed :
      (j : Text) (c : Message) (ms : List Message) (s : MemoryStore)
      → lookup j s.messages ≡ some c
      → claim c ≡ c
      → lookup j (claim_messages owner until now ms s).0.messages ≡ some c
  unfolding claim_messages
  claim_messages-claimed j c [] s found same = found
  claim_messages-claimed j c (m ∷ ms) s found same =
      claim_messages-claimed j c ms (after_claim m.message_id s)
        (elim (Bool-cases (text_eq m.message_id j)) [
          | inl hit ↦
              let there : lookup m.message_id s.messages ≡ some c =
                subst (λ k. lookup k s.messages ≡ some c) (sym ((text_eq_iff _ j).0 hit)) found in
              rw
                (
                  lookup-insert m.message_id j (claim (stored_message m.message_id s)) s.messages,
                  hit,
                )
                (ground (arith, there))
          | inr miss ↦
              rw
                (
                  lookup-insert m.message_id j (claim (stored_message m.message_id s)) s.messages,
                  miss,
                )
                found
        ])
        same

  claim_messages-IsLeased :
      (later : Time) (ack : Duration)
      → later < until
      → (ms : List Message) (s : MemoryStore) → All (λ m. IsHere s m.message_id) ms
      → All
          (IsLeased owner until later ack (claim_messages owner until now ms s).0)
          (claim_messages owner until now ms s).1
  unfolding claim_messages
  claim_messages-IsLeased later ack early [] s h = tt
  claim_messages-IsLeased later ack early (m ∷ ms) s h =
      let c = claim (stored_message m.message_id s) in
      let s' : MemoryStore = after_claim m.message_id s in
      let same : c.message_id ≡ m.message_id = stored_message-id m.message_id s h.0 in
      let kept : lookup m.message_id (claim_messages owner until now ms s').0.messages ≡ some c =
        claim_messages-claimed m.message_id c ms s' (lookup-insert_self m.message_id c s.messages)
          refl in
      (
        record {
          stored =
              subst (λ k. lookup k (claim_messages owner until now ms s').0.messages ≡ some c)
                (sym same) kept;
          claimed = refl;
          lease = refl;
          undue = leased_undue c until later ack refl early;
        },
        claim_messages-IsLeased later ack early ms s' (
            All-map (λ n. IsHere s n.message_id) (λ n. IsHere s' n.message_id)
              (λ n k. insert-IsHere m.message_id n.message_id c s same k) ms h.1),
      )

-- In a valid store and with a context that is not done, a node that claims due messages under its
-- name gets a batch, and every message of the batch is stored as its own until the end of the
-- lease, and is not due at any time before.
pub claim_due_retry_fair-IsLeased :
    (clock now : Time) (ack : Duration) (limit candidates : ℕ) (b : ℕ) (owner : Text)
    (lease : Duration) (s : MemoryStore) (later : Time) (ack' : Duration)
    → IsValid s
    → later < or_now now clock + or_default lease default_lease
    → let r = claim_due_retry_fair none clock now ack limit candidates (b ∷ owner) lease s in
      (selection : RetrySelection) × (r.1 ≡ ok selection)
      × All
          (IsLeased (b ∷ owner) (or_now now clock + or_default lease default_lease) later ack' r.0)
          selection.messages
unfolding claim_due_retry_fair
claim_due_retry_fair-IsLeased clock now ack limit candidates b owner lease s later ack' v early =
    let at = or_now now clock in
    (
      _,
      refl,
      claim_messages-IsLeased (b ∷ owner) _ at later ack' early _ s (
          All-map (Stored s) (λ m. IsHere s m.message_id) (λ m h. (m, h, refl))
            (fair_batch at ack limit candidates s).messages
            (fair_batch-Stored at ack limit candidates s v.keyed v.distinct)),
    )
