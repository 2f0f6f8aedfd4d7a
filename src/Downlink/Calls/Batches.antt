-- ===== src/Downlink/Calls/Batches.antt =====
-- What a claim of messages due for retry does to each message.
use z_courier.Base.{
  ℕ, ◌≡◌, refl, sym, ◌∙◌, subst, inl, inr, Bool, true, false, ◌&&◌, Option, none, some, List, [],
  ◌∷◌, Text, text_eq, text_eq_iff, text_Eq, lookup, insert, lookup-insert, values, All, All-map,
  All-take, All-values, Distinct, filter, sort, sort-All, length, ltb, Bool-cases, Option-cases,
  arith,
}
use z_courier.Downlink.Message.{Message, Time, Duration}
use z_courier.Downlink.Store.{Context, MemoryStore}
use z_courier.Downlink.Marks.{or_now}
use z_courier.Downlink.Fairness.{normalize_limit, normalize_candidate_limit}
use z_courier.Downlink.Fairness.Members.{fair_retry_selection-All}
use z_courier.Downlink.Retry.{
  claim_due_retry_fair, claim_messages, claimed_message, stored_message, fair_batch, limit_messages,
  retry_candidates, created_before,
}
use z_courier.Downlink.Calls.{Call, claims, Fate, Kept, Keyed, allowed}
use z_courier.Downlink.Calls.Fate.{self-Fate}

-- The batch of a claim holds messages of the store, as they are there.
abbrev pub Stored : MemoryStore → Message → Type 0
Stored s m = lookup m.message_id s.messages ≡ some m

filter-All :
    (P : Message → Type 0) (p : Message → Bool) (xs : List Message) → All P xs → All P (filter p xs)
filter-All P p [] h = tt
filter-All P p (x ∷ xs) h = elim (Bool-cases (p x)) [
  | inl hit ↦ rw hit (h.0, filter-All P p xs h.1)
  | inr miss ↦ rw miss (filter-All P p xs h.1)
]

limit_messages-All :
    (P : Message → Type 0) (ms : List Message) (limit : ℕ)
    → All P ms
    → All P (limit_messages ms limit)
unfolding limit_messages
limit_messages-All P ms limit h =
    let sorted = sort-All created_before P ms h in
    elim (Bool-cases (ltb 0 limit && ltb limit (length (sort created_before ms)))) [
      | inl cut ↦ rw cut (All-take P limit _ sorted)
      | inr whole ↦ rw whole sorted
    ]

Stored-values :
    (s : MemoryStore) → Keyed s → Distinct s.messages → All (Stored s) (values s.messages)
Stored-values s keyed distinct =
    All-values (Stored s) s.messages distinct
      λ id m found. subst (λ k. lookup k s.messages ≡ some m) (sym (keyed id m found)) found

pub fair_batch-Stored :
    (now : Time) (ack : Duration) (limit candidates : ℕ) (s : MemoryStore)
    → Keyed s
    → Distinct s.messages
    → All (Stored s) (fair_batch now ack limit candidates s).messages
unfolding fair_batch retry_candidates
fair_batch-Stored now ack limit candidates s keyed distinct =
    fair_retry_selection-All (Stored s) _ (normalize_limit limit) (
      limit_messages-All (Stored s) _ (normalize_candidate_limit limit candidates)
        (filter-All (Stored s) _ (values s.messages) (Stored-values s keyed distinct)))

-- The same message for all that is kept, in the same state.
abbrev Alike : Option Message → Option Message → Type 0
Alike none none = Unit
Alike none (some b) = ⊥
Alike (some a) none = ⊥
Alike (some a) (some b) = Kept a b × (a.status ≡ b.status)

self-Alike : (o : Option Message) → Alike o o
self-Alike none = tt
self-Alike (some a) = (ground arith, refl)

Alike-trans : (o p q : Option Message) → Alike o p → Alike p q → Alike o q
Alike-trans none none q h k = k
Alike-trans none (some b) q h k = absurd h
Alike-trans (some a) none q h k = absurd h
Alike-trans (some a) (some b) none h k = absurd k
Alike-trans (some a) (some b) (some c) (g, e) (h, f) = (ground arith, e ∙ f)

abbrev has : Text → MemoryStore → Bool
has id s = elim (lookup id s.messages) [ none ↦ false | some m ↦ true ]

insert-Alike :
    (id j : Text) (s : MemoryStore) (old new : Message)
    → lookup id s.messages ≡ some old
    → Kept old new
    → old.status ≡ new.status
    → Alike (lookup j s.messages) (lookup j (insert id new s.messages))
insert-Alike id j s old new found kept same = elim (Bool-cases (text_eq id j)) [
  | inl hit ↦
      let here : lookup j s.messages ≡ some old = rw (← (text_eq_iff id j).0 hit) found in
      rw (lookup-insert id j new s.messages, hit, here) (kept, same)
  | inr miss ↦ rw (lookup-insert id j new s.messages, miss) (self-Alike (lookup j s.messages))
]

has-insert :
    (id j : Text) (s : MemoryStore) (m : Message)
    → has j s ≡ true
    → has j (record s { messages = insert id m s.messages }) ≡ true
has-insert id j s m h = ground (arith, lookup-insert id j m s.messages)

claim_messages-Alike :
    (owner : Text) (until now : Time) (j : Text) (ms : List Message) (s : MemoryStore)
    → All (λ m. has m.message_id s ≡ true) ms
    → Alike (lookup j s.messages) (lookup j (claim_messages owner until now ms s).0.messages)
unfolding claim_messages
claim_messages-Alike owner until now j [] s h = self-Alike (lookup j s.messages)
claim_messages-Alike owner until now j (m ∷ ms) s h =
    let c = claimed_message owner until now (stored_message m.message_id s) in
    let s' : MemoryStore = record s { messages = insert m.message_id c s.messages } in
    let there : All (λ n. has n.message_id s' ≡ true) ms =
      All-map (λ n. has n.message_id s ≡ true) (λ n. has n.message_id s' ≡ true)
        (λ n k. has-insert m.message_id n.message_id s c k) ms h.1 in
    Alike-trans (lookup j s.messages) (lookup j s'.messages) _
      (elim (Option-cases (lookup m.message_id s.messages)) [
        | inl missing ↦ ground arith
        | inr (old, found) ↦ insert-Alike m.message_id j s old c found (ground arith) (ground arith)
      ])
      (claim_messages-Alike owner until now j ms s' there)

Alike-Fate :
    (c : Call) (j : Text) (o p : Option Message)
    → ((a : Message) → allowed c j a.status a.status ≡ true)
    → Alike o p
    → Fate c j o p
Alike-Fate c j none none may h = tt
Alike-Fate c j none (some b) may h = absurd h
Alike-Fate c j (some a) none may h = absurd h
Alike-Fate c j (some a) (some b) may h = inr (h.0, rw (← h.1) (may a))

has_of_Stored : (s : MemoryStore) (m : Message) → Stored s m → has m.message_id s ≡ true
has_of_Stored s m h = rw (h, has)

module _ (s : MemoryStore) (keyed : Keyed s) (distinct : Distinct s.messages) (j : Text) where
  pub claims-Fate :
      (ctx : Context) (clock now : Time) (ack : Duration) (limit candidates : ℕ) (owner : Text)
      (lease : Duration)
      → Fate (claims ctx clock now ack limit candidates owner lease) j (lookup j s.messages) (
          lookup j
            (claim_due_retry_fair ctx clock now ack limit candidates owner lease s).0.messages)
  unfolding claim_due_retry_fair
  claims-Fate (some e) clock now ack limit candidates owner lease =
      self-Fate (claims (some e) clock now ack limit candidates owner lease) j (lookup j s.messages)
  claims-Fate none clock now ack limit candidates [] lease =
      self-Fate (claims none clock now ack limit candidates [] lease) j (lookup j s.messages)
  claims-Fate none clock now ack limit candidates (b ∷ owner) lease =
      let at = or_now now clock in
      Alike-Fate (claims none clock now ack limit candidates (b ∷ owner) lease) j _ _
        (λ a. ground arith)
        (claim_messages-Alike (b ∷ owner) _ at j _ s (
          All-map (Stored s) (λ m. has m.message_id s ≡ true) (has_of_Stored s)
            (fair_batch at ack limit candidates s).messages
            (fair_batch-Stored at ack limit candidates s keyed distinct)))
