-- ===== src/Downlink/Calls/LifeCycle.antt =====
-- The life of a message over a history of calls on the store.
use z_courier.Base.{
  ◌≡◌, refl, ◌∙◌, subst, inl, inr, Option, none, some, List, [], ◌∷◌, Text, text_Eq, lookup,
  Distinct, insert-Distinct, delete-Distinct, arith,
}
use z_courier.Downlink.Message.{Message}
use z_courier.Downlink.Store.{MemoryStore, new_memory_store}
use z_courier.Downlink.Retention.{delete_message}
use z_courier.Downlink.Calls.{
  Call, saves, sends, delivers, retries, requeues, fails, discards, claims, claims_terminal,
  publishes, publish_fails, expires, step, run, Fate, IsValid,
}
use z_courier.Downlink.Calls.Fate.{
  saves-Fate, sends-Fate, delivers-Fate, retries-Fate, requeues-Fate, fails-Fate, discards-Fate,
}
use z_courier.Downlink.Calls.Batches.{claims-Fate}
use z_courier.Downlink.Calls.Publications.{claims_terminal-Fate, publishes-Fate, publish_fails-Fate}
use z_courier.Downlink.Calls.Expiry.{expires-Fate}
use z_courier.Downlink.Calls.Writes.{step-keeps}

module _ (sha256 : Text → Text) where
  -- In a valid store, every call does to every message what the life cycle allows: it creates
  -- messages only by a save, removes them only by an expiry, and otherwise leaves the message as
  -- it is, or keeps its identity and moves its state along an edge that this call has.
  pub step-Fate :
      (s : MemoryStore) (c : Call) (j : Text)
      → IsValid s
      → Fate c j (lookup j s.messages) (lookup j (step sha256 s c).messages)
  unfolding step
  step-Fate s (saves ctx fresh now m q) j v = saves-Fate s v.keyed j sha256 ctx fresh now m q
  step-Fate s (sends ctx now id session at next) j v =
      sends-Fate s v.keyed j ctx now id session at next
  step-Fate s (delivers ctx now id client device at) j v =
      delivers-Fate s v.keyed j ctx now id client device at
  step-Fate s (retries ctx now id reason next) j v = retries-Fate s v.keyed j ctx now id reason next
  step-Fate s (requeues ctx now id at q) j v = requeues-Fate s v.keyed j ctx now id at q
  step-Fate s (fails ctx now id t) j v = fails-Fate s v.keyed j ctx now id t
  step-Fate s (discards ctx now id reason t) j v = discards-Fate s v.keyed j ctx now id reason t
  step-Fate s (claims ctx clock now ack limit candidates owner lease) j v =
      claims-Fate s v.keyed v.distinct j ctx clock now ack limit candidates owner lease
  step-Fate s (claims_terminal ctx clock now limit owner lease) j v =
      claims_terminal-Fate s j ctx clock now limit owner lease
  step-Fate s (publishes ctx now id status at) j v = publishes-Fate s j ctx now id status at
  step-Fate s (publish_fails ctx id status reason next) j v =
      publish_fails-Fate s j ctx id status reason next
  step-Fate s (expires ctx status before limit) j v = expires-Fate ctx status before limit j s

  step-Distinct :
      (s : MemoryStore) (c : Call) → Distinct s.messages → Distinct (step sha256 s c).messages
  unfolding delete_message
  step-Distinct s c d =
      step-keeps (λ t. Distinct t.messages) (λ id m t. insert-Distinct id m t.messages)
        (λ events t d. d) (λ id t. delete-Distinct id t.messages) sha256 s c d

  Fate-id :
      (c : Call) (j : Text) (o : Option Message) (m : Message)
      → ((old : Message) → o ≡ some old → old.message_id ≡ j)
      → Fate c j o (some m)
      → m.message_id ≡ j
  Fate-id c j none m h f = f.1
  Fate-id c j (some old) m h (inl same) = subst (λ n. n.message_id ≡ j) same (h old refl)
  Fate-id c j (some old) m h (inr moved) = moved.0.message_id ∙ h old refl

  -- Every call keeps the store valid.
  pub step-IsValid : (s : MemoryStore) (c : Call) → IsValid s → IsValid (step sha256 s c)
  step-IsValid s c v = record {
    keyed = λ j m found.
        Fate-id c j (lookup j s.messages) m (v.keyed j)
          (subst (Fate c j (lookup j s.messages)) found (step-Fate s c j v));
    distinct = step-Distinct s c v.distinct;
  }

  run-IsValid : (s : MemoryStore) (cs : List Call) → IsValid s → IsValid (run sha256 s cs)
  unfolding run
  run-IsValid s [] v = v
  run-IsValid s (c ∷ cs) v = run-IsValid (step sha256 s c) cs (step-IsValid s c v)

  new_memory_store-IsValid : IsValid new_memory_store
  unfolding new_memory_store lookup
  new_memory_store-IsValid = record { keyed = λ j m found. ground arith; distinct = tt }

  -- After any history that starts with the empty store, each message is stored under its own id,
  -- and no id twice.
  pub run-new_memory_store-IsValid : (cs : List Call) → IsValid (run sha256 new_memory_store cs)
  run-new_memory_store-IsValid cs = run-IsValid new_memory_store cs new_memory_store-IsValid
