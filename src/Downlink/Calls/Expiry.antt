-- ===== src/Downlink/Calls/Expiry.antt =====
-- What `DeleteExpired` does to each message.
use z_courier.Base.{
  ℕ, ◌≡◌, refl, ◌⊎◌, inl, inr, Option, none, some, List, [], ◌∷◌, Text, text_Eq, lookup,
  lookup-delete, Bool-cases, arith,
}
use z_courier.Downlink.Message.{Message, Time, MessageStatus, is_zero}
use z_courier.Downlink.Store.{Context, MemoryStore}
use z_courier.Downlink.Retention.{delete_expired, delete_messages, delete_message, expired_batch}
use z_courier.Downlink.Calls.{expires, Fate}
use z_courier.Downlink.Calls.Fate.{self-Fate}

-- A deletion removes an entry or leaves it.
pub delete_messages-lookup :
    (j : Text) (ms : List Message) (s : MemoryStore)
    → (lookup j (delete_messages ms s).messages ≡ none)
      ⊎ (lookup j (delete_messages ms s).messages ≡ lookup j s.messages)
unfolding delete_messages delete_message
delete_messages-lookup j [] s = inr refl
delete_messages-lookup j (m ∷ ms) s = ground (
  arith,
  delete_messages-lookup j ms (delete_message m.message_id s),
  lookup-delete m.message_id j s.messages,
)

shrink-Fate :
    (ctx : Context) (status : MessageStatus) (before : Time) (limit : ℕ) (j : Text)
    (o p : Option Message)
    → (p ≡ none) ⊎ (p ≡ o)
    → Fate (expires ctx status before limit) j o p
shrink-Fate ctx status before limit j none none h = tt
shrink-Fate ctx status before limit j none (some b) h = ground arith
shrink-Fate ctx status before limit j (some a) none h = refl
shrink-Fate ctx status before limit j (some a) (some b) h = inl (ground arith)

pub expires-Fate :
    (ctx : Context) (status : MessageStatus) (before : Time) (limit : ℕ) (j : Text)
    (s : MemoryStore)
    → Fate
        (expires ctx status before limit)
        j
        (lookup j s.messages)
        (lookup j (delete_expired ctx status before limit s).0.messages)
unfolding delete_expired
expires-Fate (some e) status before limit j s =
    self-Fate (expires (some e) status before limit) j (lookup j s.messages)
expires-Fate none status before limit j s = elim (Bool-cases (is_zero before)) [
  | inl off ↦ rw off (self-Fate (expires none status before limit) j (lookup j s.messages))
  | inr on ↦ rw on (
      shrink-Fate none status before limit j _ _
        (delete_messages-lookup j (expired_batch status before limit s) s))
]
