-- ===== src/Downlink/Calls/Publications.antt =====
-- What the calls on the outbox do to each message.
use z_courier.Base.{
  ℕ, ◌≡◌, refl, inl, inr, true, none, some, List, [], ◌∷◌, Text, text_eq, text_Eq, Map, lookup,
  Bool-cases, Option-cases, arith,
}
use z_courier.Downlink.Message.{
  Message, Time, Duration, MessageStatus, status_eq, TerminalRecord, TerminalPublicationStatus,
}
use z_courier.Downlink.Store.{Context, MemoryStore}
use z_courier.Downlink.Terminal.{terminal_event_id}
use z_courier.Downlink.Outbox.{
  claim_due_terminal, store_records, mark_terminal_published, mark_terminal_publish_failed,
  update_published, publication_eq,
}
use z_courier.Downlink.Calls.{Call, claims_terminal, publishes, publish_fails, Fate, Kept, allowed}
use z_courier.Downlink.Calls.Fate.{self-Fate, put-Fate}

store_records-messages :
    (rs : List TerminalRecord) (s : MemoryStore) → (store_records rs s).messages ≡ s.messages
unfolding store_records
store_records-messages [] s = refl
store_records-messages (r ∷ rs) s = store_records-messages rs _

module _ (s : MemoryStore) (j : Text) where
  pub claims_terminal-Fate :
      (ctx : Context) (clock now : Time) (limit : ℕ) (owner : Text) (lease : Duration)
      → Fate
          (claims_terminal ctx clock now limit owner lease)
          j
          (lookup j s.messages)
          (lookup j (claim_due_terminal ctx clock now limit owner lease s).0.messages)
  unfolding claim_due_terminal
  claims_terminal-Fate (some e) clock now limit owner lease =
      self-Fate (claims_terminal (some e) clock now limit owner lease) j (lookup j s.messages)
  claims_terminal-Fate none clock now limit owner lease =
      rw store_records-messages
        (self-Fate (claims_terminal none clock now limit owner lease) j (lookup j s.messages))

  -- The message that follows its event keeps its state.
  update_published-Fate :
      (c : Call) (id : Text) (status : MessageStatus) (change : Message → Message)
      (events : Map Text TerminalRecord)
      → ((m : Message) → Kept m (change m))
      → ((m : Message) → text_eq id j ≡ true → allowed c j m.status (change m).status ≡ true)
      → Fate c j (lookup j s.messages) (
          lookup j
            (update_published id status change (record s { terminal_events = events })).messages)
  unfolding update_published
  update_published-Fate c id status change events kept may =
      elim (Option-cases (lookup id s.messages)) [
        | inl missing ↦ rw (missing, update_published) (self-Fate c j (lookup j s.messages))
        | inr (m, found) ↦
            rw (found, update_published)
              (elim (Bool-cases (status_eq m.status status)) [
                | inr moved_on ↦ rw moved_on (self-Fate c j (lookup j s.messages))
                | inl same ↦ rw same (put-Fate c id j s m (change m) found (kept m) (may m))
              ])
      ]

  pub publishes-Fate :
      (ctx : Context) (now : Time) (id : Text) (status : MessageStatus) (at : Time)
      → Fate
          (publishes ctx now id status at)
          j
          (lookup j s.messages)
          (lookup j (mark_terminal_published ctx now id status at s).0.messages)
  unfolding mark_terminal_published
  publishes-Fate (some e) now id status at =
      self-Fate (publishes (some e) now id status at) j (lookup j s.messages)
  publishes-Fate none now id status at =
      let c = publishes none now id status at in
      elim (Option-cases (lookup (terminal_event_id id status) s.terminal_events)) [
        | inl missing ↦ rw (missing, mark_terminal_published) (self-Fate c j (lookup j s.messages))
        | inr (r, found) ↦
            rw (found, mark_terminal_published)
              (elim (Bool-cases (publication_eq r.status TerminalPublicationStatus.published)) [
                | inl done ↦ rw done (self-Fate c j (lookup j s.messages))
                | inr open' ↦ rw open' (
                    update_published-Fate c id status _ _ (λ m. ground arith) λ m hit. ground arith)
              ])
      ]

  pub publish_fails-Fate :
      (ctx : Context) (id : Text) (status : MessageStatus) (reason : Text) (next : Time)
      → Fate
          (publish_fails ctx id status reason next)
          j
          (lookup j s.messages)
          (lookup j (mark_terminal_publish_failed ctx id status reason next s).0.messages)
  unfolding mark_terminal_publish_failed
  publish_fails-Fate (some e) id status reason next =
      self-Fate (publish_fails (some e) id status reason next) j (lookup j s.messages)
  publish_fails-Fate none id status reason next =
      let c = publish_fails none id status reason next in
      elim (Option-cases (lookup (terminal_event_id id status) s.terminal_events)) [
        | inl missing ↦
            rw (missing, mark_terminal_publish_failed) (self-Fate c j (lookup j s.messages))
        | inr (r, found) ↦
            rw (found, mark_terminal_publish_failed)
              (elim (Bool-cases (publication_eq r.status TerminalPublicationStatus.published)) [
                | inl done ↦ rw done (self-Fate c j (lookup j s.messages))
                | inr open' ↦ rw open' (
                    update_published-Fate c id status _ _ (λ m. ground arith) λ m hit. ground arith)
              ])
      ]
