-- ===== src/Downlink/Store/Saves.antt =====
-- Saves are idempotent: a message id is bound once, and every later save only compares.
use z_courier.Base.{
  ◌≡◌, ◌≢◌, refl, sym, ap, ◌∙◌, subst, inl, inr, true, none, some, Text, text_eq, text_eq_iff,
  text_Eq, lookup, lookup-insert_self, nat_eq, length, Option-cases, arith, if◌then◌else◌,
}
use z_courier.Downlink.Message.{Message, Time, QueueCapacity}
use z_courier.Downlink.Identity.{
  message_identity_fingerprint, messages_have_same_identity, fingerprint_of, identity_preimage,
}
use z_courier.Downlink.Store.{
  MemoryStore, ok, created, existing, conflict, save_with_capacity, save_existing, save_new,
  refresh_fingerprint, prepare, check_queue_capacity, is_pending,
}

module _ (sha256 : Text → Text) (sha256_size : (t : Text) → length (sha256 t) ≡ 32) where
  fingerprint_of_sized :
      (m : Message)
      → length m.identity_fingerprint ≡ 32
      → fingerprint_of sha256 m ≡ m.identity_fingerprint
  unfolding fingerprint_of
  fingerprint_of_sized m h = ground (arith, h)

  save_existing_sized :
      (old m : Message) (s : MemoryStore)
      → length old.identity_fingerprint ≡ 32
      → length m.identity_fingerprint ≡ 32
      → save_existing sha256 old m s ≡ (
        s,
        ok (record {
          message = old;
          outcome =
              if text_eq old.identity_fingerprint m.identity_fingerprint
              then existing
              else conflict;
        }),
      )
  unfolding save_existing refresh_fingerprint messages_have_same_identity
  save_existing_sized old m s h k =
      let same : nat_eq (length old.identity_fingerprint) (length m.identity_fingerprint) ≡ true =
        ground (arith, h, k) in
      rw same (rw (fingerprint_of_sized old h) (rw (fingerprint_of_sized m k) refl))

  -- With a digest of 32 bytes and a context that is not done, the save of a message whose id is
  -- taken, by a message with a fingerprint of 32 bytes, stores nothing and never fails on a
  -- limit: it answers with the stored message, as `existing` if the fingerprints agree and as
  -- `conflict` if not.
  pub save_with_capacity_again :
      (fresh : Text) (now : Time) (m old : Message) (q : QueueCapacity) (s : MemoryStore)
      → lookup (prepare sha256 fresh now m).message_id s.messages ≡ some old
      → length old.identity_fingerprint ≡ 32
      → save_with_capacity sha256 none fresh now m q s ≡ (
        s,
        ok (record {
          message = old;
          outcome =
              if text_eq old.identity_fingerprint (message_identity_fingerprint sha256 m)
              then existing
              else conflict;
        }),
      )
  unfolding save_with_capacity prepare message_identity_fingerprint
  save_with_capacity_again fresh now m old q s found size =
      rw (found, save_with_capacity)
        (save_existing_sized old (prepare sha256 fresh now m) s size
          (sha256_size (identity_preimage sha256 m)))

  save_new_created :
      (m new : Message) (q : QueueCapacity) (s : MemoryStore)
      → (save_new sha256 m q s).1 ≡ ok (record { message = new; outcome = created })
      → (lookup new.message_id (save_new sha256 m q s).0.messages ≡ some new) × (new ≡ m)
  unfolding save_new
  save_new_created m new q s h = ground (
    arith,
    lookup-insert_self m.message_id m s.messages,
    Option-cases (if is_pending m then check_queue_capacity m.client_id m.device_id q s else none),
  )

  save_existing_not_created :
      (old m new : Message) (s : MemoryStore)
      → (save_existing sha256 old m s).1 ≢ ok (record { message = new; outcome = created })
  unfolding save_existing refresh_fingerprint
  save_existing_not_created old m new s h = ground arith

  pub save_with_capacity_created :
      (fresh : Text) (now : Time) (m new : Message) (q : QueueCapacity) (s : MemoryStore)
      → (save_with_capacity sha256 none fresh now m q s).1
        ≡ ok (record { message = new; outcome = created })
      → (lookup new.message_id (save_with_capacity sha256 none fresh now m q s).0.messages
          ≡ some new)
        × (new ≡ prepare sha256 fresh now m)
  unfolding save_with_capacity
  save_with_capacity_created fresh now m new q s h =
      elim (Option-cases (lookup (prepare sha256 fresh now m).message_id s.messages)) [
        | inr (old, found) ↦ absurd (
            save_existing_not_created old (prepare sha256 fresh now m) new s
              (rw (found, save_with_capacity) at h))
        | inl missing ↦
            rw (missing, save_with_capacity)
              (save_new_created (prepare sha256 fresh now m) new q s
                (rw (missing, save_with_capacity) at h))
      ]

  -- With a digest of 32 bytes and contexts that are not done, a producer that repeats a save
  -- which created its message, under the same id, gets the same message back as `existing`, at
  -- any later time and under any limits, and the store is as the first save left it.
  pub save_with_capacity_twice :
      (fresh fresh' : Text) (now later : Time) (m new : Message) (q q' : QueueCapacity)
      (s : MemoryStore)
      → (save_with_capacity sha256 none fresh now m q s).1
        ≡ ok (record { message = new; outcome = created })
      → (prepare sha256 fresh' later m).message_id ≡ new.message_id
      → save_with_capacity sha256 none fresh' later m q'
          (save_with_capacity sha256 none fresh now m q s).0
        ≡ (
          (save_with_capacity sha256 none fresh now m q s).0,
          ok (record { message = new; outcome = existing }),
        )
  unfolding prepare message_identity_fingerprint
  save_with_capacity_twice fresh fresh' now later m new q q' s h same =
      let (bound, made) = save_with_capacity_created fresh now m new q s h in
      let print : new.identity_fingerprint ≡ message_identity_fingerprint sha256 m =
        ap (λ (x : Message). x.identity_fingerprint) made in
      let again =
        save_with_capacity_again fresh' later m new q'
          (save_with_capacity sha256 none fresh now m q s).0
          (subst
            (λ k. lookup k (save_with_capacity sha256 none fresh now m q s).0.messages ≡ some new)
            (sym same) bound)
          (ap length print ∙ sha256_size (identity_preimage sha256 m)) in
      let agree : text_eq new.identity_fingerprint (message_identity_fingerprint sha256 m) ≡ true =
        (text_eq_iff _ _).1 print in
      again ∙ rw agree
