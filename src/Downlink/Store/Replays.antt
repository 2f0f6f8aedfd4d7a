-- ===== src/Downlink/Store/Replays.antt =====
-- A message id is bound to the request that created its message.
use z_courier.Base.{
  ◌≡◌, sym, ap, ◌∙◌, subst, none, some, Text, text_eq, text_Eq, lookup, length, if◌then◌else◌,
}
use z_courier.Downlink.Message.{Message, Time, QueueCapacity}
use z_courier.Downlink.Identity.{message_identity_fingerprint, identity_preimage}
use z_courier.Downlink.Identity.Fields.{
  IsSized, NoCollision, same_request, message_identity_fingerprint-same_request,
}
use z_courier.Downlink.Store.{
  MemoryStore, ok, created, existing, conflict, save_with_capacity, prepare,
}
use z_courier.Downlink.Store.Saves.{save_with_capacity_again, save_with_capacity_created}

module _ (sha256 : Text → Text) (sha256_size : (t : Text) → length (sha256 t) ≡ 32) where
  -- With a digest of 32 bytes and contexts that are not done, a save under the id of a message
  -- that an earlier save has created stores nothing and never fails on a limit, at any time and
  -- under any limits. It answers with the stored message: as `existing` if the two requests agree
  -- in client, device, kind, whether an acknowledgement is wanted, and body, and as `conflict` if
  -- they differ in any of these. Conditions: lengths of names and the kind are below 2 ^ 32, and
  -- the digest has no collision at the two bodies and at what is hashed for the two fingerprints.
  pub save_with_capacity_replay :
      (fresh fresh' : Text) (now later : Time) (first m new : Message) (q q' : QueueCapacity)
      (s : MemoryStore)
      → (save_with_capacity sha256 none fresh now first q s).1
        ≡ ok (record { message = new; outcome = created })
      → (prepare sha256 fresh' later m).message_id ≡ new.message_id
      → IsSized first
      → IsSized m
      → NoCollision sha256 (identity_preimage sha256 first) (identity_preimage sha256 m)
      → NoCollision sha256 first.body m.body
      → save_with_capacity sha256 none fresh' later m q'
          (save_with_capacity sha256 none fresh now first q s).0
        ≡ (
          (save_with_capacity sha256 none fresh now first q s).0,
          ok (record {
            message = new;
            outcome = if same_request first m then existing else conflict;
          }),
        )
  unfolding prepare message_identity_fingerprint
  save_with_capacity_replay fresh fresh' now later first m new q q' s h same small small' whole
        body =
      let (bound, made) = save_with_capacity_created sha256 sha256_size fresh now first new q s h in
      let print : new.identity_fingerprint ≡ message_identity_fingerprint sha256 first =
        ap (λ (x : Message). x.identity_fingerprint) made in
      let again =
        save_with_capacity_again sha256 sha256_size fresh' later m new q'
          (save_with_capacity sha256 none fresh now first q s).0
          (subst
            (λ k.
              lookup k (save_with_capacity sha256 none fresh now first q s).0.messages ≡ some new)
            (sym same) bound)
          (ap length print ∙ sha256_size (identity_preimage sha256 first)) in
      let agree : text_eq new.identity_fingerprint (message_identity_fingerprint sha256 m)
          ≡ same_request first m =
        rw print
          (message_identity_fingerprint-same_request sha256 first m small small' whole body) in
      again ∙ rw agree
