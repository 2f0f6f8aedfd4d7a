-- ===== src/Downlink/Identity/Fields.antt =====
-- What the identity of a message is: the fields of the request that its fingerprint stands for.
use z_courier.Base.{
  ℕ, ◌^◌, ◌<◌, ◌≡◌, refl, ap, inl, inr, Bool, true, false, ◌&&◌, [], ◌∷◌, ◌++◌, Text, text_eq,
  text_eq_iff, nat_eq, length, Bool-cases, if◌then◌else◌, arith,
}
use z_courier.Downlink.Message.{Message}
use z_courier.Downlink.Identity.{
  message_identity_domain, put_uint32, write_identity_bytes, identity_preimage,
  message_identity_fingerprint,
}

-- What a uint32 holds: the id of the message's kind, and the lengths that are written.
pub record IsSized (m : Message) : Type 0 where
  pub client_id : length m.client_id < 2 ^ 32
  pub device_id : length m.device_id < 2 ^ 32
  pub msg_id : m.msg_id < 2 ^ 32

abbrev pub bool_eq : Bool → Bool → Bool
bool_eq true b = b
bool_eq false b = if b then false else true

-- Two requests with the same immutable identity.
abbrev pub same_request : Message → Message → Bool
same_request a b =
    text_eq a.client_id b.client_id
    && (text_eq a.device_id b.device_id
        && (nat_eq a.msg_id b.msg_id
            && (bool_eq a.ack_required b.ack_required && text_eq a.body b.body)))

put_uint32-append :
    (a b : ℕ) (xs ys : Text)
    → a < 2 ^ 32
    → b < 2 ^ 32
    → put_uint32 a ++ xs ≡ put_uint32 b ++ ys
    → (a ≡ b) × (xs ≡ ys)
put_uint32-append a b xs ys h k e = ground arith

append-cancel :
    (xs ys us vs : Text) → length xs ≡ length ys → xs ++ us ≡ ys ++ vs → (xs ≡ ys) × (us ≡ vs)
append-cancel [] [] us vs n e = (refl, e)
append-cancel [] (y ∷ ys) us vs n e = absurd (omega arith)
append-cancel (x ∷ xs) [] us vs n e = absurd (omega arith)
append-cancel (x ∷ xs) (y ∷ ys) us vs n e =
    let tail : xs ++ us ≡ ys ++ vs = cc in
    let (same, rest) = append-cancel xs ys us vs (omega arith) tail in (ground arith, rest)

write_identity_bytes-append :
    (a b xs ys : Text)
    → length a < 2 ^ 32
    → length b < 2 ^ 32
    → write_identity_bytes a ++ xs ≡ write_identity_bytes b ++ ys
    → (a ≡ b) × (xs ≡ ys)
unfolding write_identity_bytes
write_identity_bytes-append a b xs ys h k e =
    let (n, rest) = put_uint32-append (length a) (length b) (a ++ xs) (b ++ ys) h k e in
    append-cancel a b xs ys n rest

-- The fields that the identity stands for, with the digest of the body.
record SameFields (sha256 : Text → Text) (a b : Message) : Type 0 where
  client_id : a.client_id ≡ b.client_id
  device_id : a.device_id ≡ b.device_id
  msg_id : a.msg_id ≡ b.msg_id
  ack_required : a.ack_required ≡ b.ack_required
  body : sha256 a.body ≡ sha256 b.body

-- `sha256` has no collision at two texts.
abbrev pub NoCollision : (Text → Text) → Text → Text → Type 0
NoCollision sha256 x y = sha256 x ≡ sha256 y → x ≡ y

flag_injective : (a b : Bool) → ◌≡◌ {A = ℕ} (if a then 1 else 0) (if b then 1 else 0) → a ≡ b
flag_injective a b e = ground arith

module _ (sha256 : Text → Text) where
  identity_preimage_injective :
      (a b : Message)
      → IsSized a
      → IsSized b
      → identity_preimage sha256 a ≡ identity_preimage sha256 b
      → SameFields sha256 a b
  unfolding identity_preimage
  identity_preimage_injective a b h k e =
      let (_, e1) =
        write_identity_bytes-append message_identity_domain message_identity_domain _ _
          (omega arith) (omega arith) e in
      let (client, e2) =
        write_identity_bytes-append a.client_id b.client_id _ _ h.client_id k.client_id e1 in
      let (device, e3) =
        write_identity_bytes-append a.device_id b.device_id _ _ h.device_id k.device_id e2 in
      let (kind, e4) = put_uint32-append a.msg_id b.msg_id _ _ h.msg_id k.msg_id e3 in
      record {
        client_id = client;
        device_id = device;
        msg_id = kind;
        ack_required = flag_injective a.ack_required b.ack_required (cc);
        body = cc;
      }

  SameFields-same_request :
      (a b : Message) → SameFields sha256 a b → a.body ≡ b.body → same_request a b ≡ true
  SameFields-same_request a b f same =
      let client = (text_eq_iff a.client_id b.client_id).1 f.client_id in
      let device = (text_eq_iff a.device_id b.device_id).1 f.device_id in
      let body = (text_eq_iff a.body b.body).1 same in
      let kind = f.msg_id in let flag = f.ack_required in ground arith

  same_request-preimage :
      (a b : Message)
      → same_request a b ≡ true
      → identity_preimage sha256 a ≡ identity_preimage sha256 b
  unfolding identity_preimage
  same_request-preimage a b same =
      let client : a.client_id ≡ b.client_id =
        (text_eq_iff a.client_id b.client_id).0 (ground arith) in
      let device : a.device_id ≡ b.device_id =
        (text_eq_iff a.device_id b.device_id).0 (ground arith) in
      let kind : a.msg_id ≡ b.msg_id = ground arith in
      let flag : a.ack_required ≡ b.ack_required = ground arith in
      let body : a.body ≡ b.body = (text_eq_iff a.body b.body).0 (ground arith) in cc

  -- Where the digest has no collision, two fingerprints agree exactly for the same request.
  pub message_identity_fingerprint-same_request :
      (a b : Message)
      → IsSized a
      → IsSized b
      → NoCollision sha256 (identity_preimage sha256 a) (identity_preimage sha256 b)
      → NoCollision sha256 a.body b.body
      → text_eq (message_identity_fingerprint sha256 a) (message_identity_fingerprint sha256 b)
        ≡ same_request a b
  unfolding message_identity_fingerprint
  message_identity_fingerprint-same_request a b h k whole body =
      elim (Bool-cases (same_request a b)) [
        | inl same ↦ rw same ((text_eq_iff _ _).1 (ap sha256 (same_request-preimage a b same)))
        | inr other ↦
            elim (Bool-cases (
              text_eq (sha256 (identity_preimage sha256 a))
                (sha256 (identity_preimage sha256 b)))) [
                  | inr differ ↦ rw (differ, other) refl
                  | inl agree ↦
                      let fields =
                        identity_preimage_injective a b h k (whole ((text_eq_iff _ _).0 agree)) in
                      let same : same_request a b ≡ true =
                        SameFields-same_request a b fields (body fields.body) in
                      cc
                ]
      ]
