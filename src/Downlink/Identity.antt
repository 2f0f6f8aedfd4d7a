-- ===== src/Downlink/Identity.antt =====
-- internal/downlink/identity.go: the immutable identity of a message. SHA-256 is a parameter.
pub mod Fields
use z_courier.Base.{
  ℕ, ◌/◌, ◌%◌, ◌^◌, Bool, [], ◌∷◌, ◌++◌, Text, bytes, text_eq, nat_eq, length, if◌then◌else◌,
}
use z_courier.Downlink.Message.{Message}

abbrev pub message_identity_domain : Text
message_identity_domain = bytes "z-courier-downlink-identity-v1"

-- `binary.BigEndian.PutUint32` of a number below 2 ^ 32, and of the low half of a larger one.
abbrev pub put_uint32 : ℕ → Text
put_uint32 n = n / 2 ^ 24 % 256 ∷ n / 2 ^ 16 % 256 ∷ n / 2 ^ 8 % 256 ∷ n % 256 ∷ []

-- The bytes that `writeIdentityBytes` hands to the digest.
unfoldable pub write_identity_bytes : Text → Text
write_identity_bytes value = put_uint32 (length value) ++ value

module _ (sha256 : Text → Text) where
  -- All bytes written to the digest, in order.
  unfoldable pub identity_preimage : Message → Text
  identity_preimage message =
      write_identity_bytes message_identity_domain
      ++ (write_identity_bytes message.client_id
          ++ (write_identity_bytes message.device_id
              ++ (put_uint32 message.msg_id
                  ++ ((if message.ack_required then 1 else 0) ∷ sha256 message.body))))

  unfoldable pub message_identity_fingerprint : Message → Text
  message_identity_fingerprint message = sha256 (identity_preimage message)

  unfoldable pub fingerprint_of : Message → Text
  fingerprint_of message =
      if nat_eq (length message.identity_fingerprint) 32
      then message.identity_fingerprint
      else message_identity_fingerprint message

  unfoldable pub messages_have_same_identity : Message → Message → Bool
  messages_have_same_identity left right = text_eq (fingerprint_of left) (fingerprint_of right)
