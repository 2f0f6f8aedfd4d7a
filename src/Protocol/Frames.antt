-- ===== src/Protocol/Frames.antt =====
-- What `Encode` and `encodePacketFrame` write is read back as the packet that was written.
use mathlib.Core.List.{append_assoc, append-nil}
use z_courier.Base.{
  ℕ, ◌+◌, ◌^◌, ◌≡◌, ◌≤◌, ◌<◌, refl, sym, ap, ◌∙◌, subst, false, inl, inr, ◌⊎◌, some, [], ◌++◌, Text,
  length, take, drop, take_append, drop_append, length-append, nat_eq, ltb, if◌then◌else◌, arith,
}
use z_courier.Protocol.{
  Packet, Error, Result, ok, err, header_bytes, variable_bytes, encode, encode_frame,
  encode_packet_frame, read_frame, decode_packet_frame, read_packet_frame, normalize_frame_limit,
  read_packet, decode_with_max_body_size, uint32_at, put_uint32, default_max_body_size,
}
use z_courier.Protocol.Words.{uint32_digits}
use z_courier.Protocol.Packets.{IsEncodable, read_packet-bytes, length-header_bytes}

-- The ranges of the source's integer fields.
pub record IsPacket (p : Packet) : Type 0 where
  pub flags : p.flags < 2 ^ 16
  pub msg_id : p.msg_id < 2 ^ 32
  pub seq : p.seq < 2 ^ 64
  pub timestamp : p.timestamp < 2 ^ 64

abbrev pub versioned : Packet → Packet
versioned p = record p { version = 1 }

-- What is known when `Encode` succeeds.
abbrev Encoded : Packet → Packet → Text → Type 0
Encoded p q bytes =
    IsEncodable (versioned p)
    × (q ≡ versioned p)
    × (bytes ≡ header_bytes (versioned p) ++ variable_bytes (versioned p))

encode-Encoded :
    (p : Packet)
    → IsPacket p
    → (q : Packet) (bytes : Text) → encode (some p) ≡ ok (q, bytes)
    → Encoded p q bytes
unfolding encode
encode-Encoded p r q bytes h =
    let fits : length p.body < 2 ^ 32 = ground arith in
    let client : length p.client_id < 2 ^ 16 = ground arith in
    let device : length p.device_id < 2 ^ 16 = ground arith in
    let session : length p.session_id < 2 ^ 16 = ground arith in
    let message : length p.message_id < 2 ^ 16 = ground arith in
    let trace : length p.trace_id < 2 ^ 16 = ground arith in
    let token : length p.token < 2 ^ 16 = ground arith in
    (
      record {
        version = refl;
        flags = r.flags;
        msg_id = r.msg_id;
        seq = r.seq;
        timestamp = r.timestamp;
        client_id = client;
        device_id = device;
        session_id = session;
        message_id = message;
        trace_id = trace;
        token = token;
        body = fits;
      },
      ground arith,
      ground arith,
    )

-- `readPacket` on the bytes of `Encode`, with whatever stands behind them.
read_packet-encode :
    (p : Packet)
    → IsPacket p
    → (q : Packet) (bytes rest : Text) (max : ℕ) → encode (some p) ≡ ok (q, bytes)
    → length p.body ≤ max
    → read_packet (bytes ++ rest) max ≡ ok (versioned p, length bytes, rest)
read_packet-encode p r q bytes rest max h fits =
    let (e, same, written) = encode-Encoded p r q bytes h in
    let size : length bytes ≡ 41 + length (variable_bytes (versioned p)) =
      ap length written
      ∙ length-append (header_bytes (versioned p)) (variable_bytes (versioned p))
      ∙ ap (◌+ length (variable_bytes (versioned p))) (length-header_bytes (versioned p)) in
    let found = read_packet-bytes (versioned p) e rest max fits in
    rw
      (size, written, append_assoc (header_bytes (versioned p)) (variable_bytes (versioned p)) rest)
      found

-- For a packet whose integers are in the ranges of their types: whatever `Encode` writes,
-- `DecodeWithMaxBodySize` reads back as the packet with its version set, when the limit on bodies
-- lets the body through.
pub decode-encode :
    (p : Packet)
    → IsPacket p
    → (q : Packet) (bytes : Text) (max : ℕ) → encode (some p) ≡ ok (q, bytes)
    → length p.body ≤ max
    → (q ≡ versioned p) × (decode_with_max_body_size bytes max ≡ ok (versioned p))
unfolding decode_with_max_body_size
decode-encode p r q bytes max h fits =
    let (e, same, written) = encode-Encoded p r q bytes h in
    let size : length bytes ≡ 41 + length (variable_bytes (versioned p)) =
      ap length written
      ∙ length-append (header_bytes (versioned p)) (variable_bytes (versioned p))
      ∙ ap (◌+ length (variable_bytes (versioned p))) (length-header_bytes (versioned p)) in
    let found : read_packet bytes max ≡ ok (versioned p, length bytes, []) =
      ap (λ reader. read_packet reader max) (sym (append-nil bytes))
      ∙ read_packet-encode p r q bytes [] max h fits in
    let long : ltb (length bytes) 41 ≡ false = ground (arith, size) in
    (same, rw (long, found) ground arith)

-- What `readFrame` finds, told by the header, whatever its bytes are.
read_frame-parts :
    (reader header tail payload rest : Text) (max msg_id : ℕ)
    → take 8 reader ≡ header
    → drop 8 reader ≡ tail
    → length reader ≡ 8 + length tail
    → uint32_at header 0 ≡ msg_id
    → uint32_at header 4 ≡ length payload
    → length payload ≤ normalize_frame_limit max
    → tail ≡ payload ++ rest
    → read_frame reader max ≡ ok (msg_id, payload, rest)
unfolding read_frame
read_frame-parts reader header tail payload rest max msg_id is_header is_tail sized is_id is_size
      fits split =
    let small : ltb (normalize_frame_limit max) (length payload) ≡ false = ground arith in
    let full : ltb (length (payload ++ rest)) (length payload) ≡ false =
      ground (arith, length-append payload rest) in
    let some_bytes : nat_eq (length reader) 0 ≡ false = ground arith in
    let long : ltb (length reader) 8 ≡ false = ground arith in
    rw
      (
        is_header,
        is_tail,
        is_id,
        is_size,
        some_bytes,
        long,
        small,
        split,
        full,
        take_append payload rest,
        drop_append payload rest,
      )
      refl

-- The payload of a frame is read back, with its message id and with what stands behind the frame.
read_frame-encode_frame :
    (msg_id : ℕ) (payload rest frame : Text) (max : ℕ)
    → msg_id < 2 ^ 32
    → length payload ≤ normalize_frame_limit max
    → encode_frame msg_id payload ≡ ok frame
    → read_frame (frame ++ rest) max ≡ ok (msg_id, payload, rest)
unfolding encode_frame
read_frame-encode_frame msg_id payload rest frame max small fits h =
    let size : length payload < 2 ^ 32 = ground arith in
    let header : Text = put_uint32 msg_id ++ put_uint32 (length payload) in
    let written : frame ≡ put_uint32 msg_id ++ (put_uint32 (length payload) ++ payload) =
      ground arith in
    rw (written) (
      read_frame-parts _ header (payload ++ rest) payload rest max msg_id refl refl (omega arith)
        (uint32_digits msg_id small) (uint32_digits (length payload) size) fits refl)

Result-cases {ℓ} :
    {A : Type ℓ} (r : Result A) → ((e : Error) × (r ≡ err e)) ⊎ ((a : A) × (r ≡ ok a))
Result-cases (ok a) = inr (a, refl)
Result-cases (err e) = inl (e, refl)

-- What `encodePacketFrame` has written when it succeeds: the frame of an encoded packet.
encode_packet_frame-parts :
    (p : Packet) (limit : ℕ) (frame : Text)
    → encode_packet_frame (some p) limit ≡ ok frame
    → (q : Packet) × (bytes : Text) × (encode (some p) ≡ ok (q, bytes))
      × (length bytes ≤ normalize_frame_limit limit)
      × (encode_frame q.msg_id bytes ≡ ok frame)
unfolding encode_packet_frame
encode_packet_frame-parts p limit frame h = elim (Result-cases (encode (some p))) [
  | inl (e, failed) ↦ ground arith
  | inr ((q, bytes), encoded) ↦
      let fits : length bytes ≤ normalize_frame_limit limit = ground arith in
      let framed : encode_frame q.msg_id bytes ≡ ok frame = ground arith in
      (q, bytes, encoded, fits, framed)
]

-- For a packet whose integers are in the ranges of their types: a frame that `encodePacketFrame`
-- writes under some limit on payloads is read by `readPacketFrame` under the same limit as the
-- packet with its version set, and the reader is left at what stands behind the frame; the limit
-- on bodies, which is the default one when it is 0, has to let the body through.
pub read_packet_frame-encode_packet_frame :
    (p : Packet)
    → IsPacket p
    → (limit max_body_size : ℕ) (frame rest : Text) → encode_packet_frame (some p) limit ≡ ok frame
    → length p.body ≤ (if nat_eq max_body_size 0 then default_max_body_size else max_body_size)
    → read_packet_frame (frame ++ rest) limit max_body_size ≡ ok (versioned p, rest)
unfolding read_packet_frame decode_packet_frame
read_packet_frame-encode_packet_frame p r limit max_body_size frame rest h fits =
    let (q, bytes, encoded, sized, framed) = encode_packet_frame-parts p limit frame h in
    let (same, decoded) =
      decode-encode p r q bytes
        (if nat_eq max_body_size 0 then default_max_body_size else max_body_size) encoded fits in
    let msg_id : q.msg_id ≡ p.msg_id = ap (λ x. x.msg_id) same in
    let found =
      read_frame-encode_frame q.msg_id bytes rest frame limit
        (subst (◌< 2 ^ 32) (sym msg_id) r.msg_id) sized framed in
    rw (found, read_packet_frame, decode_packet_frame, decoded) ground arith
