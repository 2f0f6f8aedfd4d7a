-- ===== src/Protocol.antt =====
-- pkg/sdk/protocol: the packet format (packet.go, codec.go), and pkg/sdk/client/frame.go: the frames
-- that carry packets. A byte is a number below 256, a reader is the list of the bytes left in it.
-- `timestamp` is the bit pattern of the source's int64, which is what the wire has.
pub mod Words
pub mod Packets
pub mod Frames
mod Examples
use z_courier.Base.{
  ℕ, zero, suc, ◌+◌, ◌*◌, ◌/◌, ◌%◌, ◌^◌, ◌-◌, ◌≡◌, ◌≤◌, ◌<◌, Bool, true, false, ◌&&◌, ◌||◌, not,
  Option, none, some, List, [], ◌∷◌, ◌++◌, Text, All, any, take, drop, length, nat_eq, ltb,
  if◌then◌else◌,
}

-- `binary.BigEndian.PutUint16` and its siblings.
abbrev pub put_uint16 : ℕ → Text
put_uint16 n = n / 2 ^ 8 % 256 ∷ n % 256 ∷ []

abbrev pub put_uint32 : ℕ → Text
put_uint32 n = n / 2 ^ 24 % 256 ∷ n / 2 ^ 16 % 256 ∷ n / 2 ^ 8 % 256 ∷ n % 256 ∷ []

abbrev pub put_uint64 : ℕ → Text
put_uint64 n =
    n / 2 ^ 56 % 256
    ∷ n / 2 ^ 48 % 256
    ∷ n / 2 ^ 40 % 256
    ∷ n / 2 ^ 32 % 256
    ∷ n / 2 ^ 24 % 256
    ∷ n / 2 ^ 16 % 256
    ∷ n / 2 ^ 8 % 256
    ∷ n % 256
    ∷ []

abbrev pub byte_at : Text → ℕ → ℕ
byte_at [] i = 0
byte_at (x ∷ xs) zero = x
byte_at (x ∷ xs) (suc i) = byte_at xs i

-- `binary.BigEndian.Uint16(data[i:i+2])` and its siblings.
abbrev pub uint16_at : Text → ℕ → ℕ
uint16_at t i = byte_at t i * 2 ^ 8 + byte_at t (i + 1)

abbrev pub uint32_at : Text → ℕ → ℕ
uint32_at t i = uint16_at t i * 2 ^ 16 + uint16_at t (i + 2)

abbrev pub uint64_at : Text → ℕ → ℕ
uint64_at t i = uint32_at t i * 2 ^ 32 + uint32_at t (i + 4)

abbrev pub magic : ℕ
magic = 0x5a43

abbrev pub version : ℕ
version = 1

abbrev pub fixed_header_size : ℕ
fixed_header_size = 41

abbrev pub default_max_body_size : ℕ
default_max_body_size = 4 * 2 ^ 20

pub record Packet : Type 0 where
  pub version : ℕ
  pub flags : ℕ
  pub msg_id : ℕ
  pub seq : ℕ
  pub timestamp : ℕ
  pub client_id : Text
  pub device_id : Text
  pub session_id : Text
  pub message_id : Text
  pub trace_id : Text
  pub token : Text
  pub body : Text

pub data Error : Type 0 where
  nil_packet field_too_large body_too_large packet_too_short invalid_magic unsupported_version
        length_mismatch :
      Error
  frame_too_large frame_too_short frame_length_mismatch frame_msg_id_mismatch end_of_file : Error

pub data Result {ℓ} (A : Type ℓ) : Type ℓ where
  ok : A → Result A
  err : Error → Result A

abbrev pub fields : Packet → List Text
fields p = p.client_id ∷ p.device_id ∷ p.session_id ∷ p.message_id ∷ p.trace_id ∷ p.token ∷ []

abbrev pub max_uint16 : ℕ
max_uint16 = 2 ^ 16 - 1

abbrev pub max_uint32 : ℕ
max_uint32 = 2 ^ 32 - 1

unfoldable pub header_bytes : Packet → Text
header_bytes p =
    put_uint16 magic
    ++ (p.version
        ∷ (put_uint16 p.flags
            ++ (put_uint32 p.msg_id
                ++ (put_uint64 p.seq
                    ++ (put_uint64 p.timestamp
                        ++ (put_uint16 (length p.client_id)
                            ++ (put_uint16 (length p.device_id)
                                ++ (put_uint16 (length p.session_id)
                                    ++ (put_uint16 (length p.message_id)
                                        ++ (put_uint16 (length p.trace_id)
                                            ++ (put_uint16 (length p.token)
                                                ++ put_uint32 (length p.body))))))))))))

unfoldable pub variable_bytes : Packet → Text
variable_bytes p =
    p.client_id
    ++ (p.device_id ++ (p.session_id ++ (p.message_id ++ (p.trace_id ++ (p.token ++ p.body)))))

-- `Encode` sets the version of the packet, and returns it with the bytes.
unfoldable pub encode : Option Packet → Result (Packet × Text)
encode none = err nil_packet
encode (some p) =
    let p' : Packet = record p { version = version } in
    if any (λ field. ltb max_uint16 (length field)) (fields p)
    then err field_too_large
    else if ltb max_uint32 (length p.body)
    then err body_too_large
    else ok (p', header_bytes p' ++ variable_bytes p')

-- The packet of a header and of the bytes behind it; the closure `readString` moves a cursor.
unfoldable pub parse_packet : Text → Text → Packet
parse_packet fixed part =
    let part1 = drop (uint16_at fixed 25) part in
    let part2 = drop (uint16_at fixed 27) part1 in
    let part3 = drop (uint16_at fixed 29) part2 in
    let part4 = drop (uint16_at fixed 31) part3 in
    let part5 = drop (uint16_at fixed 33) part4 in
    let part6 = drop (uint16_at fixed 35) part5 in
    record {
      version = byte_at fixed 2;
      flags = uint16_at fixed 3;
      msg_id = uint32_at fixed 5;
      seq = uint64_at fixed 9;
      timestamp = uint64_at fixed 17;
      client_id = take (uint16_at fixed 25) part;
      device_id = take (uint16_at fixed 27) part1;
      session_id = take (uint16_at fixed 29) part2;
      message_id = take (uint16_at fixed 31) part3;
      trace_id = take (uint16_at fixed 33) part4;
      token = take (uint16_at fixed 35) part5;
      body = take (uint32_at fixed 37) part6;
    }

unfoldable pub variable_length : Text → ℕ
variable_length fixed =
    uint16_at fixed 25
    + uint16_at fixed 27
    + uint16_at fixed 29
    + uint16_at fixed 31
    + uint16_at fixed 33
    + uint16_at fixed 35
    + uint32_at fixed 37

-- `readPacket`: the packet, the length that its header tells, and the bytes left in the reader.
unfoldable pub read_packet : Text → ℕ → Result (Packet × ℕ × Text)
read_packet reader max_body_size =
    let fixed = take fixed_header_size reader in
    let rest = drop fixed_header_size reader in
    let size = variable_length fixed in
    if ltb (length reader) fixed_header_size
    then err packet_too_short
    else if not (nat_eq (uint16_at fixed 0) magic)
    then err invalid_magic
    else if not (nat_eq (byte_at fixed 2) version)
    then err unsupported_version
    else if ltb max_body_size (uint32_at fixed 37)
    then err body_too_large
    else if ltb (length rest) size
    then err length_mismatch
    else ok (parse_packet fixed (take size rest), fixed_header_size + size, drop size rest)

unfoldable pub decode_with_max_body_size : Text → ℕ → Result Packet
decode_with_max_body_size data' max_body_size =
    if ltb (length data') fixed_header_size
    then err packet_too_short
    else elim (read_packet data' max_body_size) [
      | err e ↦ err e
      | ok (p, expected, rest) ↦
          if not (nat_eq expected (length data')) then err length_mismatch else ok p
    ]

unfoldable pub decode : Text → Result Packet
decode data' = decode_with_max_body_size data' default_max_body_size

abbrev pub outer_frame_header_size : ℕ
outer_frame_header_size = 8

abbrev pub default_max_frame_payload_size : ℕ
default_max_frame_payload_size = 8 * 2 ^ 20

abbrev pub normalize_frame_limit : ℕ → ℕ
normalize_frame_limit limit = if nat_eq limit 0 then default_max_frame_payload_size else limit

unfoldable pub encode_frame : ℕ → Text → Result Text
encode_frame msg_id payload =
    if ltb max_uint32 (length payload)
    then err frame_too_large
    else ok (put_uint32 msg_id ++ (put_uint32 (length payload) ++ payload))

unfoldable pub encode_packet_frame : Option Packet → ℕ → Result Text
encode_packet_frame packet max_payload_size = elim (encode packet) [
  | err e ↦ err e
  | ok (p, payload) ↦
      if ltb (normalize_frame_limit max_payload_size) (length payload)
      then err frame_too_large
      else encode_frame p.msg_id payload
]

-- `readFrame`: the message id, the payload, and the bytes left.
unfoldable pub read_frame : Text → ℕ → Result (ℕ × Text × Text)
read_frame reader max_payload_size =
    let header = take outer_frame_header_size reader in
    let rest = drop outer_frame_header_size reader in
    let size = uint32_at header 4 in
    if nat_eq (length reader) 0
    then err end_of_file
    else if ltb (length reader) outer_frame_header_size
    then err frame_too_short
    else if ltb (normalize_frame_limit max_payload_size) size
    then err frame_too_large
    else if ltb (length rest) size
    then err frame_length_mismatch
    else ok (uint32_at header 0, take size rest, drop size rest)

unfoldable pub decode_packet_frame : ℕ → Text → ℕ → Result Packet
decode_packet_frame msg_id payload max_body_size =
    let limit = if nat_eq max_body_size 0 then default_max_body_size else max_body_size in
    elim (decode_with_max_body_size payload limit) [
      | err e ↦ err e
      | ok p ↦ if not (nat_eq msg_id p.msg_id) then err frame_msg_id_mismatch else ok p
    ]

-- `readPacketFrame`, with the bytes left.
unfoldable pub read_packet_frame : Text → ℕ → ℕ → Result (Packet × Text)
read_packet_frame reader max_payload_size max_body_size =
    elim (read_frame reader max_payload_size) [
      | err e ↦ err e
      | ok (msg_id, payload, rest) ↦ elim (decode_packet_frame msg_id payload max_body_size) [
        | err e ↦ err e
        | ok p ↦ ok (p, rest)
      ]
    ]
