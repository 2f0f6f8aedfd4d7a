-- ===== src/Protocol/Packets.antt =====
-- A packet that is encoded is read back as it was, and nothing more is read.
use z_courier.Base.{
  ℕ, ◌+◌, ◌^◌, ◌≡◌, ◌≤◌, ◌<◌, refl, ap, ◌∙◌, false, ◌++◌, Text, take, drop, length, take_append,
  drop_append, take-length, length-append, ltb, arith,
}
use z_courier.Protocol.{
  Packet, ok, header_bytes, variable_bytes, parse_packet, variable_length, read_packet, byte_at,
  uint16_at, uint32_at, uint64_at,
}
use z_courier.Protocol.Words.{uint16_digits, uint32_digits, uint64_digits}

-- The values of the source's types, and sizes that `Encode` accepts.
pub record IsEncodable (p : Packet) : Type 0 where
  pub version : p.version ≡ 1
  pub flags : p.flags < 2 ^ 16
  pub msg_id : p.msg_id < 2 ^ 32
  pub seq : p.seq < 2 ^ 64
  pub timestamp : p.timestamp < 2 ^ 64
  pub client_id : length p.client_id < 2 ^ 16
  pub device_id : length p.device_id < 2 ^ 16
  pub session_id : length p.session_id < 2 ^ 16
  pub message_id : length p.message_id < 2 ^ 16
  pub trace_id : length p.trace_id < 2 ^ 16
  pub token : length p.token < 2 ^ 16
  pub body : length p.body < 2 ^ 32

pub length-header_bytes : (p : Packet) → length (header_bytes p) ≡ 41
unfolding header_bytes
length-header_bytes p = refl

-- What the header tells of the sizes.
module _ (p : Packet) (e : IsEncodable p) where
  header_sizes :
      (uint16_at (header_bytes p) 25 ≡ length p.client_id)
      × (uint16_at (header_bytes p) 27 ≡ length p.device_id)
      × (uint16_at (header_bytes p) 29 ≡ length p.session_id)
      × (uint16_at (header_bytes p) 31 ≡ length p.message_id)
      × (uint16_at (header_bytes p) 33 ≡ length p.trace_id)
      × (uint16_at (header_bytes p) 35 ≡ length p.token)
      × (uint32_at (header_bytes p) 37 ≡ length p.body)
  unfolding header_bytes
  header_sizes = (
    uint16_digits (length p.client_id) e.client_id,
    uint16_digits (length p.device_id) e.device_id,
    uint16_digits (length p.session_id) e.session_id,
    uint16_digits (length p.message_id) e.message_id,
    uint16_digits (length p.trace_id) e.trace_id,
    uint16_digits (length p.token) e.token,
    uint32_digits (length p.body) e.body,
  )

  header_values :
      (byte_at (header_bytes p) 2 ≡ p.version)
      × (uint16_at (header_bytes p) 3 ≡ p.flags)
      × (uint32_at (header_bytes p) 5 ≡ p.msg_id)
      × (uint64_at (header_bytes p) 9 ≡ p.seq)
      × (uint64_at (header_bytes p) 17 ≡ p.timestamp)
  unfolding header_bytes
  header_values = (
    refl,
    uint16_digits p.flags e.flags,
    uint32_digits p.msg_id e.msg_id,
    uint64_digits p.seq e.seq,
    uint64_digits p.timestamp e.timestamp,
  )

  parse_packet-variable_bytes : parse_packet (header_bytes p) (variable_bytes p) ≡ p
  unfolding parse_packet variable_bytes
  parse_packet-variable_bytes =
      let (c, d, s, m, t, k, b) = header_sizes in
      let (v, f, i, q, ts) = header_values in
      rw (c, d, s, m, t, k, b, v, f, i, q, ts) simp (take_append, drop_append, take-length)

  variable_length-header_bytes : variable_length (header_bytes p) ≡ length (variable_bytes p)
  unfolding variable_length variable_bytes
  variable_length-header_bytes =
      let (c, d, s, m, t, k, b) = header_sizes in
      rw
        (
          c,
          d,
          s,
          m,
          t,
          k,
          b,
          length-append p.client_id _,
          length-append p.device_id _,
          length-append p.session_id _,
          length-append p.message_id _,
          length-append p.trace_id _,
          length-append p.token p.body,
        )
        omega arith

  magic-header_bytes : uint16_at (header_bytes p) 0 ≡ 0x5a43
  unfolding header_bytes
  magic-header_bytes = refl

-- The bytes of a packet are read back, with whatever stands behind them left in the reader.
module _ (p : Packet) (e : IsEncodable p) (rest : Text) (max : ℕ) (fits : length p.body ≤ max) where
  abbrev bytes : Text
  bytes = header_bytes p ++ (variable_bytes p ++ rest)

  head_of : take 41 bytes ≡ header_bytes p
  unfolding header_bytes
  head_of = refl

  tail_of : drop 41 bytes ≡ variable_bytes p ++ rest
  unfolding header_bytes
  tail_of = refl

  length-bytes : length bytes ≡ 41 + length (variable_bytes p ++ rest)
  length-bytes =
      length-append (header_bytes p) _
      ∙ ap (◌+ length (variable_bytes p ++ rest)) (length-header_bytes p)

  pub read_packet-bytes :
      read_packet (header_bytes p ++ (variable_bytes p ++ rest)) max
      ≡ ok (p, 41 + length (variable_bytes p), rest)
  unfolding read_packet
  read_packet-bytes =
      let long : ltb (length bytes) 41 ≡ false = ground (arith, length-bytes) in
      let small : ltb max (length p.body) ≡ false = ground arith in
      let full : ltb (length (variable_bytes p ++ rest)) (length (variable_bytes p)) ≡ false =
        ground (arith, length-append (variable_bytes p) rest) in
      let version_is : byte_at (header_bytes p) 2 ≡ 1 = (header_values p e).0 ∙ e.version in
      let (c, d, s, m, t, k, b) = header_sizes p e in
      rw
        (
          head_of,
          tail_of,
          variable_length-header_bytes p e,
          long,
          magic-header_bytes p e,
          version_is,
          b,
          small,
          full,
          take_append (variable_bytes p) rest,
          drop_append (variable_bytes p) rest,
          parse_packet-variable_bytes p e,
        )
        refl
