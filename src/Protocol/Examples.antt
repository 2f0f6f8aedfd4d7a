-- ===== src/Protocol/Examples.antt =====
-- The round trips at a small packet.
use z_courier.Base.{◌≡◌, refl, some, [], ◌∷◌, ◌++◌, Text, bytes, arith}
use z_courier.Protocol.{
  Packet, ok, err, encode, header_bytes, variable_bytes, encode_frame, encode_packet_frame,
  read_packet_frame, decode_with_max_body_size,
}
use z_courier.Protocol.Frames.{
  IsPacket, versioned, decode-encode, read_packet_frame-encode_packet_frame,
}

abbrev ping : Packet
ping = record {
  version = 0;
  flags = 1;
  msg_id = 300;
  seq = 2;
  timestamp = 1700000000;
  client_id = bytes "c1";
  device_id = bytes "phone";
  session_id = [];
  message_id = bytes "m1";
  trace_id = [];
  token = bytes "t";
  body = bytes "ping";
}

ping-IsPacket : IsPacket ping
ping-IsPacket = record {
  flags = omega arith;
  msg_id = omega arith;
  seq = omega arith;
  timestamp = omega arith;
}

abbrev ping_bytes : Text
ping_bytes = header_bytes (versioned ping) ++ variable_bytes (versioned ping)

encodes : encode (some ping) ≡ ok (versioned ping, ping_bytes)
unfolding encode
encodes = refl

decode-encode_example :
    (versioned ping ≡ versioned ping)
    × (decode_with_max_body_size ping_bytes 4 ≡ ok (versioned ping))
decode-encode_example =
    decode-encode ping ping-IsPacket (versioned ping) ping_bytes 4 encodes (omega arith)

abbrev framed : Text
framed = elim (encode_packet_frame (some ping) 0) [ err e ↦ [] | ok frame ↦ frame ]

frames : encode_packet_frame (some ping) 0 ≡ ok framed
unfolding encode_packet_frame encode encode_frame header_bytes variable_bytes
frames = refl

read_packet_frame-encode_packet_frame_example :
    read_packet_frame (framed ++ (1 ∷ 2 ∷ [])) 0 0 ≡ ok (versioned ping, 1 ∷ 2 ∷ [])
read_packet_frame-encode_packet_frame_example =
    read_packet_frame-encode_packet_frame ping ping-IsPacket 0 0 framed (1 ∷ 2 ∷ []) frames
      (omega arith)
