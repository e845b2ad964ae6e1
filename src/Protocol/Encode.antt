-- ===== src/Protocol/Encode.antt =====
-- `Packet::encode` of src/protocol/packet.rs and the functions under it. Each takes the buffer
-- last and returns it longer.
use iotd.Prelude.{
  ℕ, zero, suc, Bytes, ◌+◌, ◌*◌, ◌/◌, ◌%◌, ◌^◌, bit_or, List, [], ◌∷◌, Option, none, some, length,
  ltb, ◌==◌, nat_eq, if◌then◌else◌,
}
use iotd.Protocol.Io.{Io}
use iotd.Protocol.Packet.{
  qos_as_u8, ConnAckPacket, PublishPacket, SubAckPacket, Packet, publish, conn_ack, pub_ack,
  pub_rec, pub_rel, pub_comp, sub_ack, unsub_ack, ping_resp, disconnect,
}

-- The first byte of a PUBLISH.
unfoldable pub publish_flags : PublishPacket → ℕ
publish_flags packet =
    let flags : ℕ = 0x30 in
    let flags' = if packet.dup then bit_or flags 0x08 else flags in
    let flags'' = bit_or flags' (qos_as_u8 packet.qos * 2) in
    if packet.retain then bit_or flags'' 0x01 else flags''

-- `remaining_length` of `encode_publish`, before the cast to `u32`.
unfoldable pub publish_length : PublishPacket → ℕ
publish_length packet =
    2
    + length packet.topic
    + elim packet.packet_id [ some _ ↦ 2 | none ↦ 0 ]
    + length packet.payload

module _ (i : Io) where
  open i use {put_u8, put_u16, put_slice}

  -- The loop of `encode_remaining_length`: five rounds end it for every `u32`.
  unfoldable pub length_bytes : ℕ → ℕ → Bytes → Bytes
  length_bytes zero remaining buf = buf
  length_bytes (suc fuel) remaining buf =
      let byte = remaining % 128 in
      let remaining' = remaining / 128 in
      let byte' = if ltb 0 remaining' then bit_or byte 0x80 else byte in
      let buf' = put_u8 byte' buf in
      let more = length_bytes fuel remaining' buf' in if remaining' == 0 then buf' else more

  unfoldable pub encode_remaining_length : ℕ → Bytes → Bytes
  encode_remaining_length = length_bytes 5

  unfoldable pub encode_string : Bytes → Bytes → Bytes
  encode_string s buf = put_slice s (put_u16 (length s % 2 ^ 16) buf)

  unfoldable pub encode_connack : ConnAckPacket → Bytes → Bytes
  encode_connack packet buf =
      put_u8 packet.return_code
        (put_u8 (if packet.session_present then 0x01 else 0x00) (put_u8 2 (put_u8 0x20 buf)))

  abbrev pub put_packet_id : Option ℕ → Bytes → Bytes
  put_packet_id (some packet_id) buf = put_u16 packet_id buf
  put_packet_id none buf = buf

  unfoldable pub encode_publish : PublishPacket → Bytes → Bytes
  encode_publish packet buf =
      let headed =
        encode_remaining_length (publish_length packet % 2 ^ 32)
          (put_u8 (publish_flags packet) buf) in
      let titled = encode_string packet.topic headed in
      put_slice packet.payload (put_packet_id packet.packet_id titled)

  -- `encode_puback`, `encode_pubrec`, `encode_pubrel`, `encode_pubcomp` and `encode_unsuback`, which
  -- differ in their first byte.
  abbrev pub encode_ack : ℕ → ℕ → Bytes → Bytes
  encode_ack first packet_id buf = put_u16 packet_id (put_u8 2 (put_u8 first buf))

  unfoldable pub put_codes : List ℕ → Bytes → Bytes
  put_codes [] buf = buf
  put_codes (code ∷ codes) buf = put_codes codes (put_u8 code buf)

  unfoldable pub encode_suback : SubAckPacket → Bytes → Bytes
  encode_suback packet buf =
      let headed =
        encode_remaining_length ((2 + length packet.return_codes % 2 ^ 32) % 2 ^ 32)
          (put_u8 0x90 buf) in
      put_codes packet.return_codes (put_u16 packet.packet_id headed)

  -- `encode_pingresp` and `encode_disconnect`
  abbrev pub encode_bare : ℕ → Bytes → Bytes
  encode_bare first buf = put_u8 0 (put_u8 first buf)

  unfoldable pub encode : Packet → Bytes → Bytes
  encode (conn_ack packet) buf = encode_connack packet buf
  encode (publish packet) buf = encode_publish packet buf
  encode (pub_ack packet_id) buf = encode_ack 0x40 packet_id buf
  encode (pub_rec packet_id) buf = encode_ack 0x50 packet_id buf
  encode (pub_rel packet_id) buf = encode_ack 0x62 packet_id buf
  encode (pub_comp packet_id) buf = encode_ack 0x70 packet_id buf
  encode (sub_ack packet) buf = encode_suback packet buf
  encode (unsub_ack packet_id) buf = encode_ack 0xb0 packet_id buf
  encode ping_resp buf = encode_bare 0xd0 buf
  encode disconnect buf = encode_bare 0xe0 buf
  encode _ buf = buf
