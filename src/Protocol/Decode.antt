-- ===== src/Protocol/Decode.antt =====
-- `Packet::decode` of src/protocol/packet.rs and the functions under it.
use iotd.Prelude.{
  ℕ, zero, suc, Bytes, ◌+◌, ◌*◌, ◌/◌, ◌%◌, ◌^◌, bit_and, Bool, true, false, not, ◌&&◌, List, [],
  ◌∷◌, ◌++◌, Option, none, some, ltb, leb, ◌==◌, nat_eq, if◌then◌else◌,
}
use iotd.Protocol.Result.{
  PacketError, invalid_packet_type, invalid_remaining_length, incomplete_packet, invalid_utf8,
  invalid_packet_flags, ok, err, panic, stuck, Parser, ◌>>=◌, ◌>>◌, pure, fail, refuse_if,
}
use iotd.Protocol.Io.{Io}
use iotd.Protocol.Text.{is_utf8}
use iotd.Protocol.Packet.{
  PacketType, packet_type_as_u8, QoS, at_most_once, at_least_once, exactly_once, ConnectPacket,
  PublishPacket, SubscribePacket, UnsubscribePacket, Packet,
}

-- `PacketType::try_from`
unfoldable pub packet_type_try_from : ℕ → Parser PacketType
packet_type_try_from value =
    if value == 1
    then pure PacketType.connect
    else if value == 2
    then pure PacketType.conn_ack
    else if value == 3
    then pure PacketType.publish
    else if value == 4
    then pure PacketType.pub_ack
    else if value == 5
    then pure PacketType.pub_rec
    else if value == 6
    then pure PacketType.pub_rel
    else if value == 7
    then pure PacketType.pub_comp
    else if value == 8
    then pure PacketType.subscribe
    else if value == 9
    then pure PacketType.sub_ack
    else if value == 10
    then pure PacketType.unsubscribe
    else if value == 11
    then pure PacketType.unsub_ack
    else if value == 12
    then pure PacketType.ping_req
    else if value == 13
    then pure PacketType.ping_resp
    else if value == 14
    then pure PacketType.disconnect
    else fail (invalid_packet_type value)

-- The `match` on two bits of a flags byte, or on a QoS byte, with its error.
abbrev pub qos_or : PacketError → ℕ → Parser QoS
qos_or e value =
    if value == 0
    then pure at_most_once
    else if value == 1
    then pure at_least_once
    else if value == 2
    then pure exactly_once
    else fail e

-- `(flags & mask) != 0`
abbrev pub has_bit : ℕ → ℕ → Bool
has_bit flags mask = not (bit_and flags mask == 0)

-- What an optional field reads: nothing without its flag.
abbrev pub when {ℓ} : {A : Type ℓ} → Bool → Parser A → Parser (Option A)
when true m = m >>= λ a. pure (some a)
when false m = pure none

module _ (i : Io) where
  open i use {remaining, get_u8, get_u16, copy_to_slice, read_u8, read_exact}

  -- `cursor.remaining()`
  abbrev pub bytes_left : Parser ℕ
  bytes_left cursor = ok (remaining cursor, cursor)

  -- The loop of `decode_remaining_length_async`. The fifth round always ends it.
  unfoldable pub length_loop : ℕ → ℕ → ℕ → ℕ → Parser ℕ
  length_loop zero multiplier value byte_count = λ _. stuck
  length_loop (suc fuel) multiplier value byte_count =
      let next = do
        byte ← read_u8
        let value' = (value + bit_and byte 0x7f * multiplier % 2 ^ 32) % 2 ^ 32
        let more = length_loop fuel (multiplier * 128 % 2 ^ 32) value' (byte_count + 1)
        if bit_and byte 0x80 == 0 then pure value' else more
      in if leb 4 byte_count then fail invalid_remaining_length else next

  unfoldable pub decode_remaining_length : Parser ℕ
  decode_remaining_length = length_loop 5 1 0 0

  unfoldable pub decode_string : Parser Bytes
  decode_string = do
    header ← bytes_left
    refuse_if (ltb header 2) incomplete_packet
    len ← get_u16
    body ← bytes_left
    refuse_if (ltb body len) incomplete_packet
    bytes ← copy_to_slice len
    refuse_if (not (is_utf8 bytes)) invalid_utf8
    pure bytes

  -- The Will payload: its length is not compared with what is left.
  unfoldable pub decode_will_payload : Parser Bytes
  decode_will_payload = do payload_len ← get_u16; copy_to_slice payload_len

  unfoldable pub decode_password : Parser Bytes
  decode_password = do
    header ← bytes_left
    refuse_if (ltb header 2) incomplete_packet
    len ← get_u16
    body ← bytes_left
    refuse_if (ltb body len) incomplete_packet
    copy_to_slice len

  unfoldable pub decode_connect : Parser ConnectPacket
  decode_connect = do
    protocol_name ← decode_string
    protocol_level ← get_u8
    connect_flags ← get_u8
    keep_alive ← get_u16
    client_id ← decode_string
    let will_flag = has_bit connect_flags 0x04
    will_qos ←
        (if will_flag
          then qos_or invalid_packet_flags (bit_and (connect_flags / 8) 0x03)
          else pure at_most_once)
    let will_retain = has_bit connect_flags 0x20
    let username_flag = has_bit connect_flags 0x80
    let password_flag = has_bit connect_flags 0x40
    refuse_if (password_flag && not username_flag) invalid_packet_flags
    will_topic ← when will_flag decode_string
    will_payload ← when will_flag decode_will_payload
    username ← when username_flag decode_string
    password ← when password_flag decode_password
    pure (record {
      protocol_name = protocol_name;
      protocol_level = protocol_level;
      clean_session = has_bit connect_flags 0x02;
      keep_alive = keep_alive;
      client_id = client_id;
      will_flag = will_flag;
      will_qos = will_qos;
      will_retain = will_retain;
      will_topic = will_topic;
      will_payload = will_payload;
      username = username;
      password = password;
    })

  unfoldable pub decode_publish : ℕ → Parser PublishPacket
  decode_publish flags = do
    topic ← decode_string
    qos ← qos_or (invalid_packet_type flags) (bit_and (flags / 2) 0x03)
    packet_id ← elim qos [ at_most_once ↦ pure none | _ ↦ (get_u16 >>= λ n. pure (some n)) ]
    payload_len ← bytes_left
    payload ← copy_to_slice payload_len
    pure (record {
      topic = topic;
      packet_id = packet_id;
      payload = payload;
      qos = qos;
      retain = has_bit flags 0x01;
      dup = has_bit flags 0x08;
    })

  -- The loop of `decode_subscribe`, with what `topic_filters` holds so far. A round takes bytes.
  unfoldable pub subscribe_loop : ℕ → List (Bytes × QoS) → Parser (List (Bytes × QoS))
  subscribe_loop zero topic_filters = λ _. stuck
  subscribe_loop (suc fuel) topic_filters =
      let next = do
        topic ← decode_string
        qos_byte ← get_u8
        qos ← qos_or (invalid_packet_type qos_byte) qos_byte
        subscribe_loop fuel (topic_filters ++ (topic, qos) ∷ [])
      in do left ← bytes_left; if ltb 0 left then next else pure topic_filters

  unfoldable pub decode_subscribe : Parser SubscribePacket
  decode_subscribe = do
    packet_id ← get_u16
    left ← bytes_left
    topic_filters ← subscribe_loop (suc left) []
    pure (record { packet_id = packet_id; topic_filters = topic_filters })

  -- The loop of `decode_unsubscribe`.
  unfoldable pub unsubscribe_loop : ℕ → List Bytes → Parser (List Bytes)
  unsubscribe_loop zero topic_filters = λ _. stuck
  unsubscribe_loop (suc fuel) topic_filters =
      let next = do topic ← decode_string; unsubscribe_loop fuel (topic_filters ++ topic ∷ [])
      in do left ← bytes_left; if ltb 0 left then next else pure topic_filters

  unfoldable pub decode_unsubscribe : Parser UnsubscribePacket
  decode_unsubscribe = do
    packet_id ← get_u16
    left ← bytes_left
    topic_filters ← unsubscribe_loop (suc left) []
    pure (record { packet_id = packet_id; topic_filters = topic_filters })

  -- An acknowledgement, whose body is a packet id.
  abbrev pub decode_ack : PacketType → ℕ → (ℕ → Packet) → Parser Packet
  decode_ack packet_type remaining_length make = do
    refuse_if (not (remaining_length == 2)) (invalid_packet_type (packet_type_as_u8 packet_type))
    packet_id ← get_u16
    pure (make packet_id)

  -- The `match packet_type` of `decode`, on a cursor over the packet's data.
  unfoldable pub decode_body : PacketType → ℕ → ℕ → Parser Packet
  decode_body PacketType.connect flags remaining_length = do
    packet ← decode_connect
    pure (Packet.connect packet)
  decode_body PacketType.publish flags remaining_length = do
    packet ← decode_publish flags
    pure (Packet.publish packet)
  decode_body PacketType.pub_ack flags remaining_length =
      decode_ack PacketType.pub_ack remaining_length Packet.pub_ack
  decode_body PacketType.pub_rec flags remaining_length =
      decode_ack PacketType.pub_rec remaining_length Packet.pub_rec
  decode_body PacketType.pub_rel flags remaining_length = do
    refuse_if (not (flags == 0x02)) invalid_packet_flags
    decode_ack PacketType.pub_rel remaining_length Packet.pub_rel
  decode_body PacketType.pub_comp flags remaining_length =
      decode_ack PacketType.pub_comp remaining_length Packet.pub_comp
  decode_body PacketType.subscribe flags remaining_length = do
    packet ← decode_subscribe
    pure (Packet.subscribe packet)
  decode_body PacketType.unsubscribe flags remaining_length = do
    packet ← decode_unsubscribe
    pure (Packet.unsubscribe packet)
  decode_body PacketType.ping_req flags remaining_length = pure Packet.ping_req
  decode_body PacketType.disconnect flags remaining_length = pure Packet.disconnect
  decode_body packet_type flags remaining_length =
      fail (invalid_packet_type (packet_type_as_u8 packet_type))

  -- A parser run on a cursor of its own; what it leaves there is dropped with the cursor.
  abbrev pub on_cursor : Bytes → Parser Packet → Parser Packet
  on_cursor packet_data parser reader = elim (parser packet_data) [
    | ok (packet, unread) ↦ ok (packet, reader)
    | err e ↦ err e
    | panic ↦ panic
    | stuck ↦ stuck
  ]

  unfoldable pub decode : Parser Packet
  decode = do
    first_byte ← read_u8
    packet_type ← packet_type_try_from (bit_and (first_byte / 16) 0x0f)
    let flags = bit_and first_byte 0x0f
    remaining_length ← decode_remaining_length
    packet_data ← read_exact remaining_length
    on_cursor packet_data (decode_body packet_type flags remaining_length)
