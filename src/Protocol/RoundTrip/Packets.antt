-- ===== src/Protocol/RoundTrip/Packets.antt =====
-- Every packet that both ends of a connection send, and those that only the server sends.
use iotd.Prelude.{ℕ, Bytes, ◌/◌, ◌^◌, ◌<◌, bit_and, ◌≡◌, refl, [], ◌∷◌, ◌++◌, append_assoc, arith}
use iotd.Protocol.Result.{ok, pure}
use iotd.Protocol.Io.{Io, IsIo, list_io, for_every_io}
use iotd.Protocol.Packet.{
  PacketType, Packet, connect, conn_ack, publish, pub_ack, pub_rec, pub_rel, pub_comp, subscribe,
  sub_ack, unsubscribe, unsub_ack, ping_req, ping_resp, disconnect,
}
use iotd.Protocol.Length.{length_code}
use iotd.Protocol.Decode.{decode_body, packet_type_try_from, decode}
use iotd.Protocol.Encode.{
  encode_remaining_length, publish_flags, publish_length, encode, length_bytes,
}
use iotd.Protocol.RoundTrip.{u16_code, u16-eq, decode_frame}
use iotd.Protocol.RoundTrip.Publish.{
  IsPublish, publish_body, decode_publish-frame, encode_publish-append,
}

-- The packets that this encoder and this decoder share, with a `u16` for the packet id.
abbrev pub IsShared : Packet → Type 0
IsShared (publish p) = IsPublish p
IsShared (pub_ack n) = n < 2 ^ 16
IsShared (pub_rec n) = n < 2 ^ 16
IsShared (pub_rel n) = n < 2 ^ 16
IsShared (pub_comp n) = n < 2 ^ 16
IsShared disconnect = Unit
IsShared (connect _) = ⊥
IsShared (conn_ack _) = ⊥
IsShared (subscribe _) = ⊥
IsShared (sub_ack _) = ⊥
IsShared (unsubscribe _) = ⊥
IsShared (unsub_ack _) = ⊥
IsShared ping_req = ⊥
IsShared ping_resp = ⊥

abbrev RoundTrips : Io → Packet → Bytes → Bytes → Type 0
RoundTrips i p buf rest =
    (written : Bytes) × (encode i p buf ≡ buf ++ written)
    × (decode i (written ++ rest) ≡ ok (p, rest))

-- The encoder of an acknowledgement, as one piece behind the buffer.
ack_written :
    (first n : ℕ) (buf : Bytes)
    → ((buf ++ first ∷ []) ++ 2 ∷ []) ++ u16_code n ≡ buf ++ (first ∷ 2 ∷ u16_code n)
ack_written first n buf = simp append_assoc

code_two : length_code 2 ≡ 2 ∷ []
unfolding encode_remaining_length length_bytes
code_two = refl

read_ack :
    (first n : ℕ) (t : PacketType) (p : Packet) (rest : Bytes)
    → packet_type_try_from (bit_and (first / 16) 0x0f) ≡ pure t
    → decode_body list_io t (bit_and first 0x0f) 2 (u16_code n) ≡ ok (p, [])
    → decode list_io (first ∷ 2 ∷ (u16_code n ++ rest)) ≡ ok (p, rest)
read_ack first n t p rest known read =
    rw code_two at (decode_frame first 2 (u16_code n) rest t known (omega arith) refl read)

read_disconnect : (rest : Bytes) → decode list_io (0xe0 ∷ 0 ∷ rest) ≡ ok (disconnect, rest)
unfolding encode_remaining_length length_bytes decode_body packet_type_try_from
read_disconnect rest =
    decode_frame 0xe0 0 [] rest PacketType.disconnect {packet = disconnect} {unread = []} refl
      (omega arith) refl refl

list_io-RoundTrips : (p : Packet) (buf rest : Bytes) → IsShared p → RoundTrips list_io p buf rest
unfolding encode decode_body packet_type_try_from
list_io-RoundTrips (publish p) buf rest h = (
  publish_flags p ∷ (length_code (publish_length p) ++ publish_body p),
  encode_publish-append p buf h,
  rw append_assoc (decode_publish-frame p rest h),
)
list_io-RoundTrips (pub_ack n) buf rest h = (
  0x40 ∷ 2 ∷ u16_code n,
  ack_written 0x40 n buf,
  read_ack 0x40 n PacketType.pub_ack (pub_ack n) rest refl (rw u16-eq),
)
list_io-RoundTrips (pub_rec n) buf rest h = (
  0x50 ∷ 2 ∷ u16_code n,
  ack_written 0x50 n buf,
  read_ack 0x50 n PacketType.pub_rec (pub_rec n) rest refl (rw u16-eq),
)
list_io-RoundTrips (pub_rel n) buf rest h = (
  0x62 ∷ 2 ∷ u16_code n,
  ack_written 0x62 n buf,
  read_ack 0x62 n PacketType.pub_rel (pub_rel n) rest refl (rw u16-eq),
)
list_io-RoundTrips (pub_comp n) buf rest h = (
  0x70 ∷ 2 ∷ u16_code n,
  ack_written 0x70 n buf,
  read_ack 0x70 n PacketType.pub_comp (pub_comp n) rest refl (rw u16-eq),
)
list_io-RoundTrips disconnect buf rest h =
    (0xe0 ∷ 0 ∷ [], append_assoc buf (0xe0 ∷ []) (0 ∷ []), read_disconnect rest)
list_io-RoundTrips _ buf rest h = absurd h

-- For every PUBLISH within the ranges of MQTT, every PUBACK, PUBREC, PUBREL and PUBCOMP with a 16-bit
-- packet id, and DISCONNECT: `Packet::encode` appends bytes to the buffer from which `Packet::decode`
-- reads that same packet, and leaves the rest of the stream unread.
pub decode-encode :
    (i : Io)
    → IsIo i
    → (p : Packet) (buf rest : Bytes) → IsShared p
    → (written : Bytes) × (encode i p buf ≡ buf ++ written)
      × (decode i (written ++ rest) ≡ ok (p, rest))
decode-encode =
    for_every_io (λ i. (p : Packet) (buf rest : Bytes) → IsShared p → RoundTrips i p buf rest)
      list_io-RoundTrips
