-- ===== src/Protocol/Wire/Requests.antt =====
-- `Packet::decode` of src/protocol/packet.rs on the packets that only a client sends.
use iotd.Prelude.{
  ℕ, Bytes, ◌/◌, ◌^◌, ◌<◌, bit_and, ◌≡◌, refl, [], ◌∷◌, ◌++◌, append_assoc, length, All,
}
use iotd.Protocol.Result.{ok, ◌>>=◌, pure}
use iotd.Protocol.Io.{Io, IsIo, list_io, for_every_io}
use iotd.Protocol.Packet.{PacketType}
use iotd.Protocol.Length.{length_code}
use iotd.Protocol.Decode.{packet_type_try_from, decode_body, decode}
use iotd.Protocol.RoundTrip.{IsText, decode_frame}
use iotd.Protocol.Wire.{Request, first_byte, body, packet_of}
use iotd.Protocol.Wire.Connect.{IsConnect, decode_connect-body}
use iotd.Protocol.Wire.Filters.{decode_subscribe-fields, decode_unsubscribe-fields}

-- What MQTT allows in the fields.
abbrev IsFields : Request → Type 0
IsFields (Request.connect c) = IsConnect c
IsFields (Request.subscribe p) = (p.packet_id < 2 ^ 16) × All (λ f. IsText f.0) p.topic_filters
IsFields (Request.unsubscribe p) = (p.packet_id < 2 ^ 16) × All IsText p.topic_filters
IsFields Request.ping_req = Unit

abbrev pub IsRequest : Request → Type 0
IsRequest r = IsFields r × (length (body r) < 2 ^ 28)

-- The packet on the stream: the first byte, the remaining length and the body.
abbrev pub wire : Request → Bytes
wire r = first_byte r ∷ (length_code (length (body r)) ++ body r)

abbrev type_of : Request → PacketType
type_of (Request.connect c) = PacketType.connect
type_of (Request.subscribe p) = PacketType.subscribe
type_of (Request.unsubscribe p) = PacketType.unsubscribe
type_of Request.ping_req = PacketType.ping_req

first_byte-type :
    (r : Request) → packet_type_try_from (bit_and (first_byte r / 16) 0x0f) ≡ pure (type_of r)
unfolding packet_type_try_from
first_byte-type (Request.connect c) = refl
first_byte-type (Request.subscribe p) = refl
first_byte-type (Request.unsubscribe p) = refl
first_byte-type Request.ping_req = refl

decode_body-request :
    (r : Request) (flags n : ℕ)
    → IsFields r
    → decode_body list_io (type_of r) flags n (body r) ≡ ok (packet_of r, [])
unfolding decode_body body
decode_body-request (Request.connect c) flags n h = rw (decode_connect-body c h, ◌>>=◌)
decode_body-request (Request.subscribe p) flags n h = rw (decode_subscribe-fields p h.1, ◌>>=◌) refl
decode_body-request (Request.unsubscribe p) flags n h =
    rw (decode_unsubscribe-fields p h.1, ◌>>=◌) refl
decode_body-request Request.ping_req flags n h = refl

-- A CONNECT with any Will and login, a SUBSCRIBE, an UNSUBSCRIBE or a PINGREQ that a client writes as MQTT
-- 3.1.1 lays it out, within MQTT's ranges, is read by `Packet::decode` as that packet, field by field, and
-- the rest of the stream is left unread.
pub decode-wire :
    (i : Io)
    → IsIo i
    → (r : Request) (rest : Bytes) → IsRequest r
    → decode i (wire r ++ rest) ≡ ok (packet_of r, rest)
decode-wire i law r rest h =
    for_every_io (λ j. decode j (wire r ++ rest) ≡ ok (packet_of r, rest))
      (rw append_assoc (
        decode_frame (first_byte r) (length (body r)) (body r) rest (type_of r)
          {packet = packet_of r} {unread = []} (first_byte-type r) h.1 refl
          (decode_body-request r (bit_and (first_byte r) 0x0f) (length (body r)) h.0)))
      i law
