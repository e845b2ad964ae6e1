-- ===== src/Protocol/RoundTrip/Publish.antt =====
-- `encode_publish` against `decode_publish`.
use iotd.Prelude.{
  ℕ, Bytes, ◌/◌, ◌%◌, ◌^◌, ◌<◌, bit_and, ◌≡◌, refl, sym, Bool, true, false, [], ◌∷◌, ◌++◌,
  append_assoc, append-nil, length, length-append, Option, none, some, arith, Option-cases, inl,
  inr,
}
use iotd.Protocol.Result.{PacketError, ok, panic, ◌>>=◌}
use iotd.Protocol.Io.{list_io, front_slice}
use iotd.Protocol.Packet.{
  QoS, qos_as_u8, PublishPacket, PacketType, Packet, at_most_once, at_least_once, exactly_once,
}
use iotd.Protocol.Length.{length_code, encode_remaining_length-append}
use iotd.Protocol.Decode.{
  qos_or, has_bit, decode_string, decode_publish, decode_body, packet_type_try_from, decode,
}
use iotd.Protocol.Encode.{publish_length, publish_flags, put_packet_id, encode_publish, encode}
use iotd.Protocol.RoundTrip.{
  front_slice_self, u16_code, IsText, u16-eq, decode_string-append, encode_string-append,
  decode_frame,
}

-- A packet id stands exactly in the packets of QoS 1 and 2.
abbrev pub HasId : QoS → Option ℕ → Type 0
HasId at_most_once none = Unit
HasId at_most_once (some n) = ⊥
HasId at_least_once none = ⊥
HasId at_least_once (some n) = n < 2 ^ 16
HasId exactly_once none = ⊥
HasId exactly_once (some n) = n < 2 ^ 16

abbrev id_code : Option ℕ → Bytes
id_code none = []
id_code (some n) = u16_code n

-- What a PUBLISH packet may hold so that it can be sent: MQTT's ranges.
pub record IsPublish (p : PublishPacket) : Type 0 where
  pub topic_text : IsText p.topic
  pub id_iff_qos : HasId p.qos p.packet_id
  pub fits : publish_length p < 2 ^ 28

pub publish_body : PublishPacket → Bytes
publish_body p = u16_code (length p.topic) ++ (p.topic ++ (id_code p.packet_id ++ p.payload))

length-publish_body : (p : PublishPacket) → length (publish_body p) ≡ publish_length p
unfolding publish_body publish_length
length-publish_body p = elim (Option-cases p.packet_id) [
  | inl e ↦ rw e (omega (arith, length-append p.topic p.payload))
  | inr (n, e) ↦ rw e (omega (arith, length-append p.topic (u16_code n ++ p.payload)))
]

put_packet_id-append : (o : Option ℕ) (buf : Bytes) → put_packet_id list_io o buf ≡ buf ++ id_code o
put_packet_id-append none buf = sym (append-nil buf)
put_packet_id-append (some n) buf = refl

fits_u32 : (n : ℕ) → n < 2 ^ 28 → n % 2 ^ 32 ≡ n
fits_u32 n h = omega arith

pub encode_publish-append :
    (p : PublishPacket) (buf : Bytes)
    → IsPublish p
    → encode list_io (Packet.publish p) buf
      ≡ buf ++ (publish_flags p ∷ (length_code (publish_length p) ++ publish_body p))
unfolding encode encode_publish publish_body
encode_publish-append p buf h =
    rw
      (
        encode_string-append p.topic _ h.topic_text.0,
        encode_remaining_length-append,
        put_packet_id-append,
        fits_u32 (publish_length p) h.fits,
      )
      (simp append_assoc)

abbrev packet_of : Bytes → Bytes → QoS → Option ℕ → Bool → Bool → PublishPacket
packet_of topic payload qos packet_id retain dup = record {
  topic = topic;
  packet_id = packet_id;
  payload = payload;
  qos = qos;
  retain = retain;
  dup = dup;
}

abbrev Reads : PublishPacket → Type 0
Reads p = decode_publish list_io (bit_and (publish_flags p) 0x0f) (publish_body p) ≡ ok (p, [])

-- The first byte of what `encode_publish` wrote.
abbrev NibbleIs : QoS → Bool → Bool → ℕ → Type 0
NibbleIs q r d first =
    let f = bit_and first 0x0f in
    (bit_and (f / 2) 0x03 ≡ qos_as_u8 q)
    × (has_bit f 0x01 ≡ r)
    × (has_bit f 0x08 ≡ d)
    × (bit_and (first / 16) 0x0f ≡ 3)

module _ (t payload : Bytes) (o : Option ℕ) where
  nibble_is : (q : QoS) (r d : Bool) → NibbleIs q r d (publish_flags (packet_of t payload q o r d))
  unfolding publish_flags
  nibble_is at_most_once true true = (refl, refl, refl, refl)
  nibble_is at_most_once true false = (refl, refl, refl, refl)
  nibble_is at_most_once false true = (refl, refl, refl, refl)
  nibble_is at_most_once false false = (refl, refl, refl, refl)
  nibble_is at_least_once true true = (refl, refl, refl, refl)
  nibble_is at_least_once true false = (refl, refl, refl, refl)
  nibble_is at_least_once false true = (refl, refl, refl, refl)
  nibble_is at_least_once false false = (refl, refl, refl, refl)
  nibble_is exactly_once true true = (refl, refl, refl, refl)
  nibble_is exactly_once true false = (refl, refl, refl, refl)
  nibble_is exactly_once false true = (refl, refl, refl, refl)
  nibble_is exactly_once false false = (refl, refl, refl, refl)

pub read_qos :
    (e : PacketError) (q : QoS) (v : ℕ) (bytes : Bytes)
    → v ≡ qos_as_u8 q
    → qos_or e v bytes ≡ ok (q, bytes)
read_qos e at_most_once v bytes h = ground arith
read_qos e at_least_once v bytes h = ground arith
read_qos e exactly_once v bytes h = ground arith

module _ (t payload : Bytes) (h : IsText t) (r d : Bool) where
  abbrev step_topic :
      (rest : Bytes) → decode_string list_io (u16_code (length t) ++ (t ++ rest)) ≡ ok (t, rest)
  step_topic rest = decode_string-append t rest h

  read_payload : front_slice panic (length payload) payload ≡ ok (payload, [])
  read_payload = front_slice_self panic (length payload) payload refl

  read_without_id : Reads (packet_of t payload at_most_once none r d)
  unfolding decode_publish publish_body
  read_without_id =
      let table = nibble_is t payload none at_most_once r d in
      rw (step_topic payload, ◌>>=◌)
        (rw (read_qos _ at_most_once _ payload table.0, ◌>>=◌)
          (rw (read_payload, ◌>>=◌) (rw (table.1, table.2))))

  read_with_id : (q : QoS) (n : ℕ) → HasId q (some n) → Reads (packet_of t payload q (some n) r d)
  unfolding decode_publish publish_body
  read_with_id at_most_once n i = absurd i
  read_with_id at_least_once n i =
      let table = nibble_is t payload (some n) at_least_once r d in
      rw (step_topic (u16_code n ++ payload), ◌>>=◌)
        (rw (read_qos _ at_least_once _ (u16_code n ++ payload) table.0, ◌>>=◌)
          (rw (read_payload, ◌>>=◌) (rw (table.1, table.2, u16-eq))))
  read_with_id exactly_once n i =
      let table = nibble_is t payload (some n) exactly_once r d in
      rw (step_topic (u16_code n ++ payload), ◌>>=◌)
        (rw (read_qos _ exactly_once _ (u16_code n ++ payload) table.0, ◌>>=◌)
          (rw (read_payload, ◌>>=◌) (rw (table.1, table.2, u16-eq))))

  read_parts : (q : QoS) (o : Option ℕ) → HasId q o → Reads (packet_of t payload q o r d)
  read_parts at_most_once none i = read_without_id
  read_parts at_least_once none i = absurd i
  read_parts exactly_once none i = absurd i
  read_parts q (some n) i = read_with_id q n i

decode_publish-body : (p : PublishPacket) → IsPublish p → Reads p
decode_publish-body p h =
    read_parts p.topic p.payload h.topic_text p.retain p.dup p.qos p.packet_id h.id_iff_qos

pub decode_publish-frame :
    (p : PublishPacket) (rest : Bytes)
    → IsPublish p
    → decode list_io
        (publish_flags p ∷ (length_code (publish_length p) ++ (publish_body p ++ rest)))
      ≡ ok (Packet.publish p, rest)
unfolding decode_body
decode_publish-frame p rest h =
    let table = nibble_is p.topic p.payload p.packet_id p.qos p.retain p.dup in
    decode_frame (publish_flags p) (publish_length p) (publish_body p) rest PacketType.publish
      {packet = Packet.publish p} {unread = []} (rw table.3 (unfold packet_type_try_from in refl))
      h.fits (length-publish_body p) (rw (decode_publish-body p h, ◌>>=◌))
