-- ===== src/Protocol/Ends/Bodies.antt =====
-- The bodies of the packets under `Packet::decode` of src/protocol/packet.rs: each reading ends.
use iotd.Prelude.{
  ℕ, zero, suc, Bytes, ◌≤◌, ◌<◌, ◌≡◌, ◌⊎◌, refl, Bool, true, false, Option, none, some, List, [],
  ◌∷◌, ◌++◌, length, ltb, ◌==◌, nat_eq, nat_beq_iff, Bool-cases, inl, inr, arith, bit_and, ◌/◌,
}
use iotd.Protocol.Result.{panic, Parser, ◌>>=◌, pure, invalid_packet_type}
use iotd.Protocol.Io.{list_io, front_slice, front_u8, front_u16}
use iotd.Protocol.Packet.{
  QoS, PacketType, packet_type_as_u8, Packet, at_most_once, at_least_once, exactly_once,
}
use iotd.Protocol.Decode.{
  bytes_left, qos_or, has_bit, when, decode_string, decode_will_payload, decode_password,
  decode_connect, decode_publish, subscribe_loop, decode_subscribe, unsubscribe_loop,
  decode_unsubscribe, decode_ack, decode_body,
}
use iotd.Protocol.Ends.{
  Takes, bind-Takes, pure-Parses, refuse_if-Parses, qos_or-Parses, u8-Parses, u16-Parses, if-Parses,
  slice-Parses, u16-Takes_checked, weaken, Parses, bind-Parses, slice-Takes_checked,
}

at_least : (n k : ℕ) → ltb n k ≡ false → k ≤ n
at_least n k h = ground arith

module _ {P : Type 0} where
  -- The length and as many bytes, each behind a test of what is left.
  pub decode_string-Takes : (bytes : Bytes) → Takes P 2 bytes (decode_string list_io bytes)
  unfolding decode_string
  decode_string-Takes bytes = elim (Bool-cases (ltb (length bytes) 2)) [
    | inl short ↦ rw (short, ◌>>=◌) Takes.refuses
    | inr enough ↦ rw enough (
        bind-Takes (front_u16 panic) _ 2 bytes
          (u16-Takes_checked bytes (at_least (length bytes) 2 enough))
          (λ len rest _. elim (Bool-cases (ltb (length rest) len)) [
            | inl few ↦ rw (few, ◌>>=◌) Takes.refuses
            | inr all ↦ rw all (
                bind-Takes (front_slice panic len) _ 0 rest
                  (slice-Takes_checked len rest (at_least (length rest) len all))
                  (λ s rest' _. (bind-Parses (refuse_if-Parses _ _) (λ _. pure-Parses s)).at rest'))
          ]))
  ]

  pub decode_password-Takes : (bytes : Bytes) → Takes P 2 bytes (decode_password list_io bytes)
  unfolding decode_password
  decode_password-Takes bytes = elim (Bool-cases (ltb (length bytes) 2)) [
    | inl short ↦ rw (short, ◌>>=◌) Takes.refuses
    | inr enough ↦ rw enough (
        bind-Takes (front_u16 panic) _ 2 bytes
          (u16-Takes_checked bytes (at_least (length bytes) 2 enough))
          (λ len rest _. elim (Bool-cases (ltb (length rest) len)) [
            | inl few ↦ rw (few, ◌>>=◌) Takes.refuses
            | inr all ↦ rw all (slice-Takes_checked len rest (at_least (length rest) len all))
          ]))
  ]

  text : Parses P (decode_string list_io)
  text = record { at = λ bytes. weaken 2 (decode_string-Takes bytes) }

  secret : Parses P (decode_password list_io)
  secret = record { at = λ bytes. weaken 2 (decode_password-Takes bytes) }

  decode_will_payload-Parses : P → Parses P (decode_will_payload list_io)
  unfolding decode_will_payload
  decode_will_payload-Parses p = bind-Parses (u16-Parses p) (slice-Parses p)

  when-Parses : {A : Type 0} (b : Bool) {m : Parser A} → Parses P m → Parses P (when b m)
  when-Parses true h = bind-Parses h (λ a. pure-Parses (some a))
  when-Parses false h = pure-Parses none

  ruleset reads = (
    bind-Parses, pure-Parses, if-Parses, when-Parses, refuse_if-Parses, qos_or-Parses, u8-Parses,
    u16-Parses, slice-Parses, text, secret, decode_will_payload-Parses,
  )

  decode_connect-Parses : P → Parses P (decode_connect list_io)
  unfolding decode_connect
  decode_connect-Parses p = search reads depth 30

  left : Parses P (bytes_left list_io)
  left = record { at = λ bytes. Takes.takes [] refl (omega arith) }

  packet_id-Parses :
      P
      → (qos : QoS)
      → Parses P {A = Option ℕ}
          (elim qos [ at_most_once ↦ pure none | _ ↦ (front_u16 panic >>= λ n. pure (some n)) ])
  packet_id-Parses p at_most_once = search reads depth 10
  packet_id-Parses p at_least_once = search reads depth 10
  packet_id-Parses p exactly_once = search reads depth 10

  decode_publish-Parses : P → (flags : ℕ) → Parses P (decode_publish list_io flags)
  unfolding decode_publish
  decode_publish-Parses p flags = bind-Parses text λ topic.
      bind-Parses (qos_or-Parses (invalid_packet_type flags) (bit_and (flags / 2) 0x03)) λ qos.
        bind-Parses (packet_id-Parses p qos) λ packet_id. bind-Parses left λ payload_len.
          bind-Parses (slice-Parses p payload_len) λ payload. pure-Parses (record {
            topic = topic;
            packet_id = packet_id;
            payload = payload;
            qos = qos;
            retain = has_bit flags 0x01;
            dup = has_bit flags 0x08;
          })

  -- A round takes two bytes or more, so that the fuel lasts.
  subscribe_loop-Takes :
      P
      → (fuel : ℕ) (read : List (Bytes × QoS)) (bytes : Bytes) → length bytes < fuel
      → Takes P 0 bytes (subscribe_loop list_io fuel read bytes)
  unfolding subscribe_loop
  subscribe_loop-Takes p zero read bytes enough = absurd (omega arith)
  subscribe_loop-Takes p (suc fuel) read bytes enough = elim (Bool-cases (ltb 0 (length bytes))) [
    | inr done ↦ rw done ((pure-Parses read).at bytes)
    | inl more ↦ rw more (
        weaken 2 (
          bind-Takes (decode_string list_io) _ 2 bytes (decode_string-Takes bytes) (λ topic rest h.
            bind-Takes (front_u8 panic) _ 0 rest ((u8-Parses p).at rest) (λ qos_byte rest' h'.
              bind-Takes (qos_or (invalid_packet_type qos_byte) qos_byte) _ 0 rest'
                ((qos_or-Parses (invalid_packet_type qos_byte) qos_byte).at rest')
                (λ qos rest'' h''.
                  subscribe_loop-Takes p fuel (read ++ (topic, qos) ∷ []) rest'' (omega arith))))))
  ]

  unsubscribe_loop-Takes :
      (fuel : ℕ) (read : List Bytes) (bytes : Bytes)
      → length bytes < fuel
      → Takes P 0 bytes (unsubscribe_loop list_io fuel read bytes)
  unfolding unsubscribe_loop
  unsubscribe_loop-Takes zero read bytes enough = absurd (omega arith)
  unsubscribe_loop-Takes (suc fuel) read bytes enough = elim (Bool-cases (ltb 0 (length bytes))) [
    | inr done ↦ rw done ((pure-Parses read).at bytes)
    | inl more ↦ rw more (
        weaken 2 (
          bind-Takes (decode_string list_io) _ 2 bytes (decode_string-Takes bytes)
            (λ topic rest h. unsubscribe_loop-Takes fuel (read ++ topic ∷ []) rest (omega arith))))
  ]

  decode_subscribe-Parses : P → Parses P (decode_subscribe list_io)
  unfolding decode_subscribe
  decode_subscribe-Parses p = bind-Parses (u16-Parses p) λ packet_id. record {
    at = λ bytes.
        bind-Takes (subscribe_loop list_io (suc (length bytes)) []) _ 0 bytes
          (subscribe_loop-Takes p (suc (length bytes)) [] bytes (omega arith))
          (λ fs rest _. (pure-Parses _).at rest);
  }

  decode_unsubscribe-Parses : P → Parses P (decode_unsubscribe list_io)
  unfolding decode_unsubscribe
  decode_unsubscribe-Parses p = bind-Parses (u16-Parses p) λ packet_id. record {
    at = λ bytes.
        bind-Takes (unsubscribe_loop list_io (suc (length bytes)) []) _ 0 bytes
          (unsubscribe_loop-Takes (suc (length bytes)) [] bytes (omega arith))
          (λ fs rest _. (pure-Parses _).at rest);
  }

  -- The body of an acknowledgement is as long as the remaining length, which is compared with 2.
  decode_ack-Takes :
      (t : PacketType) (make : ℕ → Packet) (n : ℕ) (body : Bytes)
      → length body ≡ n
      → Takes P 0 body (decode_ack list_io t n make body)
  decode_ack-Takes t make n body e = elim (Bool-cases (n == 2)) [
    | inl two ↦ rw two (
        weaken 2 (
          bind-Takes (front_u16 panic) _ 2 body
            (u16-Takes_checked body (omega (arith, (nat_beq_iff n 2).0 two)))
            (λ id rest _. (pure-Parses (make id)).at rest)))
    | inr other ↦ rw (other, ◌>>=◌) Takes.refuses
  ]

-- The packets in whose body a number or a slice is read without a test of what is left.
abbrev pub IsOpen : ℕ → Type 0
IsOpen n = (n ≡ 1) ⊎ (n ≡ 3) ⊎ (n ≡ 8) ⊎ (n ≡ 10)

pub decode_body-Takes :
    (t : PacketType) (flags n : ℕ) (body : Bytes)
    → length body ≡ n
    → Takes (IsOpen (packet_type_as_u8 t)) 0 body (decode_body list_io t flags n body)
unfolding decode_body
decode_body-Takes PacketType.connect flags n body e =
    (bind-Parses (decode_connect-Parses (inl refl)) (λ p. pure-Parses _)).at body
decode_body-Takes PacketType.publish flags n body e =
    (bind-Parses (decode_publish-Parses (inr (inl refl)) flags) (λ p. pure-Parses _)).at body
decode_body-Takes PacketType.subscribe flags n body e =
    (bind-Parses (decode_subscribe-Parses (inr (inr (inl refl)))) (λ p. pure-Parses _)).at body
decode_body-Takes PacketType.unsubscribe flags n body e =
    (bind-Parses (decode_unsubscribe-Parses (inr (inr (inr refl)))) (λ p. pure-Parses _)).at body
decode_body-Takes PacketType.pub_ack flags n body e =
    decode_ack-Takes PacketType.pub_ack Packet.pub_ack n body e
decode_body-Takes PacketType.pub_rec flags n body e =
    decode_ack-Takes PacketType.pub_rec Packet.pub_rec n body e
decode_body-Takes PacketType.pub_comp flags n body e =
    decode_ack-Takes PacketType.pub_comp Packet.pub_comp n body e
decode_body-Takes PacketType.pub_rel flags n body e = elim (Bool-cases (flags == 0x02)) [
  | inl right ↦ rw right (decode_ack-Takes PacketType.pub_rel Packet.pub_rel n body e)
  | inr wrong ↦ rw (wrong, ◌>>=◌) Takes.refuses
]
decode_body-Takes PacketType.ping_req flags n body e = (pure-Parses _).at body
decode_body-Takes PacketType.disconnect flags n body e = (pure-Parses _).at body
decode_body-Takes PacketType.conn_ack flags n body e = Takes.refuses
decode_body-Takes PacketType.sub_ack flags n body e = Takes.refuses
decode_body-Takes PacketType.unsub_ack flags n body e = Takes.refuses
decode_body-Takes PacketType.ping_resp flags n body e = Takes.refuses
