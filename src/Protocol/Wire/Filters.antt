-- ===== src/Protocol/Wire/Filters.antt =====
-- `decode_subscribe` and `decode_unsubscribe` of src/protocol/packet.rs on the bodies of the requests.
use iotd.Prelude.{
  ltb, true, suc, zero, ℕ, Bytes, ◌<◌, ◌≡◌, refl, ◌∙◌, List, [], ◌∷◌, ◌++◌, append-nil,
  append_assoc, length, length-append, All, arith,
}
use iotd.Protocol.Result.{ok, ◌>>=◌}
use iotd.Protocol.Io.{list_io}
use iotd.Protocol.Packet.{QoS, qos_as_u8, SubscribePacket, UnsubscribePacket}
use iotd.Protocol.Decode.{subscribe_loop, decode_subscribe, unsubscribe_loop, decode_unsubscribe}
use iotd.Protocol.RoundTrip.{u16_code, IsText, u16-eq, decode_string-append}
use iotd.Protocol.RoundTrip.Publish.{read_qos}
use iotd.Protocol.Wire.{subscribe_fields, unsubscribe_fields}

some_left : (n : ℕ) → ltb 0 (suc n) ≡ true
some_left n = ground arith

subscribe_loop-fields :
    (fs : List (Bytes × QoS)) (fuel : ℕ) (read : List (Bytes × QoS))
    → All (λ f. IsText f.0) fs
    → length (subscribe_fields fs) < fuel
    → subscribe_loop list_io fuel read (subscribe_fields fs) ≡ ok (read ++ fs, [])
unfolding subscribe_loop
subscribe_loop-fields fs zero read h enough = absurd (omega arith)
subscribe_loop-fields [] (suc fuel) read h enough = rw append-nil refl
subscribe_loop-fields ((filter, qos) ∷ fs) (suc fuel) read (text, h) enough =
    rw (some_left (suc (length (filter ++ qos_as_u8 qos ∷ subscribe_fields fs)))) (
      rw (decode_string-append filter (qos_as_u8 qos ∷ subscribe_fields fs) text, ◌>>=◌)
        (rw (read_qos _ qos (qos_as_u8 qos) (subscribe_fields fs) refl, ◌>>=◌)
          (subscribe_loop-fields fs fuel (read ++ (filter, qos) ∷ []) h
              (omega (arith, length-append filter (qos_as_u8 qos ∷ subscribe_fields fs)))
            ∙ rw append_assoc refl)))

unsubscribe_loop-fields :
    (fs : List Bytes) (fuel : ℕ) (read : List Bytes)
    → All IsText fs
    → length (unsubscribe_fields fs) < fuel
    → unsubscribe_loop list_io fuel read (unsubscribe_fields fs) ≡ ok (read ++ fs, [])
unfolding unsubscribe_loop
unsubscribe_loop-fields fs zero read h enough = absurd (omega arith)
unsubscribe_loop-fields [] (suc fuel) read h enough = rw append-nil refl
unsubscribe_loop-fields (filter ∷ fs) (suc fuel) read (text, h) enough =
    rw (some_left (suc (length (filter ++ unsubscribe_fields fs)))) (
      rw (decode_string-append filter (unsubscribe_fields fs) text, ◌>>=◌)
        (unsubscribe_loop-fields fs fuel (read ++ filter ∷ []) h
            (omega (arith, length-append filter (unsubscribe_fields fs)))
          ∙ rw append_assoc refl))

pub decode_subscribe-fields :
    (p : SubscribePacket)
    → All (λ f. IsText f.0) p.topic_filters
    → decode_subscribe list_io (u16_code p.packet_id ++ subscribe_fields p.topic_filters)
      ≡ ok (p, [])
unfolding decode_subscribe
decode_subscribe-fields p h = rw u16-eq (
    rw
      (
        subscribe_loop-fields p.topic_filters (suc (length (subscribe_fields p.topic_filters))) [] h
            (omega arith),
        ◌>>=◌,
      )
      refl)

pub decode_unsubscribe-fields :
    (p : UnsubscribePacket)
    → All IsText p.topic_filters
    → decode_unsubscribe list_io (u16_code p.packet_id ++ unsubscribe_fields p.topic_filters)
      ≡ ok (p, [])
unfolding decode_unsubscribe
decode_unsubscribe-fields p h = rw u16-eq (
    rw
      (
        unsubscribe_loop-fields p.topic_filters (suc (length (unsubscribe_fields p.topic_filters)))
            [] h (omega arith),
        ◌>>=◌,
      )
      refl)
