-- ===== src/Protocol/RoundTrip.antt =====
-- `Packet::decode` against `Packet::encode`: the pieces that all packets share.
pub mod Publish
pub mod Packets
use iotd.Prelude.{
  ℕ, suc, Bytes, ◌+◌, ◌*◌, ◌/◌, ◌%◌, ◌^◌, ◌<◌, ◌≤◌, bit_and, ◌≡◌, refl, sym, ◌∙◌, ap, Bool, true,
  false, [], ◌∷◌, ◌++◌, append_assoc, append-nil, length, length-append, take, drop, take_append,
  drop_append, Option, none, some, arith, Option-cases, inl, inr, ltb, leb, if◌then◌else◌,
}
use iotd.Protocol.Result.{
  PacketError, Result, ok, err, panic, stuck, io, pure, ◌>>=◌, ◌>>◌, bind-ok, bind-step,
}
use iotd.Protocol.Io.{Io, IsIo, list_io, for_every_io, front_slice}
use iotd.Protocol.Text.{is_utf8}
use iotd.Protocol.Packet.{
  QoS, qos_as_u8, PublishPacket, PacketType, Packet, at_most_once, at_least_once, exactly_once,
}
use iotd.Protocol.Length.{length_code, encode_remaining_length-append, decode-length_code}
use iotd.Protocol.Decode.{
  decode_remaining_length, qos_or, has_bit, decode_string, decode_publish, decode_body, on_cursor,
  packet_type_try_from, decode,
}
use iotd.Protocol.Encode.{
  encode_remaining_length, encode_string, publish_length, publish_flags, put_packet_id,
  encode_publish, encode,
}

pub front_slice-append :
    (short : Result (Bytes × Bytes)) (n : ℕ) (a rest : Bytes)
    → length a ≡ n
    → front_slice short n (a ++ rest) ≡ ok (a, rest)
unfolding front_slice
front_slice-append short n a rest h =
    ground (arith, length-append a rest, take_append a rest, drop_append a rest)

pub front_slice_self :
    (short : Result (Bytes × Bytes)) (n : ℕ) (a : Bytes)
    → length a ≡ n
    → front_slice short n a ≡ ok (a, [])
front_slice_self short n a h =
    ap (front_slice short n) (sym (append-nil a)) ∙ front_slice-append short n a [] h

abbrev pub u16_code : ℕ → Bytes
u16_code n = (n / 256) ∷ (n % 256) ∷ []

-- What a string of the protocol may hold.
abbrev pub IsText : Bytes → Type 0
IsText s = (length s < 2 ^ 16) × (is_utf8 s ≡ true)

pub u16-eq : (n : ℕ) → n / 256 * 256 + n % 256 ≡ n
u16-eq n = omega arith

pub no_less : (n k : ℕ) → n ≤ k → ltb k n ≡ false
no_less n k h = ground arith

pub decode_string-append :
    (s rest : Bytes)
    → IsText s
    → decode_string list_io (u16_code (length s) ++ (s ++ rest)) ≡ ok (s, rest)
unfolding decode_string
decode_string-append s rest h =
    rw
      (
        no_less 2 (length (u16_code (length s) ++ (s ++ rest))) (omega arith),
        u16-eq,
        no_less (length s) (length (s ++ rest)) (omega (arith, length-append s rest)),
      )
      (rw (front_slice-append panic (length s) s rest refl, ◌>>=◌) (rw h.1))

pub encode_string-append :
    (s buf : Bytes)
    → length s < 2 ^ 16
    → encode_string list_io s buf ≡ buf ++ (u16_code (length s) ++ s)
unfolding encode_string
encode_string-append s buf h = ground (arith, append_assoc buf (u16_code (length s)) s)

-- A packet behind its fixed header, with whatever the stream holds next.
pub decode_frame :
    (first n : ℕ) (body rest : Bytes) (t : PacketType) {packet : Packet} {unread : Bytes}
    → packet_type_try_from (bit_and (first / 16) 0x0f) ≡ pure t
    → n < 2 ^ 28
    → length body ≡ n
    → decode_body list_io t (bit_and first 0x0f) n body ≡ ok (packet, unread)
    → decode list_io (first ∷ (length_code n ++ (body ++ rest))) ≡ ok (packet, rest)
unfolding decode
decode_frame first n body rest t known small exact read =
    rw (known, ◌>>=◌)
      (rw (decode-length_code n (body ++ rest) small, ◌>>=◌)
        (rw (front_slice-append (err io) n body rest exact, ◌>>=◌) (rw (read, on_cursor))))
