-- ===== src/Protocol/Tests.antt =====
-- The codec at concrete packets: the properties applied, and runs that can be followed in the source.
use iotd.Prelude.{Bytes, ◌≡◌, refl, true, false, some, [], ◌∷◌, ◌++◌, inl, arith}
use iotd.Protocol.Result.{ok, panic}
use iotd.Protocol.Panic.{decode-panic}
use iotd.Protocol.Io.{list_io, list_io-IsIo}
use iotd.Protocol.Text.{is_utf8}
use iotd.Protocol.Packet.{ascii, PublishPacket, publish, at_least_once}
use iotd.Protocol.Decode.{decode_remaining_length, decode}
use iotd.Protocol.Encode.{
  encode_remaining_length, length_bytes, encode_string, publish_flags, publish_length,
  encode_publish, encode,
}
use iotd.Protocol.Length.Bounds.{Bounds, decode_remaining_length-Bounds}
use iotd.Protocol.RoundTrip.Packets.{decode-encode}
use iotd.Protocol.Wire.{ConnectRequest, Request, packet_of, connect_flags, body, connect_body}
use iotd.Protocol.Ends.{Takes}
use iotd.Protocol.Ends.Whole.{OpensWith, decode-Takes}
use iotd.Protocol.Wire.Requests.{wire, decode-wire}

abbrev reading : PublishPacket
reading = record {
  topic = ascii "a/b";
  packet_id = some 7;
  payload = ascii "21C";
  qos = at_least_once;
  retain = true;
  dup = false;
}

encode-reading :
    encode list_io (publish reading) []
    ≡ 0x33 ∷ 10 ∷ 0 ∷ 3 ∷ b'a' ∷ b'/' ∷ b'b' ∷ 0 ∷ 7 ∷ b'2' ∷ b'1' ∷ b'C' ∷ []
unfolding encode encode_publish publish_flags publish_length encode_remaining_length length_bytes
    encode_string
encode-reading = refl

decode-encode_example :
    (written : Bytes) × (encode list_io (publish reading) [] ≡ [] ++ written)
    × (decode list_io (written ++ 0xc0 ∷ 0 ∷ []) ≡ ok (publish reading, 0xc0 ∷ 0 ∷ []))
unfolding is_utf8 publish_length
decode-encode_example =
    decode-encode list_io list_io-IsIo (publish reading) [] (0xc0 ∷ 0 ∷ [])
      (record { topic_text = (omega arith, refl); id_iff_qos = omega arith; fits = omega arith })

decode_remaining_length-Bounds_example :
    Bounds 1 4
      (0xff ∷ 0xff ∷ 0xff ∷ 0xff ∷ 1 ∷ [])
      (decode_remaining_length list_io (0xff ∷ 0xff ∷ 0xff ∷ 0xff ∷ 1 ∷ []))
decode_remaining_length-Bounds_example =
    decode_remaining_length-Bounds list_io list_io-IsIo (0xff ∷ 0xff ∷ 0xff ∷ 0xff ∷ 1 ∷ [])
      (omega arith)

-- The two bytes 0x82 0x00 of a client, before any CONNECT.
decode-panic_example : decode list_io (0x82 ∷ 0 ∷ []) ≡ panic
decode-panic_example = decode-panic list_io list_io-IsIo 0x82 [] [] (omega arith) (inl refl)

abbrev greeting : ConnectRequest
greeting = record {
  protocol_name = ascii "MQTT";
  protocol_level = 4;
  clean_session = true;
  keep_alive = 60;
  client_id = ascii "c";
  will =
      some (record { topic = ascii "w"; payload = ascii "!"; qos = at_least_once; retain = true });
  login = some (record { username = ascii "u"; password = some (ascii "p") });
}

body-greeting :
    body (Request.connect greeting)
    ≡ 0 ∷ 4 ∷ b'M' ∷ b'Q' ∷ b'T' ∷ b'T' ∷ 4 ∷ 0xee ∷ 0 ∷ 60 ∷ 0 ∷ 1 ∷ b'c' ∷ 0 ∷ 1 ∷ b'w' ∷ 0 ∷ 1
      ∷ b'!' ∷ 0 ∷ 1 ∷ b'u' ∷ 0 ∷ 1 ∷ b'p' ∷ []
unfolding body connect_body connect_flags
body-greeting = refl

decode-wire_example :
    decode list_io (wire (Request.connect greeting) ++ 0xc0 ∷ 0 ∷ [])
    ≡ ok (packet_of (Request.connect greeting), 0xc0 ∷ 0 ∷ [])
unfolding is_utf8 body connect_body
decode-wire_example = decode-wire list_io list_io-IsIo (Request.connect greeting) (0xc0 ∷ 0 ∷ []) (
  record {
    name_text = (omega arith, refl);
    level_byte = omega arith;
    keep_alive_word = omega arith;
    id_text = (omega arith, refl);
    will_texts = ((omega arith, refl), omega arith);
    login_texts = ((omega arith, refl), omega arith);
  },
  omega arith,
)

-- A PINGREQ with one byte behind it.
decode-Takes_example :
    Takes (OpensWith (0xc0 ∷ 0 ∷ 7 ∷ [])) 1 (0xc0 ∷ 0 ∷ 7 ∷ []) (decode list_io (0xc0 ∷ 0 ∷ 7 ∷ []))
decode-Takes_example = decode-Takes list_io list_io-IsIo (0xc0 ∷ 0 ∷ 7 ∷ [])
