-- ===== src/Protocol/Ends/Whole.antt =====
-- `Packet::decode` of src/protocol/packet.rs ends on every stream.
use iotd.Prelude.{
  ℕ, zero, suc, Bytes, ◌+◌, ◌≤◌, ◌/◌, bit_and, ◌≡◌, refl, sym, subst, false, [], ◌∷◌, length, take,
  drop, take-drop, length-take, ltb, leb, ◌==◌, nat_eq, Bool-cases, inl, inr, arith,
}
use iotd.Protocol.Result.{
  Result, ok, err, panic, stuck, io, Parser, ◌>>=◌, invalid_remaining_length,
}
use iotd.Protocol.Io.{Io, IsIo, list_io, for_every_io, front_slice}
use iotd.Protocol.Packet.{PacketType, packet_type_as_u8, Packet}
use iotd.Protocol.Decode.{
  packet_type_try_from, length_loop, decode_remaining_length, decode_body, on_cursor, decode,
}
use iotd.Protocol.Ends.{
  Takes, Parses, bind-Parses, bind-Takes, if-Parses, pure-Parses, fail-Parses, read_u8-Takes, join,
  weaken,
}
use iotd.Protocol.Ends.Bodies.{IsOpen, decode_body-Takes}

-- Before the fifth round a byte is read, and the fifth ends the loop.
length_loop-Parses :
    (P : Type 0) (fuel m v c : ℕ) → c + fuel ≡ 5 → c ≤ 4 → Parses P (length_loop list_io fuel m v c)
unfolding length_loop
length_loop-Parses P zero m v c e h = absurd (omega arith)
length_loop-Parses P (suc fuel) m v c e h = elim (Bool-cases (leb 4 c)) [
  | inl last ↦ rw last (fail-Parses invalid_remaining_length)
  | inr other ↦ rw other (
      bind-Parses (record { at = λ bytes. weaken 1 (read_u8-Takes bytes) })
        λ byte.
          if-Parses (bit_and byte 0x80 == 0) (pure-Parses _)
            (length_loop-Parses P fuel _ _ (c + 1) (omega arith) (more other)))
]
  where
    more : leb 4 c ≡ false → c + 1 ≤ 4
    more k = ground arith

-- The packet type that is found has the number that was looked for.
abbrev IsTyped : ℕ → Bytes → Result (PacketType × Bytes) → Type 0
IsTyped n bytes (ok (t, rest)) = (packet_type_as_u8 t ≡ n) × (rest ≡ bytes)
IsTyped n bytes (err e) = Unit
IsTyped n bytes panic = ⊥
IsTyped n bytes stuck = ⊥

try_from-IsTyped : (n : ℕ) (bytes : Bytes) → IsTyped n bytes (packet_type_try_from n bytes)
unfolding packet_type_try_from
try_from-IsTyped n bytes = ground arith

module _ {P : Type 0} where
  -- As many bytes as are asked for, or an I/O error.
  exact-Takes :
      {B : Type 0} (n : ℕ) (k : Bytes → Parser B) (bytes : Bytes)
      → ((body rest : Bytes) → length body ≡ n → Takes P 0 rest (k body rest))
      → Takes P 0 bytes ((front_slice (err io) n >>= k) bytes)
  unfolding front_slice
  exact-Takes n k bytes h = elim (Bool-cases (ltb (length bytes) n)) [
    | inl short ↦ rw (short, ◌>>=◌) Takes.refuses
    | inr enough ↦
        rw (enough, ◌>>=◌)
          (join 0 bytes (take n bytes) (drop n bytes) (sym (take-drop n bytes)) (omega arith)
            (h (take n bytes) (drop n bytes) (length-take n bytes (all enough))))
  ]
    where
      all : ltb (length bytes) n ≡ false → n ≤ length bytes
      all e = ground arith

  -- What the packet's own cursor leaves is dropped with it.
  cursor-Takes :
      (body rest : Bytes) (m : Parser Packet)
      → Takes P 0 body (m body)
      → Takes P 0 rest (on_cursor list_io body m rest)
  cursor-Takes body rest m h = read (m body) refl h
    where
      read :
          (r : Result (Packet × Bytes))
          → m body ≡ r
          → Takes P 0 body r
          → Takes P 0 rest (on_cursor list_io body m rest)
      read (ok (p, unread)) e x = rw (e, on_cursor) ((pure-Parses p).at rest)
      read (err y) e x = rw (e, on_cursor) Takes.refuses
      read panic e (Takes.panics p) = rw (e, on_cursor) (Takes.panics p)
      read stuck e x = elim x [ ]

abbrev framed : ℕ → PacketType → Parser Packet
framed flags t = do
  n ← decode_remaining_length list_io
  packet_data ← list_io.read_exact n
  on_cursor list_io packet_data (decode_body list_io t flags n)

framed-Takes :
    (flags : ℕ) (t : PacketType) (bytes : Bytes)
    → Takes (IsOpen (packet_type_as_u8 t)) 0 bytes (framed flags t bytes)
unfolding decode_remaining_length
framed-Takes flags t bytes =
    bind-Takes (decode_remaining_length list_io) _ 0 bytes
      ((length_loop-Parses _ 5 1 0 0 (omega arith) (omega arith)).at bytes)
      (λ n rest _. exact-Takes n _ rest (λ body rest' e.
        cursor-Takes body rest' (decode_body list_io t flags n)
          (decode_body-Takes t flags n body e)))

-- The first byte is that of a CONNECT, a PUBLISH, a SUBSCRIBE or an UNSUBSCRIBE.
abbrev pub OpensWith : Bytes → Type 0
OpensWith [] = ⊥
OpensWith (first_byte ∷ later) = IsOpen (bit_and (first_byte / 16) 0x0f)

list_io-Takes : (stream : Bytes) → Takes (OpensWith stream) 1 stream (decode list_io stream)
unfolding decode
list_io-Takes [] = Takes.refuses
list_io-Takes (b ∷ later) = join 1 (b ∷ later) (b ∷ []) later refl (omega arith) (
    typed (packet_type_try_from (bit_and (b / 16) 0x0f) later) refl
      (try_from-IsTyped (bit_and (b / 16) 0x0f) later))
  where
    typed :
        (r : Result (PacketType × Bytes))
        → packet_type_try_from (bit_and (b / 16) 0x0f) later ≡ r
        → IsTyped (bit_and (b / 16) 0x0f) later r
        → Takes
            (IsOpen (bit_and (b / 16) 0x0f))
            0
            later
            ((packet_type_try_from (bit_and (b / 16) 0x0f) >>= framed (bit_and b 0x0f)) later)
    typed (ok (t, rest)) e (number, same) =
        rw (e, ◌>>=◌)
          (subst (λ n. Takes (IsOpen n) 0 later (framed (bit_and b 0x0f) t rest)) number
            (subst (λ z. Takes (IsOpen (packet_type_as_u8 t)) 0 z (framed (bit_and b 0x0f) t rest))
              same (framed-Takes (bit_and b 0x0f) t rest)))
    typed (err x) e h = rw (e, ◌>>=◌) Takes.refuses
    typed panic e h = absurd h
    typed stuck e h = absurd h

-- On every stream `Packet::decode` ends: with a packet, for which it has taken a front of the stream, of
-- at least one byte, and leaves all that follows; with an error; or with a panic, which only a CONNECT, a
-- PUBLISH, a SUBSCRIBE or an UNSUBSCRIBE can cause.
pub decode-Takes :
    (i : Io) → IsIo i → (stream : Bytes) → Takes (OpensWith stream) 1 stream (decode i stream)
decode-Takes =
    for_every_io (λ i. (stream : Bytes) → Takes (OpensWith stream) 1 stream (decode i stream))
      list_io-Takes
