-- ===== src/Protocol/Panic.antt =====
-- `Packet::decode` where a SUBSCRIBE or an UNSUBSCRIBE ends before its packet id.
use iotd.Prelude.{ℕ, Bytes, ◌/◌, ◌<◌, bit_and, ◌≡◌, ◌⊎◌, inl, inr, [], ◌∷◌, ◌++◌, length, arith}
use iotd.Protocol.Result.{panic}
use iotd.Protocol.Io.{Io, IsIo, list_io, for_every_io, front_slice}
use iotd.Protocol.Decode.{
  packet_type_try_from, length_loop, decode_remaining_length, decode_subscribe, decode_unsubscribe,
  decode_body, decode,
}

decode-short_list :
    (first_byte : ℕ) (body rest : Bytes)
    → length body < 2
    → (bit_and (first_byte / 16) 0x0f ≡ 8) ⊎ (bit_and (first_byte / 16) 0x0f ≡ 10)
    → decode list_io (first_byte ∷ length body ∷ body ++ rest) ≡ panic
unfolding decode packet_type_try_from decode_remaining_length length_loop decode_body
    decode_subscribe decode_unsubscribe front_slice
decode-short_list f [] rest h (inl t) = rw t (ground arith)
decode-short_list f [] rest h (inr t) = rw t (ground arith)
decode-short_list f (b ∷ []) rest h (inl t) = rw t (ground arith)
decode-short_list f (b ∷ []) rest h (inr t) = rw t (ground arith)
decode-short_list f (a ∷ b ∷ body) rest h t = absurd (omega (arith, h))

-- A SUBSCRIBE or UNSUBSCRIBE whose body has fewer than the two bytes of its packet id makes `Packet::decode`
-- panic, whatever follows.
pub decode-panic :
    (i : Io)
    → IsIo i
    → (first_byte : ℕ) (body rest : Bytes) → length body < 2
    → (bit_and (first_byte / 16) 0x0f ≡ 8) ⊎ (bit_and (first_byte / 16) 0x0f ≡ 10)
    → decode i (first_byte ∷ length body ∷ body ++ rest) ≡ panic
decode-panic i law first_byte body rest short kind =
    for_every_io (λ j. decode j (first_byte ∷ length body ∷ body ++ rest) ≡ panic)
      (decode-short_list first_byte body rest short kind) i law
