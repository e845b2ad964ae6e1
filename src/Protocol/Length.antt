-- ===== src/Protocol/Length.antt =====
-- The remaining length: `encode_remaining_length` against `decode_remaining_length_async`.
pub mod Bounds
use iotd.Prelude.{
  ℕ, zero, suc, Bytes, ◌+◌, ◌*◌, ◌/◌, ◌%◌, ◌^◌, ◌<◌, ◌≤◌, bit_and, bit_or, ◌≡◌, refl, sym, ◌∙◌, ap,
  [], ◌∷◌, ◌++◌, append_assoc, append-nil, length, length-append, arith, ltb, leb, ◌==◌, nat_eq,
  if◌then◌else◌, Bool-cases, inl, inr, All, ◌⊎◌,
}
use iotd.Protocol.Result.{Result, ok, err, panic, stuck, io, invalid_remaining_length}
use iotd.Protocol.Io.{Io, IsIo, list_io, for_every_io}
use iotd.Protocol.Bits.{bit_and-0x7f, bit_and-0x80, bit_or-0x80}
use iotd.Protocol.Decode.{length_loop, decode_remaining_length}
use iotd.Protocol.Encode.{length_bytes, encode_remaining_length}

-- One group of seven bits, with the continuation bit while more follow.
abbrev group : ℕ → ℕ
group n = if ltb 0 (n / 128) then n % 128 + 128 else n % 128

length_bytes_step :
    (fuel n : ℕ) (buf : Bytes)
    → length_bytes list_io (suc fuel) n buf ≡ (
        if n / 128 == 0
        then buf ++ group n ∷ []
        else length_bytes list_io fuel (n / 128) (buf ++ group n ∷ []))
unfolding length_bytes
length_bytes_step fuel n buf = rw (bit_or-0x80 (n % 128) (omega arith))

group-0x7f : (n : ℕ) → bit_and (group n) 0x7f ≡ n % 128
group-0x7f n = ground (arith, bit_and-0x7f (group n))

group-0x80 : (n : ℕ) → (bit_and (group n) 0x80 == 0) ≡ (n / 128 == 0)
group-0x80 n = ground (arith, bit_and-0x80 (group n))

-- What a round of the loop has added up.
abbrev sum_with : ℕ → ℕ → ℕ → ℕ
sum_with v n m = (v + n % 128 * m % 2 ^ 32) % 2 ^ 32

length_loop_step :
    (fuel m v c n : ℕ) (rest : Bytes)
    → c < 4
    → length_loop list_io (suc fuel) m v c (group n ∷ rest) ≡ (
        if n / 128 == 0
        then ok (sum_with v n m, rest)
        else length_loop list_io fuel (m * 128 % 2 ^ 32) (sum_with v n m) (c + 1) rest)
unfolding length_loop
length_loop_step fuel m v c n rest h = ground (arith, group-0x7f n, group-0x80 n)

-- The encoder appends: a buffer that is not empty stays in front.
length_bytes-append :
    (fuel n : ℕ) (buf : Bytes)
    → length_bytes list_io fuel n buf ≡ buf ++ length_bytes list_io fuel n []
length_bytes-append zero n buf = unfold length_bytes in sym (append-nil buf)
length_bytes-append (suc fuel) n buf = elim (Bool-cases (n / 128 == 0)) [
  | inl last ↦ rw (length_bytes_step, last) (rw (length_bytes_step, last))
  | inr more ↦
      rw (length_bytes_step, more)
        (rw (length_bytes_step fuel n [], more)
          (cc (
            length_bytes-append fuel (n / 128) (buf ++ group n ∷ []),
            length_bytes-append fuel (n / 128) (group n ∷ []),
            append_assoc buf (group n ∷ []) (length_bytes list_io fuel (n / 128) []),
          )))
]

abbrev digits : ℕ → ℕ → Bytes
digits fuel n = length_bytes list_io fuel n []

digits_step :
    (fuel n : ℕ)
    → digits (suc fuel) n ≡ group n ∷ (if n / 128 == 0 then [] else digits fuel (n / 128))
digits_step fuel n =
    ground (arith, length_bytes_step fuel n [], length_bytes-append fuel (n / 128) (group n ∷ []))

-- The four rounds of the decoder on what the encoder wrote, the last one first.
round_four :
    (n v : ℕ) (rest : Bytes)
    → v < 2 ^ 21
    → n < 2 ^ 7
    → length_loop list_io 2 (2 ^ 21) v 3 (digits 2 n ++ rest) ≡ ok (v + n * 2 ^ 21, rest)
round_four n v rest hv hn = ground (arith, digits_step 1 n, length_loop_step 1 (2 ^ 21) v 3 n rest)

round_three :
    (n v : ℕ) (rest : Bytes)
    → v < 2 ^ 14
    → n < 2 ^ 14
    → length_loop list_io 3 (2 ^ 14) v 2 (digits 3 n ++ rest) ≡ ok (v + n * 2 ^ 14, rest)
round_three n v rest hv hn = ground (
  arith,
  digits_step 2 n,
  length_loop_step 2 (2 ^ 14) v 2 n rest,
  length_loop_step 2 (2 ^ 14) v 2 n (digits 2 (n / 128) ++ rest),
  round_four (n / 128) (v + n % 128 * 2 ^ 14) rest,
)

round_two :
    (n v : ℕ) (rest : Bytes)
    → v < 2 ^ 7
    → n < 2 ^ 21
    → length_loop list_io 4 (2 ^ 7) v 1 (digits 4 n ++ rest) ≡ ok (v + n * 2 ^ 7, rest)
round_two n v rest hv hn = ground (
  arith,
  digits_step 3 n,
  length_loop_step 3 (2 ^ 7) v 1 n rest,
  length_loop_step 3 (2 ^ 7) v 1 n (digits 3 (n / 128) ++ rest),
  round_three (n / 128) (v + n % 128 * 2 ^ 7) rest,
)

round_one :
    (n : ℕ) (rest : Bytes)
    → n < 2 ^ 28
    → length_loop list_io 5 1 0 0 (digits 5 n ++ rest) ≡ ok (n, rest)
round_one n rest hn = ground (
  arith,
  digits_step 4 n,
  length_loop_step 4 1 0 0 n rest,
  length_loop_step 4 1 0 0 n (digits 4 (n / 128) ++ rest),
  round_two (n / 128) (n % 128) rest,
)

-- The bytes that `encode_remaining_length` appends.
abbrev pub length_code : ℕ → Bytes
length_code n = encode_remaining_length list_io n []

pub encode_remaining_length-append :
    (n : ℕ) (buf : Bytes) → encode_remaining_length list_io n buf ≡ buf ++ length_code n
unfolding encode_remaining_length
encode_remaining_length-append = length_bytes-append 5

pub decode-length_code :
    (n : ℕ) (rest : Bytes)
    → n < 2 ^ 28
    → decode_remaining_length list_io (length_code n ++ rest) ≡ ok (n, rest)
unfolding decode_remaining_length encode_remaining_length
decode-length_code = round_one

abbrev RoundTrips : Io → Type 0
RoundTrips i =
    (n : ℕ) (buf rest : Bytes)
    → n < 2 ^ 28
    → (written : Bytes) × (encode_remaining_length i n buf ≡ buf ++ written)
      × (decode_remaining_length i (written ++ rest) ≡ ok (n, rest))

-- For every remaining length below 2 ^ 28, `encode_remaining_length` appends bytes to the buffer
-- which `decode_remaining_length_async` reads back as that length, whatever follows them.
pub decode-encode_remaining_length :
    (i : Io)
    → IsIo i
    → (n : ℕ) (buf rest : Bytes) → n < 2 ^ 28
    → (written : Bytes) × (encode_remaining_length i n buf ≡ buf ++ written)
      × (decode_remaining_length i (written ++ rest) ≡ ok (n, rest))
decode-encode_remaining_length = for_every_io RoundTrips λ n buf rest h.
    (length_code n, encode_remaining_length-append n buf, decode-length_code n rest h)
