-- ===== src/Protocol/Length/Bounds.antt =====
-- What `decode_remaining_length_async` reads, takes and refuses.
use iotd.Prelude.{
  ℕ, suc, Bytes, ◌+◌, ◌*◌, ◌%◌, ◌^◌, ◌<◌, ◌≤◌, ◌≡◌, refl, ◌⊎◌, [], ◌∷◌, length, arith, ltb,
  if◌then◌else◌, All,
}
use iotd.Protocol.Result.{Result, ok, err, panic, stuck, io, invalid_remaining_length}
use iotd.Protocol.Io.{Io, IsIo, list_io, for_every_io}
use iotd.Protocol.Bits.{bit_and-0x7f, bit_and-0x80}
use iotd.Protocol.Decode.{length_loop, decode_remaining_length}
use iotd.Protocol.Length.{sum_with}

-- One round on any byte.
length_loop-byte :
    (fuel m v c b : ℕ) (rest : Bytes)
    → b < 256
    → c < 4
    → length_loop list_io (suc fuel) m v c (b ∷ rest) ≡ (
        if ltb b 128
        then ok (sum_with v b m, rest)
        else length_loop list_io fuel (m * 128 % 2 ^ 32) (sum_with v b m) (c + 1) rest)
unfolding length_loop
length_loop-byte fuel m v c b rest hb hc = ground (arith, bit_and-0x7f b, bit_and-0x80 b)

abbrev pub IsByte : ℕ → Type 0
IsByte b = b < 256

abbrev pub Bounds : ℕ → ℕ → Bytes → Result (ℕ × Bytes) → Type 0
Bounds fewest most bytes (ok (n, rest)) =
    (n < 2 ^ 28) × (length rest + fewest ≤ length bytes) × (length bytes ≤ length rest + most)
Bounds fewest most bytes (err e) =
    ((e ≡ io) × (length bytes < most)) ⊎ ((e ≡ invalid_remaining_length) × (most ≤ length bytes))
Bounds fewest most bytes panic = ⊥
Bounds fewest most bytes stuck = ⊥

length_loop-end :
    (m v : ℕ) (bytes : Bytes) → length_loop list_io 1 m v 4 bytes ≡ err invalid_remaining_length
unfolding length_loop
length_loop-end m v bytes = refl

length_loop-nil : (fuel m v c : ℕ) → c < 4 → length_loop list_io (suc fuel) m v c [] ≡ err io
unfolding length_loop
length_loop-nil fuel m v c h = ground arith

Bounds-four :
    (v : ℕ) (bytes : Bytes)
    → v < 2 ^ 21
    → All IsByte bytes
    → Bounds 1 1 bytes (length_loop list_io 2 (2 ^ 21) v 3 bytes)
Bounds-four v [] hv h = ground (arith, length_loop-nil 1 (2 ^ 21) v 3)
Bounds-four v (b ∷ rest) hv h = ground (
  arith,
  length_loop-byte 1 (2 ^ 21) v 3 b rest,
  length_loop-end (2 ^ 28) (sum_with v b (2 ^ 21)) rest,
)

Bounds-three :
    (v : ℕ) (bytes : Bytes)
    → v < 2 ^ 14
    → All IsByte bytes
    → Bounds 1 2 bytes (length_loop list_io 3 (2 ^ 14) v 2 bytes)
Bounds-three v [] hv h = ground (arith, length_loop-nil 2 (2 ^ 14) v 2)
Bounds-three v (b ∷ rest) hv h =
    ground (arith, length_loop-byte 2 (2 ^ 14) v 2 b rest, Bounds-four (sum_with v b (2 ^ 14)) rest)

Bounds-two :
    (v : ℕ) (bytes : Bytes)
    → v < 2 ^ 7
    → All IsByte bytes
    → Bounds 1 3 bytes (length_loop list_io 4 (2 ^ 7) v 1 bytes)
Bounds-two v [] hv h = ground (arith, length_loop-nil 3 (2 ^ 7) v 1)
Bounds-two v (b ∷ rest) hv h =
    ground (arith, length_loop-byte 3 (2 ^ 7) v 1 b rest, Bounds-three (sum_with v b (2 ^ 7)) rest)

Bounds-one :
    (bytes : Bytes) → All IsByte bytes → Bounds 1 4 bytes (length_loop list_io 5 1 0 0 bytes)
Bounds-one [] h = ground (arith, length_loop-nil 4 1 0 0)
Bounds-one (b ∷ rest) h =
    ground (arith, length_loop-byte 4 1 0 0 b rest, Bounds-two (sum_with 0 b 1) rest)

pub list_io-Bounds :
    (bytes : Bytes) → All IsByte bytes → Bounds 1 4 bytes (decode_remaining_length list_io bytes)
unfolding decode_remaining_length
list_io-Bounds = Bounds-one

-- On any stream of bytes `decode_remaining_length_async` ends. If it returns a length, that is below
-- 2 ^ 28 and took one to four bytes; else the stream ended before the fourth byte (an I/O error), or
-- four bytes or more were there and it reports `InvalidRemainingLength`.
pub decode_remaining_length-Bounds :
    (i : Io)
    → IsIo i
    → (bytes : Bytes) → All IsByte bytes
    → Bounds 1 4 bytes (decode_remaining_length i bytes)
decode_remaining_length-Bounds =
    for_every_io
      (λ i. (bytes : Bytes) → All IsByte bytes → Bounds 1 4 bytes (decode_remaining_length i bytes))
      list_io-Bounds
