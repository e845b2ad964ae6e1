-- ===== src/Protocol/Text.antt =====
-- `String::from_utf8` of the standard library, as the test that the bytes are well-formed UTF-8.
use iotd.Prelude.{ℕ, zero, suc, Bytes, Bool, true, false, [], ◌∷◌, ◌&&◌, leb, ltb, if◌then◌else◌}

-- The bytes that a lead byte asks for, and the range of the first of them.
record Lead : Type 0 where
  more : ℕ
  low : ℕ
  high : ℕ

abbrev within : ℕ → ℕ → ℕ → Bool
within lo hi b = leb lo b && leb b hi

-- `more` is 0 for an ASCII byte; what cannot lead a character asks for a byte in an empty range.
lead : ℕ → Lead
lead b =
    if ltb b 0x80
    then record { more = 0; low = 0; high = 0 }
    else if within 0xc2 0xdf b
    then record { more = 1; low = 0x80; high = 0xbf }
    else if within 0xe0 0xe0 b
    then record { more = 2; low = 0xa0; high = 0xbf }
    else if within 0xed 0xed b
    then record { more = 2; low = 0x80; high = 0x9f }
    else if within 0xe1 0xef b
    then record { more = 2; low = 0x80; high = 0xbf }
    else if within 0xf0 0xf0 b
    then record { more = 3; low = 0x90; high = 0xbf }
    else if within 0xf1 0xf3 b
    then record { more = 3; low = 0x80; high = 0xbf }
    else if within 0xf4 0xf4 b
    then record { more = 3; low = 0x80; high = 0x8f }
    else record { more = 1; low = 1; high = 0 }

-- The state is the number of bytes that the current character still lacks.
utf8_from : ℕ → ℕ → ℕ → Bytes → Bool
utf8_from zero low high [] = true
utf8_from (suc n) low high [] = false
utf8_from zero low high (b ∷ rest) =
    let first = lead b in utf8_from first.more first.low first.high rest
utf8_from (suc n) low high (b ∷ rest) = within low high b && utf8_from n 0x80 0xbf rest

unfoldable pub is_utf8 : Bytes → Bool
unfolding utf8_from lead
is_utf8 = utf8_from 0 0 0
