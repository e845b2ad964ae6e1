-- ===== src/Protocol/Bits.antt =====
-- What the masks of src/protocol/packet.rs do to a byte, by a table of all bytes.
use iotd.Prelude.{
  ℕ, zero, suc, ◌+◌, ◌%◌, ◌<◌, bit_and, bit_or, ◌≡◌, refl, Bool, true, false, not, ◌&&◌, arith, ltb,
  ◌==◌, nat_eq, nat_beq_iff,
}

-- A test on every byte value under a bound.
unfoldable pub every_below : (ℕ → Bool) → ℕ → Bool
every_below test zero = true
every_below test (suc bound) = every_below test bound && test bound

pub every_below_lem :
    (test : ℕ → Bool) (bound b : ℕ) → b < bound → every_below test bound ≡ true → test b ≡ true
unfolding every_below
every_below_lem test zero b less holds = absurd (omega arith)
every_below_lem test (suc bound) b less holds = ground (arith, every_below_lem test bound b)

unfoldable pub bool_beq : Bool → Bool → Bool
bool_beq true b = b
bool_beq false b = not b

pub bool_beq_sound : (a b : Bool) → bool_beq a b ≡ true → a ≡ b
unfolding bool_beq
bool_beq_sound true b = ground arith
bool_beq_sound false b = ground arith

table-0x7f : every_below (λ b. bit_and b 0x7f == b % 128) 256 ≡ true
unfolding every_below
table-0x7f = refl

table-0x80 : every_below (λ b. bool_beq (bit_and b 0x80 == 0) (ltb b 128)) 256 ≡ true
unfolding every_below bool_beq
table-0x80 = refl

table-or : every_below (λ b. bit_or b 0x80 == b + 128) 128 ≡ true
unfolding every_below
table-or = refl

pub bit_and-0x7f : (b : ℕ) → b < 256 → bit_and b 0x7f ≡ b % 128
bit_and-0x7f b h = (nat_beq_iff _ _).0 (every_below_lem _ 256 b h table-0x7f)

-- The continuation bit is clear exactly in the bytes below 128.
pub bit_and-0x80 : (b : ℕ) → b < 256 → (bit_and b 0x80 == 0) ≡ ltb b 128
bit_and-0x80 b h = bool_beq_sound _ _ (every_below_lem _ 256 b h table-0x80)

pub bit_or-0x80 : (b : ℕ) → b < 128 → bit_or b 0x80 ≡ b + 128
bit_or-0x80 b h = (nat_beq_iff _ _).0 (every_below_lem _ 128 b h table-or)
