-- ===== src/Protocol/Wire/Flags.antt =====
-- The masks of `decode_connect` of src/protocol/packet.rs pick out the bits of the byte of flags.
use iotd.Prelude.{
  nat_beq_iff, is_some, ℕ, ◌+◌, ◌*◌, ◌/◌, ◌%◌, ◌<◌, bit_and, ◌≡◌, refl, ◌∙◌, Bool, true, false,
  Option, ◌==◌, nat_eq, arith,
}
use iotd.Protocol.Packet.{QoS, qos_as_u8, at_most_once, at_least_once, exactly_once}
use iotd.Protocol.Bits.{every_below, every_below_lem, bool_beq, bool_beq_sound}
use iotd.Protocol.Decode.{has_bit}
use iotd.Protocol.Wire.{
  Will, Login, will_qos, will_retain, username_of, password_of, bit, connect_flags,
}

table-0x02 : every_below (λ b. bool_beq (has_bit b 0x02) (b / 2 % 2 == 1)) 256 ≡ true
unfolding every_below bool_beq
table-0x02 = refl

table-0x04 : every_below (λ b. bool_beq (has_bit b 0x04) (b / 4 % 2 == 1)) 256 ≡ true
unfolding every_below bool_beq
table-0x04 = refl

table-0x20 : every_below (λ b. bool_beq (has_bit b 0x20) (b / 32 % 2 == 1)) 256 ≡ true
unfolding every_below bool_beq
table-0x20 = refl

table-0x40 : every_below (λ b. bool_beq (has_bit b 0x40) (b / 64 % 2 == 1)) 256 ≡ true
unfolding every_below bool_beq
table-0x40 = refl

table-0x80 : every_below (λ b. bool_beq (has_bit b 0x80) (b / 128 % 2 == 1)) 256 ≡ true
unfolding every_below bool_beq
table-0x80 = refl

table-qos : every_below (λ b. bit_and (b / 8) 0x03 == b / 8 % 4) 256 ≡ true
unfolding every_below
table-qos = refl

bit_lt : (b : Bool) → bit b < 2
bit_lt true = omega arith
bit_lt false = omega arith

qos_lt : (q : QoS) → qos_as_u8 q < 3
qos_lt at_most_once = omega arith
qos_lt at_least_once = omega arith
qos_lt exactly_once = omega arith

is_bit : (b : Bool) (n : ℕ) → n ≡ bit b → (n == 1) ≡ b
is_bit true n h = rw h refl
is_bit false n h = rw h refl

found :
    (mask place b : ℕ) (v : Bool)
    → every_below (λ n. bool_beq (has_bit n mask) (n / place % 2 == 1)) 256 ≡ true
    → b < 256
    → b / place % 2 ≡ bit v
    → has_bit b mask ≡ v
found mask place b v table small h =
    bool_beq_sound _ _
      (every_below_lem (λ n. bool_beq (has_bit n mask) (n / place % 2 == 1)) 256 b small table)
    ∙ is_bit v (b / place % 2) h

-- Numbers at the places of the bits.
abbrev byte_of : ℕ → ℕ → ℕ → ℕ → ℕ → ℕ → ℕ
byte_of c w q r p u = 2 * c + 4 * w + 8 * q + 32 * r + 64 * p + 128 * u

places :
    (c w q r p u : ℕ)
    → c < 2
    → w < 2
    → q < 3
    → r < 2
    → p < 2
    → u < 2
    → let b = byte_of c w q r p u in
      (b < 256)
      × (b / 2 % 2 ≡ c)
      × (b / 4 % 2 ≡ w)
      × (b / 8 % 4 ≡ q)
      × (b / 32 % 2 ≡ r)
      × (b / 64 % 2 ≡ p)
      × (b / 128 % 2 ≡ u)
places c w q r p u hc hw hq hr hp hu =
    (omega arith, omega arith, omega arith, omega arith, omega arith, omega arith, omega arith)

-- What `decode_connect` finds in the byte of flags.
pub record Flags (clean_session : Bool) (will : Option Will) (login : Option Login) (b : ℕ)
    : Type 0 where
  pub clean : has_bit b 0x02 ≡ clean_session
  pub has_will : has_bit b 0x04 ≡ is_some will
  pub qos : bit_and (b / 8) 0x03 ≡ qos_as_u8 (will_qos will)
  pub retain : has_bit b 0x20 ≡ will_retain will
  pub has_username : has_bit b 0x80 ≡ is_some (username_of login)
  pub has_password : has_bit b 0x40 ≡ is_some (password_of login)

pub connect_flags-Flags :
    (clean_session : Bool) (will : Option Will) (login : Option Login)
    → Flags clean_session will login (connect_flags clean_session will login)
unfolding connect_flags
connect_flags-Flags clean_session will login =
    let b = connect_flags clean_session will login in
    let (small, c, w, q, r, p, u) =
      places (bit clean_session) (bit (is_some will)) (qos_as_u8 (will_qos will))
        (bit (will_retain will)) (bit (is_some (password_of login)))
        (bit (is_some (username_of login))) (bit_lt clean_session) (bit_lt (is_some will))
        (qos_lt (will_qos will)) (bit_lt (will_retain will)) (bit_lt (is_some (password_of login)))
        (bit_lt (is_some (username_of login))) in
    record {
      clean = found 0x02 2 b clean_session table-0x02 small c;
      has_will = found 0x04 4 b (is_some will) table-0x04 small w;
      qos = (nat_beq_iff _ _).0 (every_below_lem _ 256 b small table-qos) ∙ q;
      retain = found 0x20 32 b (will_retain will) table-0x20 small r;
      has_username = found 0x80 128 b (is_some (username_of login)) table-0x80 small u;
      has_password = found 0x40 64 b (is_some (password_of login)) table-0x40 small p;
    }
