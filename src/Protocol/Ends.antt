-- ===== src/Protocol/Ends.antt =====
-- What a reading action of src/protocol/packet.rs may do at given bytes, and the rule for one after the
-- other.
pub mod Bodies
pub mod Whole
use iotd.Prelude.{
  take-drop, nat_eq, ◌==◌, ℕ, suc, Bytes, ◌+◌, ◌≤◌, ◌<◌, ◌≡◌, refl, sym, ◌∙◌, ap, Bool, true, false,
  [], ◌∷◌, ◌++◌, append_assoc, length, length-append, take, drop, ltb, if◌then◌else◌, Bool-cases,
  inl, inr, arith,
}
use iotd.Protocol.Result.{
  PacketError, Result, ok, err, panic, stuck, Parser, ◌>>=◌, ◌>>◌, pure, fail, refuse_if, io,
}
use iotd.Protocol.Io.{list_io, front_slice, front_u8, front_u16}
use iotd.Protocol.Packet.{QoS, at_most_once, at_least_once, exactly_once}
use iotd.Protocol.Decode.{qos_or, decode_string}
use iotd.Protocol.RoundTrip.{no_less}

-- It takes at least so many bytes from the front, or returns an error; it panics only where this holds,
-- and never runs out of fuel.
pub data Takes {A : Type 0} (P : Type 0) (fewest : ℕ) (bytes : Bytes)
    : Result (A × Bytes) → Type 0 where
  takes :
      {a : A} {rest : Bytes} (front : Bytes)
      → bytes ≡ front ++ rest
      → fewest ≤ length front
      → Takes P fewest bytes (ok (a, rest))
  refuses : {e : PacketError} → Takes P fewest bytes (err e)
  panics : P → Takes P fewest bytes panic

module _ {P : Type 0} where
  pub join :
      {B : Type 0} (fewest : ℕ) (bytes front rest : Bytes) {r : Result (B × Bytes)}
      → bytes ≡ front ++ rest
      → fewest ≤ length front
      → Takes P 0 rest r
      → Takes P fewest bytes r
  join fewest bytes front rest e h (Takes.takes {rest = rest'} more e' h') =
      Takes.takes (front ++ more) (e ∙ ap (◌++◌ front) e' ∙ sym (append_assoc front more rest'))
        (omega (arith, length-append front more))
  join fewest bytes front rest e h Takes.refuses = Takes.refuses
  join fewest bytes front rest e h (Takes.panics p) = Takes.panics p

  -- One action after the other.
  module _ {A B : Type 0} (m : Parser A) (f : A → Parser B) (fewest : ℕ) (bytes : Bytes) where
    then-Takes :
        (r : Result (A × Bytes))
        → m bytes ≡ r
        → Takes P fewest bytes r
        → ((a : A) (rest : Bytes) → length rest + fewest ≤ length bytes → Takes P 0 rest (f a rest))
        → Takes P fewest bytes ((m >>= f) bytes)
    then-Takes (ok (a, rest)) e (Takes.takes front split h) later =
        rw (e, ◌>>=◌)
          (join fewest bytes front rest split h
            (later a rest (omega (arith, ap length split, length-append front rest))))
    then-Takes (err x) e Takes.refuses later = rw (e, ◌>>=◌) Takes.refuses
    then-Takes panic e (Takes.panics p) later = rw (e, ◌>>=◌) (Takes.panics p)
    then-Takes stuck e x later = elim x [ ]

    pub bind-Takes :
        Takes P fewest bytes (m bytes)
        → ((a : A) (rest : Bytes) → length rest + fewest ≤ length bytes → Takes P 0 rest (f a rest))
        → Takes P fewest bytes ((m >>= f) bytes)
    bind-Takes = then-Takes (m bytes) refl

  pub weaken :
      {A : Type 0} (fewest : ℕ) {bytes : Bytes} {r : Result (A × Bytes)}
      → Takes P fewest bytes r
      → Takes P 0 bytes r
  weaken fewest (Takes.takes front split h) = Takes.takes front split (omega arith)
  weaken fewest Takes.refuses = Takes.refuses
  weaken fewest (Takes.panics p) = Takes.panics p

  pub read_u8-Takes : (bytes : Bytes) → Takes P 1 bytes (front_u8 (err io) bytes)
  read_u8-Takes [] = Takes.refuses
  read_u8-Takes (a ∷ rest) = Takes.takes (a ∷ []) refl (omega arith)

  -- A test of the length comes before.
  pub u16-Takes_checked :
      (bytes : Bytes) → 2 ≤ length bytes → Takes P 2 bytes (front_u16 panic bytes)
  u16-Takes_checked [] h = absurd (omega arith)
  u16-Takes_checked (a ∷ []) h = absurd (omega arith)
  u16-Takes_checked (a ∷ b ∷ rest) h = Takes.takes (a ∷ b ∷ []) refl (omega arith)

  pub slice-Takes_checked :
      (n : ℕ) (bytes : Bytes) → n ≤ length bytes → Takes P 0 bytes (front_slice panic n bytes)
  unfolding front_slice
  slice-Takes_checked n bytes h =
      rw (no_less n (length bytes) h)
        (Takes.takes (take n bytes) (sym (take-drop n bytes)) (omega arith))

-- The same of every input, for actions of which no length is known.
pub record Parses (P : Type 0) {A : Type 0} (m : Parser A) : Type 0 where
  pub at : (bytes : Bytes) → Takes P 0 bytes (m bytes)

module _ {P : Type 0} where
  pub bind-Parses :
      {A B : Type 0} {m : Parser A} {f : A → Parser B}
      → Parses P m
      → ((a : A) → Parses P (f a))
      → Parses P (m >>= f)
  bind-Parses {m} {f} h k = record {
    at = λ bytes. bind-Takes m f 0 bytes (h.at bytes) (λ a rest _. (k a).at rest);
  }

  pub pure-Parses : {A : Type 0} (a : A) → Parses P (pure a)
  pure-Parses a = record { at = λ bytes. Takes.takes [] refl (omega arith) }

  pub fail-Parses : {A : Type 0} (x : PacketError) → Parses P (fail {A = A} x)
  fail-Parses x = record { at = λ bytes. Takes.refuses }

  pub if-Parses :
      {A : Type 0} (b : Bool) {m n : Parser A}
      → Parses P m
      → Parses P n
      → Parses P (if b then m else n)
  if-Parses true h k = h
  if-Parses false h k = k

  pub refuse_if-Parses : (b : Bool) (x : PacketError) → Parses P (refuse_if b x)
  refuse_if-Parses true x = fail-Parses x
  refuse_if-Parses false x = pure-Parses tt

  pub qos_or-Parses : (x : PacketError) (n : ℕ) → Parses P (qos_or x n)
  qos_or-Parses x n = if-Parses (n == 0) (pure-Parses at_most_once) (
      if-Parses (n == 1) (pure-Parses at_least_once)
        (if-Parses (n == 2) (pure-Parses exactly_once) (fail-Parses x)))

  pub u8-Parses : P → Parses P (front_u8 panic)
  u8-Parses p = record { at = taken }
    where
      taken : (bytes : Bytes) → Takes P 0 bytes (front_u8 panic bytes)
      taken [] = Takes.panics p
      taken (a ∷ rest) = Takes.takes (a ∷ []) refl (omega arith)

  pub u16-Parses : P → Parses P (front_u16 panic)
  u16-Parses p = record { at = taken }
    where
      taken : (bytes : Bytes) → Takes P 0 bytes (front_u16 panic bytes)
      taken [] = Takes.panics p
      taken (a ∷ []) = Takes.panics p
      taken (a ∷ b ∷ rest) = Takes.takes (a ∷ b ∷ []) refl (omega arith)

  pub slice-Parses : P → (n : ℕ) → Parses P (front_slice panic n)
  unfolding front_slice
  slice-Parses p n = record { at = taken }
    where
      taken : (bytes : Bytes) → Takes P 0 bytes (front_slice panic n bytes)
      taken bytes = elim (Bool-cases (ltb (length bytes) n)) [
        | inl short ↦ rw (short, front_slice) (Takes.panics p)
        | inr enough ↦
            rw (enough, front_slice)
              (Takes.takes (take n bytes) (sym (take-drop n bytes)) (omega arith))
      ]
