-- ===== src/Protocol/Result.antt =====
-- `Result<_, PacketError>` of src/protocol/packet.rs, with the two ways in which a call does not
-- return one: a panic, and a loop of the model that ran out of fuel.
use iotd.Prelude.{ℕ, Bytes, ◌≡◌, Bool, true, false}

pub data PacketError : Type 0 where
  invalid_packet_type : ℕ → PacketError
  invalid_remaining_length incomplete_packet invalid_utf8 invalid_packet_flags io : PacketError

pub data Result {ℓ} (A : Type ℓ) : Type ℓ where
  ok : A → Result A
  err : PacketError → Result A
  panic : Result A
  stuck : Result A

-- A reading action: what it takes from the front of the bytes, and the bytes it leaves.
abbrev pub Parser {ℓ} : Type ℓ → Type ℓ
Parser A = Bytes → Result (A × Bytes)

infixl 5 ◌>>=◌ ◌>>◌
abbrev pub ◌>>=◌ {ℓ κ} : {A : Type ℓ} {B : Type κ} → Parser A → (A → Parser B) → Parser B
◌>>=◌ m f bytes = elim (m bytes) [
  | ok (a, rest) ↦ f a rest
  | err e ↦ err e
  | panic ↦ panic
  | stuck ↦ stuck
]

abbrev pub ◌>>◌ {ℓ} : {B : Type ℓ} → Parser (Unit {0}) → Parser B → Parser B
m >> k = m >>= λ _. k

abbrev pub pure {ℓ} : {A : Type ℓ} → A → Parser A
pure a bytes = ok (a, bytes)

abbrev pub fail {ℓ} : {A : Type ℓ} → PacketError → Parser A
fail e bytes = err e

-- `if refused { return Err(e) }`
abbrev pub refuse_if : Bool → PacketError → Parser (Unit {0})
refuse_if true e = fail e
refuse_if false e = pure tt

-- One step of a `do` block whose first action is known at these bytes.
module _ {ℓ κ} {A : Type ℓ} {B : Type κ} (m : Parser A) (f : A → Parser B) (bytes : Bytes) where
  pub bind-ok : {a : A} {rest : Bytes} → m bytes ≡ ok (a, rest) → (m >>= f) bytes ≡ f a rest
  bind-ok h = rw (h, ◌>>=◌)

  -- The same, with what the rest of the block returns.
  pub bind-step :
      {a : A} {rest : Bytes} {result : Result (B × Bytes)}
      → m bytes ≡ ok (a, rest)
      → f a rest ≡ result
      → (m >>= f) bytes ≡ result
  bind-step h later = rw (h, ◌>>=◌) later

  pub bind-err : {e : PacketError} → m bytes ≡ err e → (m >>= f) bytes ≡ err e
  bind-err h = rw (h, ◌>>=◌)

  pub bind-panic : m bytes ≡ panic → (m >>= f) bytes ≡ panic
  bind-panic h = rw (h, ◌>>=◌)

-- The call returned, with a value or an error.
abbrev pub Returns {ℓ} : {A : Type ℓ} → Result A → Type 0
Returns (ok a) = Unit
Returns (err e) = Unit
Returns panic = ⊥
Returns stuck = ⊥
