-- ===== src/Protocol/Io.antt =====
-- The byte access that src/protocol/packet.rs takes from two crates: `Buf` and `BufMut` of `bytes`
-- over a cursor and a `BytesMut`, and `AsyncReadExt` of `tokio` over a stream. A cursor or a stream
-- is given by the bytes that it has not read, a buffer by the bytes that it holds.
use iotd.Prelude.{
  ℕ, Bytes, ◌+◌, ◌*◌, ◌/◌, ◌%◌, ◌≡◌, refl, subst, [], ◌∷◌, ◌++◌, length, take, drop, ltb,
  if◌then◌else◌,
}
use iotd.Protocol.Result.{Result, ok, err, panic, io, Parser}

pub record Io : Type 0 where
  pub remaining : Bytes → ℕ
  pub get_u8 : Parser ℕ
  pub get_u16 : Parser ℕ
  pub copy_to_slice : ℕ → Parser Bytes
  pub put_u8 : ℕ → Bytes → Bytes
  pub put_u16 : ℕ → Bytes → Bytes
  pub put_slice : Bytes → Bytes → Bytes
  pub read_u8 : Parser ℕ
  pub read_exact : ℕ → Parser Bytes

-- Reading from a list of bytes, with what happens where there are too few.
abbrev pub front_u8 : Result (ℕ × Bytes) → Parser ℕ
front_u8 short [] = short
front_u8 short (a ∷ rest) = ok (a, rest)

abbrev pub front_u16 : Result (ℕ × Bytes) → Parser ℕ
front_u16 short [] = short
front_u16 short (a ∷ []) = short
front_u16 short (a ∷ b ∷ rest) = ok (a * 256 + b, rest)

unfoldable pub front_slice : Result (Bytes × Bytes) → ℕ → Parser Bytes
front_slice short n bytes = if ltb (length bytes) n then short else ok (take n bytes, drop n bytes)

-- What the documentation of the two crates says: the numbers are big-endian, a `Buf` panics where
-- the bytes do not suffice, a stream that ends early is an error of kind `UnexpectedEof`, and a
-- `BytesMut` grows at its end.
pub record IsIo (i : Io) : Type 0 where
  pub remaining_lem : (b : Bytes) → length b ≡ i.remaining b
  pub get_u8_lem : (b : Bytes) → front_u8 panic b ≡ i.get_u8 b
  pub get_u16_lem : (b : Bytes) → front_u16 panic b ≡ i.get_u16 b
  pub copy_to_slice_lem : (n : ℕ) (b : Bytes) → front_slice panic n b ≡ i.copy_to_slice n b
  pub put_u8_lem : (v : ℕ) (b : Bytes) → b ++ v ∷ [] ≡ i.put_u8 v b
  pub put_u16_lem : (v : ℕ) (b : Bytes) → b ++ (v / 256) ∷ (v % 256) ∷ [] ≡ i.put_u16 v b
  pub put_slice_lem : (a b : Bytes) → b ++ a ≡ i.put_slice a b
  pub read_u8_lem : (b : Bytes) → front_u8 (err io) b ≡ i.read_u8 b
  pub read_exact_lem : (n : ℕ) (b : Bytes) → front_slice (err io) n b ≡ i.read_exact n b

-- The operations on plain lists. They are the only ones that meet the laws, so that a statement
-- about them holds of every `Io` that does.
abbrev pub list_io : Io
list_io = record {
  remaining = length;
  get_u8 = front_u8 panic;
  get_u16 = front_u16 panic;
  copy_to_slice = front_slice panic;
  put_u8 = λ v b. b ++ v ∷ [];
  put_u16 = λ v b. b ++ (v / 256) ∷ (v % 256) ∷ [];
  put_slice = λ a b. b ++ a;
  read_u8 = front_u8 (err io);
  read_exact = front_slice (err io);
}

list_io-eq : (i : Io) → IsIo i → list_io ≡ i
list_io-eq i h = λ j. record {
  remaining = λ b. h.remaining_lem b j;
  get_u8 = λ b. h.get_u8_lem b j;
  get_u16 = λ b. h.get_u16_lem b j;
  copy_to_slice = λ n b. h.copy_to_slice_lem n b j;
  put_u8 = λ v b. h.put_u8_lem v b j;
  put_u16 = λ v b. h.put_u16_lem v b j;
  put_slice = λ a b. h.put_slice_lem a b j;
  read_u8 = λ b. h.read_u8_lem b j;
  read_exact = λ n b. h.read_exact_lem n b j;
}

pub for_every_io {ℓ} : (P : Io → Type ℓ) → P list_io → (i : Io) → IsIo i → P i
for_every_io P p i h = subst P (list_io-eq i h) p

pub list_io-IsIo : IsIo list_io
list_io-IsIo = record {
  remaining_lem = λ b. refl;
  get_u8_lem = λ b. refl;
  get_u16_lem = λ b. refl;
  copy_to_slice_lem = λ n b. refl;
  put_u8_lem = λ v b. refl;
  put_u16_lem = λ v b. refl;
  put_slice_lem = λ a b. refl;
  read_u8_lem = λ b. refl;
  read_exact_lem = λ n b. refl;
}
