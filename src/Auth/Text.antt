-- ===== src/Auth/Text.antt =====
-- The operations of `str` that src/auth/acl_file.rs and src/auth/password_file.rs use on the lines of a
-- file, on the bytes of a text in UTF-8: `lines`, `trim` and `split_once`.
use iotd.Prelude.{
  ℕ, zero, suc, ◌≤◌, ◌<◌, ◌+◌, ◌≡◌, refl, Bytes, Bool, false, ◌&&◌, ◌||◌, Option, none, some, List,
  [], ◌∷◌, ◌++◌, length, leb, ◌==◌, nat_eq, contains, beq_refl, if◌then◌else◌, arith, Option-cases,
  inl, inr,
}
use mathlib.Core.List.{reverse, reverse_aux, reverse-reverse}

abbrev push : ℕ → List Bytes → List Bytes
push c [] = (c ∷ []) ∷ []
push c (l ∷ ls) = (c ∷ l) ∷ ls

abbrev pub starts_with : ℕ → Bytes → Bool
starts_with c [] = false
starts_with c (d ∷ s) = d == c

-- `s.lines()`: a line ends with a line feed, which a carriage return may precede, or with the text.
unfoldable pub lines : Bytes → List Bytes
lines [] = []
lines (c ∷ s) =
    let rest = lines s in
    if c == 10 then [] ∷ rest else if (c == 13) && starts_with 10 s then rest else push c rest

-- The characters of `char::is_whitespace`, of one, two and three bytes.
abbrev white : ℕ → Bool
white a = (leb 9 a && leb a 13) || (a == 32)

abbrev white_two : ℕ → ℕ → Bool
white_two a b = (a == 0xC2) && ((b == 0x85) || (b == 0xA0))

abbrev white_three : ℕ → ℕ → ℕ → Bool
white_three a b c =
    ((a == 0xE1) && (b == 0x9A) && (c == 0x80))
    || ((a == 0xE2)
        && (b == 0x80)
        && ((leb 0x80 c && leb c 0x8A) || (c == 0xA8) || (c == 0xA9) || (c == 0xAF)))
    || ((a == 0xE2) && (b == 0x81) && (c == 0x9F))
    || ((a == 0xE3) && (b == 0x80) && (c == 0x80))

-- The text without the white character at its start, if there is one.
unfoldable pub strip_start : Bytes → Option Bytes
strip_start [] = none
strip_start (a ∷ []) = if white a then some [] else none
strip_start (a ∷ b ∷ []) =
    if white a then some (b ∷ []) else if white_two a b then some [] else none
strip_start (a ∷ b ∷ c ∷ s) =
    if white a
    then some (b ∷ c ∷ s)
    else if white_two a b
    then some (c ∷ s)
    else if white_three a b c
    then some s
    else none

-- The same at the end, on the bytes from the last to the first.
unfoldable pub strip_end : Bytes → Option Bytes
strip_end [] = none
strip_end (a ∷ []) = if white a then some [] else none
strip_end (a ∷ b ∷ []) = if white a then some (b ∷ []) else if white_two b a then some [] else none
strip_end (a ∷ b ∷ c ∷ s) =
    if white a
    then some (b ∷ c ∷ s)
    else if white_two b a
    then some (c ∷ s)
    else if white_three c b a
    then some s
    else none

-- As long as there is one; the fuel is the length.
unfoldable pub strip_all : (Bytes → Option Bytes) → ℕ → Bytes → Bytes
strip_all strip zero s = s
strip_all strip (suc fuel) s = elim (strip s) [ none ↦ s | some r ↦ strip_all strip fuel r ]

unfoldable pub trim_start : Bytes → Bytes
trim_start s = strip_all strip_start (length s) s

unfoldable pub trim_end : Bytes → Bytes
trim_end s = reverse (strip_all strip_end (length s) (reverse s))

-- `s.trim()`
unfoldable pub trim : Bytes → Bytes
trim s = trim_end (trim_start s)

-- `s.split_once(c)`, at the first.
unfoldable pub split_once : ℕ → Bytes → Option (Bytes × Bytes)
split_once c [] = none
split_once c (d ∷ s) =
    let rest = split_once c s in
    if d == c then some ([], s) else elim rest [ none ↦ none | some p ↦ some (d ∷ p.0, p.1) ]

-- A text with no white character at its start and none at its end.
abbrev pub IsTrimmed : Bytes → Type 0
IsTrimmed s = (strip_start s ≡ none) × (strip_end (reverse s) ≡ none)

strip_all-none :
    (strip : Bytes → Option Bytes) (fuel : ℕ) (s : Bytes)
    → strip s ≡ none
    → strip_all strip fuel s ≡ s
unfolding strip_all
strip_all-none strip zero s h = refl
strip_all-none strip (suc fuel) s h = rw (strip_all, h) refl

pub trim-IsTrimmed : (s : Bytes) → IsTrimmed s → trim s ≡ s
unfolding trim trim_start trim_end
trim-IsTrimmed s h =
    rw
      (
        strip_all-none strip_start (length s) s h.0,
        strip_all-none strip_end (length s) (reverse s) h.1,
        reverse-reverse s,
      )
      refl

-- The fuel is enough: where a strip shortens the text, nothing is left to strip.
strip_all-stops :
    (strip : Bytes → Option Bytes)
    → ((s r : Bytes) → strip s ≡ some r → length r < length s)
    → (fuel : ℕ) (s : Bytes) → length s ≤ fuel
    → strip (strip_all strip fuel s) ≡ none
unfolding strip_all
strip_all-stops strip shorter zero s h = elim (Option-cases (strip s)) [
  | inl e ↦ e
  | inr (r, e) ↦ absurd (omega (arith, shorter s r e))
]
strip_all-stops strip shorter (suc fuel) s h = elim (Option-cases (strip s)) [
  | inl e ↦ rw (strip_all, e) e
  | inr (r, e) ↦
      rw (strip_all, e) (strip_all-stops strip shorter fuel r (omega (arith, shorter s r e)))
]

strip_start-shorter : (s r : Bytes) → strip_start s ≡ some r → length r < length s
unfolding strip_start
strip_start-shorter [] r h = ground arith
strip_start-shorter (a ∷ []) r h = ground arith
strip_start-shorter (a ∷ b ∷ []) r h = ground arith
strip_start-shorter (a ∷ b ∷ c ∷ s) r h = ground arith

length-reverse_aux : (l r : Bytes) → length (reverse_aux l r) ≡ length l + length r
length-reverse_aux [] r = omega arith
length-reverse_aux (x ∷ l) r = omega (arith, length-reverse_aux l (x ∷ r))

length-reverse : (l : Bytes) → length (reverse l) ≡ length l
length-reverse l = omega (arith, length-reverse_aux l [])

strip_end-shorter : (s r : Bytes) → strip_end s ≡ some r → length r < length s
unfolding strip_end
strip_end-shorter [] r h = ground arith
strip_end-shorter (a ∷ []) r h = ground arith
strip_end-shorter (a ∷ b ∷ []) r h = ground arith
strip_end-shorter (a ∷ b ∷ c ∷ s) r h = ground arith

-- No white character is left at the start.
pub trim_start-stops : (s : Bytes) → strip_start (trim_start s) ≡ none
unfolding trim_start
trim_start-stops s = strip_all-stops strip_start strip_start-shorter (length s) s (omega arith)

-- No white character is left at the end.
pub trim_end-stops : (s : Bytes) → strip_end (reverse (trim_end s)) ≡ none
unfolding trim_end
trim_end-stops s = rw reverse-reverse (
    strip_all-stops strip_end strip_end-shorter (length s) (reverse s)
      (omega (arith, length-reverse s)))

pub lines-append :
    (l s : Bytes)
    → contains 10 l ≡ false
    → contains 13 l ≡ false
    → lines (l ++ 10 ∷ s) ≡ l ∷ lines s
unfolding lines
lines-append [] s h k = refl
lines-append (c ∷ l) s h k = ground (arith, lines-append l s)

pub split_once-append :
    (c : ℕ) (l s : Bytes) → contains c l ≡ false → split_once c (l ++ c ∷ s) ≡ some (l, s)
unfolding split_once
split_once-append c [] s h = rw (beq_refl c) refl
split_once-append c (d ∷ l) s h = ground (arith, split_once-append c l s)
