-- ===== src/Utf8/Literal/Spelling.antt =====
-- The canonical spelling of a text, and that the reader's escapes undo the writer's.
use maelys_json.Base.{
  ℕ, ◌+◌, ◌*◌, ◌/◌, ◌%◌, ◌<◌, ◌≡◌, inl, inr, refl, ap, ◌∙◌, Bool, true, false, not, ◌&&◌, List, [],
  ◌∷◌, ◌++◌, append_assoc, none, some, bit_and, Bytes, All, All-append, leb, ◌==◌, arith,
  Option-cases,
}
use maelys_json.Base.Bits.{mask_4, every_below, every_below_sound}
use maelys_json.Common.Escape.{canonical_escape, short_escape, hex_digit}
use maelys_json.Utf8.Literal.{
  hex_value, hex_digits, read_u16, read_escape_point, point_escape, letter_escape, simple_escape,
  escape,
}
use maelys_json.Utf8.Literal.Text.{IsCharacter, encode_utf8_ascii}
use maelys_json.Utf8.Points.{encode_utf8}
use maelys_json.Utf8.Points.Arithmetic.{encode_utf8-encoded}
use maelys_json.Utf8.Scalars.{encode_all, scalar-lt}
use maelys_json.Utf8.Sequence.{IsScalar}

-- The canonical spelling of a text, byte by byte.
unfoldable pub escaped : Bytes → Bytes
escaped [] = []
escaped (b ∷ bs) = canonical_escape b ++ escaped bs

pub escaped-append : (xs ys : Bytes) → escaped (xs ++ ys) ≡ escaped xs ++ escaped ys
unfolding escaped
escaped-append [] ys = refl
escaped-append (x ∷ xs) ys = simp (escaped-append xs, append_assoc)

-- A byte, or a code point, that is spelled as itself.
abbrev pub is_plain : ℕ → Bool
is_plain b = leb 0x20 b && not (b == b'"') && not (b == b'\\')

abbrev pub IsPlain : ℕ → Type 0
IsPlain b = is_plain b ≡ true

pub canonical_escape_plain : (b : ℕ) → IsPlain b → canonical_escape b ≡ b ∷ []
unfolding canonical_escape
canonical_escape_plain b h = ground arith

pub escaped_plain : (bs : Bytes) → All IsPlain bs → escaped bs ≡ bs
unfolding escaped
escaped_plain [] h = refl
escaped_plain (b ∷ bs) (hb, h) = rw (canonical_escape_plain b hb, escaped_plain bs h)

-- The bytes of a plain code point are plain.
pub encode_utf8-IsPlain : (p : ℕ) → IsScalar p → IsPlain p → All IsPlain (encode_utf8 p)
encode_utf8-IsPlain p s h = rw (encode_utf8-encoded p (scalar-lt p s)) (ground arith)

pub encode_all-IsPlain :
    (ps : List ℕ) → All IsCharacter ps → All IsPlain ps → All IsPlain (encode_all ps)
unfolding encode_all
encode_all-IsPlain [] s h = tt
encode_all-IsPlain (p ∷ ps) (sp, s) (hp, h) =
    All-append IsPlain (encode_utf8 p) (encode_all ps) (encode_utf8-IsPlain p sp.0 hp)
      (encode_all-IsPlain ps s h)

abbrev reads_digit : ℕ → Bool
reads_digit i = elim (hex_value (hex_digit i)) [ none ↦ false | some v ↦ v == i ]

hex_table : every_below reads_digit 16 ≡ true
unfolding every_below hex_value hex_digit
hex_table = refl

hex_value-hex_digit : (i : ℕ) → i < 16 → hex_value (hex_digit i) ≡ some i
hex_value-hex_digit i h = elim (Option-cases (hex_value (hex_digit i))) [
  | inl e ↦ absurd (ground (arith, every_below_sound reads_digit 16 i h hex_table))
  | inr (v, e) ↦ ground (arith, every_below_sound reads_digit 16 i h hex_table)
]

-- The short escapes of the writer are among those of the reader.
simple_escape-short_escape :
    (p : ℕ) {letter : ℕ}
    → short_escape p ≡ some letter
    → (simple_escape letter ≡ some p) × ((letter == b'u') ≡ false)
unfolding short_escape simple_escape
simple_escape-short_escape p h = ground arith

short_escape-none : (p : ℕ) → short_escape p ≡ none → is_plain p ≡ false → p < 0x20
unfolding short_escape
short_escape-none p h n = ground arith

read_u16_byte :
    (hi lo : ℕ) (rest : Bytes)
    → hi < 16
    → lo < 16
    → read_u16 (b'0' ∷ b'0' ∷ hex_digit hi ∷ hex_digit lo ∷ rest) ≡ some (hi * 16 + lo, rest)
unfolding read_u16
read_u16_byte hi lo rest h l =
    let z : hex_value b'0' ≡ some 0 = unfold hex_value in refl in
    rw (z, hex_digits, z, hex_digits, hex_value-hex_digit hi h, hex_digits)
      (rw (hex_value-hex_digit lo l, hex_digits) (ground arith))

abbrev control_tail : ℕ → Bytes
control_tail p = b'u' ∷ b'0' ∷ b'0' ∷ hex_digit (p / 16) ∷ hex_digit (p % 16) ∷ []

canonical_escape_control :
    (p : ℕ) → short_escape p ≡ none → p < 0x20 → canonical_escape p ≡ b'\\' ∷ control_tail p
unfolding canonical_escape
canonical_escape_control p e lt =
    let above : leb 0x20 p ≡ false = ground arith in
    let high : bit_and (p / 16) 0xf ≡ p / 16 = omega (arith, mask_4 (p / 16)) in
    rw (e, canonical_escape, above, high, mask_4 p)

point_escape_control :
    (p : ℕ) (rest : Bytes)
    → 0 < p
    → p < 0x20
    → point_escape (b'0' ∷ b'0' ∷ hex_digit (p / 16) ∷ hex_digit (p % 16) ∷ rest)
      ≡ some (p ∷ [], rest)
point_escape_control p rest pos lt =
    let value : p / 16 * 16 + p % 16 ≡ p = omega arith in
    let digits : read_u16 (b'0' ∷ b'0' ∷ hex_digit (p / 16) ∷ hex_digit (p % 16) ∷ rest)
        ≡ some (p, rest) =
      read_u16_byte (p / 16) (p % 16) rest (omega arith) (omega arith)
      ∙ ap (λ v. some (v, rest)) value in
    let point : read_escape_point (b'0' ∷ b'0' ∷ hex_digit (p / 16) ∷ hex_digit (p % 16) ∷ rest)
        ≡ some (p, rest) =
      unfold read_escape_point in rw (digits, read_escape_point) (ground arith) in
    let nonzero : (p == 0) ≡ false = ground arith in
    unfold point_escape in rw (point, point_escape, nonzero, encode_utf8_ascii p (omega arith))

-- An escape of the canonical spelling is read back.
pub record IsReadBack (p : ℕ) (rest : Bytes) : Type 0 where
  pub tail : Bytes
  pub spelled : canonical_escape p ≡ b'\\' ∷ tail
  pub read : escape (tail ++ rest) ≡ some (p ∷ [], rest)

pub canonical_escape-IsReadBack :
    (p : ℕ) (rest : Bytes) → 0 < p → is_plain p ≡ false → IsReadBack p rest
canonical_escape-IsReadBack p rest pos h = elim (Option-cases (short_escape p)) [
  | inr (letter, e) ↦
      let (read, not_u) = simple_escape-short_escape p e in
      record {
        tail = letter ∷ [];
        spelled = unfold canonical_escape in rw (e, canonical_escape);
        read = unfold escape letter_escape in rw not_u (rw (read, letter_escape));
      }
  | inl e ↦
      let lt = short_escape-none p e h in
      record {
        tail = control_tail p;
        spelled = canonical_escape_control p e lt;
        read = unfold escape in point_escape_control p rest pos lt;
      }
]
