-- ===== src/Utf8/Points.antt =====
-- `maelys_json_utf8_decode` and `encode_utf8`. A code point is a `uint32_t`; storing into a `char`
-- keeps the low eight bits.
pub mod Arithmetic
use maelys_json.Base.{
  ℕ, ◌+◌, ◌*◌, ◌/◌, ◌%◌, [], ◌∷◌, bit_and, bit_or, Bytes, get_or, leb, if◌then◌else◌,
}

-- `(uint32_t)value << bits`
abbrev shl : ℕ → ℕ → ℕ
shl value power = value * power % 0x1_0000_0000

-- The point and the bytes it takes. The input is validated, so the bytes read are there.
unfoldable pub utf8_decode : Bytes → ℕ × ℕ
utf8_decode bytes =
    let a = get_or bytes 0 0 in
    let tail = λ (i : ℕ). bit_and (get_or bytes i 0) 0x3f in
    if leb a 0x7f
    then (a, 1)
    else if leb a 0xdf
    then (bit_or (shl (bit_and a 0x1f) 0x40) (tail 1), 2)
    else if leb a 0xef
    then (bit_or (bit_or (shl (bit_and a 0x0f) 0x1000) (shl (tail 1) 0x40)) (tail 2), 3)
    else (
      bit_or
          (bit_or (bit_or (shl (bit_and a 0x07) 0x4_0000) (shl (tail 1) 0x1000))
            (shl (tail 2) 0x40))
          (tail 3),
      4,
    )

abbrev char : ℕ → ℕ
char value = value % 256

unfoldable pub encode_utf8 : ℕ → Bytes
encode_utf8 point =
    if leb point 0x7f
    then char point ∷ []
    else if leb point 0x7ff
    then char (bit_or 0xc0 (point / 0x40)) ∷ char (bit_or 0x80 (bit_and point 0x3f)) ∷ []
    else if leb point 0xffff
    then char (bit_or 0xe0 (point / 0x1000))
      ∷ char (bit_or 0x80 (bit_and (point / 0x40) 0x3f))
      ∷ char (bit_or 0x80 (bit_and point 0x3f))
      ∷ []
    else char (bit_or 0xf0 (point / 0x4_0000))
      ∷ char (bit_or 0x80 (bit_and (point / 0x1000) 0x3f))
      ∷ char (bit_or 0x80 (bit_and (point / 0x40) 0x3f))
      ∷ char (bit_or 0x80 (bit_and point 0x3f))
      ∷ []
