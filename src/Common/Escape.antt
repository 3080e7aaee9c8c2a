-- ===== src/Common/Escape.antt =====
-- `maelys_json_canonical_escape`: the canonical spelling of one byte of a string.
use maelys_json.Base.{
  ℕ, ◌/◌, ◌≤◌, [], ◌∷◌, Option, none, some, bit_and, Bytes, arith, leb, ◌==◌, if◌then◌else◌, get_or,
  length, codes,
}

-- `hex[i]` of "0123456789abcdef"
unfoldable pub hex_digit : ℕ → ℕ
hex_digit i = get_or (codes "0123456789abcdef") i 0

-- The `switch`; `none` is its default.
unfoldable pub short_escape : ℕ → Option ℕ
short_escape byte =
    if byte == b'"'
    then some b'"'
    else if byte == b'\\'
    then some b'\\'
    else if byte == 0x08
    then some b'b'
    else if byte == 0x0c
    then some b'f'
    else if byte == b'\n'
    then some b'n'
    else if byte == b'\r'
    then some b'r'
    else if byte == b'\t'
    then some b't'
    else none

-- The bytes written to `out`; the length is the value returned.
unfoldable pub canonical_escape : ℕ → Bytes
unfolding short_escape hex_digit
canonical_escape byte = elim (short_escape byte) [
  | some letter ↦ b'\\' ∷ letter ∷ []
  | none ↦
      if leb 0x20 byte
      then byte ∷ []
      else b'\\'
        ∷ b'u'
        ∷ b'0'
        ∷ b'0'
        ∷ hex_digit (bit_and (byte / 16) 0xf)
        ∷ hex_digit (bit_and byte 0xf)
        ∷ []
]

-- At most the six bytes of the callers' buffers, and never none.
pub length-canonical_escape :
    (b : ℕ) → (1 ≤ length (canonical_escape b)) × (length (canonical_escape b) ≤ 6)
unfolding canonical_escape
length-canonical_escape b = ground arith
