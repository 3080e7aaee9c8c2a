-- ===== src/Serializer/Text.antt =====
-- The strings and numbers of src/serialize.c.
pub mod Spells
use maelys_json.Base.{
  ℕ, zero, suc, ◌+◌, ◌-◌, ◌/◌, ◌%◌, ◌^◌, Bool, true, false, ◌&&◌, [], ◌∷◌, ◌++◌, Option, none, some,
  Bytes, length, drop, ltb, leb, Outcome, ok, err, ◌>>=◌, if◌then◌else◌,
}
use maelys_json.Common.Decimal.{print_u64, print_i64}
use maelys_json.Common.Escape.{hex_digit, canonical_escape}
use maelys_json.Serializer.Buffer.{Serializer, append, append_byte}
use maelys_json.Types.{Error}
use maelys_json.Utf8.Points.{utf8_decode}
use maelys_json.Writer.State.{Node}

-- The bytes of `append_u16_escape`; a shift and a mask of the unit, of 32 bits.
unfoldable pub u16_escape : ℕ → Bytes
u16_escape unit =
    b'\\'
    ∷ b'u'
    ∷ hex_digit (unit / 2 ^ 12 % 16)
    ∷ hex_digit (unit / 2 ^ 8 % 16)
    ∷ hex_digit (unit / 2 ^ 4 % 16)
    ∷ hex_digit (unit % 16)
    ∷ []

unfoldable pub append_point : (ℕ → Bool) → ℕ → Serializer → Outcome Error Serializer
append_point granted point s =
    let offset = point - 0x10000 in
    let pair : Outcome Error Serializer = do
      r ← append granted (u16_escape (0xd800 + offset / 2 ^ 10)) s
      append granted (u16_escape (0xdc00 + offset % 0x400)) r
    in if leb 0x10000 point then pair else append granted (u16_escape point) s

-- The loop of `append_string`: a code point, or a byte, to a round. `drop` leaves what is behind
-- the sequence that was decoded, which has a byte at least.
unfoldable pub append_characters : ℕ → (ℕ → Bool) → Bytes → Serializer → Outcome Error Serializer
append_characters fuel granted [] s = ok s
append_characters zero granted (b ∷ bs) s = ok s
append_characters (suc fuel) granted (b ∷ bs) s = elim (leb 0x80 b && s.ascii) [
  | true ↦ do
    let decoded = utf8_decode (b ∷ bs)
    r ← append_point granted decoded.0 s
    append_characters fuel granted (drop (decoded.1 - 1) bs) r
  | false ↦ do r ← append granted (canonical_escape b) s; append_characters fuel granted bs r
]

unfoldable pub append_string : (ℕ → Bool) → Bytes → Serializer → Outcome Error Serializer
append_string granted bytes s = do
  opened ← append_byte granted b'"' s
  written ← append_characters (length bytes) granted bytes opened
  append_byte granted b'"' written

-- The bytes of `append_number`.
unfoldable pub number_bytes : Node → Bytes
number_bytes node = elim node.string [
  | some lexeme ↦ lexeme
  | none ↦ if node.number_signed then print_i64 node.signed_value else print_u64 node.unsigned_value
]

unfoldable pub append_number : (ℕ → Bool) → Node → Serializer → Outcome Error Serializer
append_number granted node = append granted (number_bytes node)
