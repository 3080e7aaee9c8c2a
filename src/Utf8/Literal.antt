-- ===== src/Utf8/Literal.antt =====
-- `maelys_json_decode_string`: the content of a string literal, decoded. The offset `input` is the
-- rest that it leaves unread, `at` counts it for the error offset, and `out` is what was written.
pub mod Text
pub mod Escapes
pub mod Rounds
pub mod Decoding
pub mod Spelling
pub mod Escaped
pub mod Sizes
use maelys_json.Base.{
  ℕ, zero, suc, ◌+◌, ◌-◌, ◌*◌, Bool, true, false, ◌&&◌, ◌||◌, [], ◌∷◌, ◌++◌, Option, none, some,
  Bytes, length, within, leb, ltb, ◌==◌, if◌then◌else◌,
}
use maelys_json.Types.{Error, syntax, utf8, Profile, rfc8259, contract_ascii, rfc8259_last_wins}
use maelys_json.Utf8.Points.{encode_utf8}
use maelys_json.Utf8.Validate.{utf8_valid_prefix}

-- `none` is -1.
unfoldable pub hex_value : ℕ → Option ℕ
hex_value byte =
    if within b'0' b'9' byte
    then some (byte - b'0')
    else if within b'a' b'f' byte
    then some (byte - b'a' + 10)
    else if within b'A' b'F' byte
    then some (byte - b'A' + 10)
    else none

-- The loop of `read_u16` with the rounds left. The callers' size checks are the empty case: both
-- end in `return 0`. Four digits stay below 2^16, so the `uint32_t` does not wrap.
unfoldable pub hex_digits : ℕ → Bytes → ℕ → Option (ℕ × Bytes)
hex_digits zero bs value = some (value, bs)
hex_digits (suc n) [] value = none
hex_digits (suc n) (b ∷ bs) value = elim (hex_value b) [
  | none ↦ none
  | some digit ↦ hex_digits n bs (value * 16 + digit)
]

unfoldable pub read_u16 : Bytes → Option (ℕ × Bytes)
unfolding hex_digits
read_u16 bs = hex_digits 4 bs 0

-- The second half of a surrogate pair, behind the first.
unfoldable pub low_surrogate : ℕ → Bytes → Option (ℕ × Bytes)
low_surrogate point (a ∷ b ∷ bs) =
    if a == b'\\' && b == b'u'
    then elim (read_u16 bs) [
      | none ↦ none
      | some (low, rest) ↦
          if ltb low 0xdc00 || ltb 0xdfff low
          then none
          else some (0x1_0000 + (point - 0xd800) * 0x400 + (low - 0xdc00), rest)
    ]
    else none
low_surrogate point _ = none

-- `none` is a return of 0; the caller also refuses the point 0.
unfoldable pub read_escape_point : Bytes → Option (ℕ × Bytes)
unfolding read_u16 low_surrogate
read_escape_point bs = elim (read_u16 bs) [
  | none ↦ none
  | some (point, rest) ↦
      if within 0xd800 0xdbff point
      then low_surrogate point rest
      else if within 0xdc00 0xdfff point
      then none
      else some (point, rest)
]

unfoldable pub simple_escape : ℕ → Option ℕ
simple_escape escape =
    if escape == b'"'
    then some b'"'
    else if escape == b'\\'
    then some b'\\'
    else if escape == b'/'
    then some b'/'
    else if escape == b'b'
    then some 0x08
    else if escape == b'f'
    then some 0x0c
    else if escape == b'n'
    then some b'\n'
    else if escape == b'r'
    then some b'\r'
    else if escape == b't'
    then some b'\t'
    else none

-- What an escape writes and the rest behind it; `none` is SYNTAX at the reverse solidus.
unfoldable pub point_escape : Bytes → Option (Bytes × Bytes)
point_escape bs = elim (read_escape_point bs) [
  | none ↦ none
  | some (point, rest) ↦ if point == 0 then none else some (encode_utf8 point, rest)
]

unfoldable pub letter_escape : ℕ → Bytes → Option (Bytes × Bytes)
letter_escape letter bs = elim (simple_escape letter) [
  | none ↦ none
  | some byte ↦ some (byte ∷ [], bs)
]

unfoldable pub escape : Bytes → Option (Bytes × Bytes)
unfolding point_escape letter_escape
escape [] = none
escape (letter ∷ bs) = if letter == b'u' then point_escape bs else letter_escape letter bs

-- The bytes before the next reverse solidus, and the rest.
unfoldable pub plain_run : Bytes → Bytes × Bytes
plain_run [] = ([], [])
plain_run (b ∷ bs) =
    let (run, rest) = plain_run bs in if b == b'\\' then ([], b ∷ bs) else (b ∷ run, rest)

-- The result; `stuck` is that the fuel ran out, which does not happen (`Literal/Text`).
pub data Decoded : Type 0 where
  text : Bytes → Decoded
  bad : Error → ℕ → Decoded
  stuck : Decoded

-- The loop for the profiles with escapes: each round takes a run of bytes, or an escape.
unfoldable pub decode_loop : ℕ → Bytes → ℕ → Bytes → Decoded
decode_loop fuel [] at out = text out
decode_loop zero (b ∷ bs) at out = stuck
decode_loop (suc fuel) (b ∷ bs) at out = elim (b == b'\\') [
  | true ↦ elim (escape bs) [
    | none ↦ bad syntax at
    | some (written, rest) ↦
        decode_loop fuel rest (at + 1 + (length bs - length rest)) (out ++ written)
  ]
  | false ↦
      let (run, rest) = plain_run (b ∷ bs) in
      let valid = utf8_valid_prefix run in
      elim (valid == length run) [
        | true ↦ decode_loop fuel rest (at + length run) (out ++ run)
        | false ↦ bad utf8 (at + valid)
      ]
]

-- The loop for CONTRACT_ASCII.
unfoldable pub decode_ascii : Bytes → ℕ → Bytes → Decoded
decode_ascii [] at out = text out
decode_ascii (b ∷ bs) at out =
    let rest = decode_ascii bs (at + 1) (out ++ b ∷ []) in
    if ltb b 0x20 || ltb 0x7e b || b == b'\\' then bad syntax at else rest

unfoldable pub decode_string : Profile → Bytes → Decoded
unfolding decode_loop decode_ascii
decode_string contract_ascii bs = decode_ascii bs 0 []
decode_string rfc8259 bs = decode_loop (length bs) bs 0 []
decode_string rfc8259_last_wins bs = decode_loop (length bs) bs 0 []
