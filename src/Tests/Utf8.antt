-- ===== src/Tests/Utf8.antt =====
-- src/utf8.c at concrete inputs.
use maelys_json.Base.{
  ◌++◌, length, ◌≡◌, refl, [], ◌∷◌, codes, Bytes, List, ℕ, true, ◌↔◌, arith, All,
}
use maelys_json.Types.{rfc8259, rfc8259_last_wins}
use maelys_json.Utf8.Literal.{decode_string, text, escape, read_escape_point, hex_value}
use maelys_json.Utf8.Literal.Escaped.{decode_string-escaped}
use maelys_json.Utf8.Literal.Spelling.{escaped}
use maelys_json.Utf8.Literal.Text.{IsText}
use maelys_json.Utf8.Literal.Decoding.{Ensures, decode_string-Ensures}
use maelys_json.Utf8.Scalars.{
  encode_all, utf8_validate_iff, IsLongest, utf8_valid_prefix-IsLongest, utf8_decode-encode_utf8,
}
use maelys_json.Utf8.Sequence.{IsScalar}
use maelys_json.Utf8.Points.{encode_utf8, utf8_decode}
use maelys_json.Utf8.Validate.{utf8_validate, utf8_valid_prefix}
use maelys_json.Utf8.Order.{utf16_compare}
use maelys_json.Utf8.Order.Units.{units, lex, utf16_compare-lex}
use maelys_json.Utf8.Order.Total.{IsTotal, utf16_compare-IsTotal, rank, utf16_compare-rank}
use Prim.Native.Nat.{compare}

-- A line feed, "é" and U+1F600.
abbrev mixed : Bytes
mixed = 0x0a ∷ 0xc3 ∷ 0xa9 ∷ 0xf0 ∷ 0x9f ∷ 0x98 ∷ 0x80 ∷ []

mixed-IsText : IsText mixed
mixed-IsText = record {
  points = 0x0a ∷ 0xe9 ∷ 0x1f600 ∷ [];
  characters = omega arith;
  spells = unfold encode_all encode_utf8 in refl;
}

decode_string-escaped_example :
    (decode_string rfc8259 (escaped mixed) ≡ text mixed)
    × (decode_string rfc8259_last_wins (escaped mixed) ≡ text mixed)
decode_string-escaped_example = decode_string-escaped mixed-IsText

surrogate_pair :
    decode_string rfc8259 (codes "\\ud83d\\ude00") ≡ text (0xf0 ∷ 0x9f ∷ 0x98 ∷ 0x80 ∷ [])
unfolding decode_string escape read_escape_point hex_value encode_utf8
surrogate_pair = refl

decode_string-Ensures_example : Ensures 6 6 (decode_string rfc8259 (codes "ab\\u00"))
decode_string-Ensures_example = decode_string-Ensures rfc8259 (codes "ab\\u00") (omega arith)

utf8_validate_iff_example :
    (utf8_validate mixed ≡ true) ↔ ((ps : List ℕ) × All IsScalar ps × (mixed ≡ encode_all ps))
utf8_validate_iff_example = utf8_validate_iff mixed (omega arith)

utf8_valid_prefix-IsLongest_example :
    IsLongest (0x61 ∷ 0xed ∷ 0xa0 ∷ 0x80 ∷ []) (utf8_valid_prefix (0x61 ∷ 0xed ∷ 0xa0 ∷ 0x80 ∷ []))
utf8_valid_prefix-IsLongest_example =
    utf8_valid_prefix-IsLongest (0x61 ∷ 0xed ∷ 0xa0 ∷ 0x80 ∷ []) (omega arith)

utf8_decode-encode_utf8_example :
    utf8_decode (encode_utf8 0x1f600 ++ mixed) ≡ (0x1f600, length (encode_utf8 0x1f600))
utf8_decode-encode_utf8_example = utf8_decode-encode_utf8 0x1f600 mixed (omega arith)

utf16_compare-lex_example :
    utf16_compare (encode_all (0x1f600 ∷ [])) (encode_all (0xfffd ∷ []))
    ≡ lex (units (0x1f600 ∷ [])) (units (0xfffd ∷ []))
utf16_compare-lex_example =
    utf16_compare-lex (0x1f600 ∷ []) (0xfffd ∷ []) (omega arith) (omega arith)

utf16_compare-IsTotal_example : IsTotal (0x1f600 ∷ []) (0xfffd ∷ []) (0xfffd ∷ 0x61 ∷ [])
utf16_compare-IsTotal_example =
    utf16_compare-IsTotal (0x1f600 ∷ []) (0xfffd ∷ []) (0xfffd ∷ 0x61 ∷ []) (omega arith)
      (omega arith) (omega arith)

utf16_compare-rank_example :
    utf16_compare (encode_all (0x61 ∷ 0x1f600 ∷ [])) (encode_all (0x61 ∷ 0xfffd ∷ []))
    ≡ compare (rank 0x1f600) (rank 0xfffd)
utf16_compare-rank_example =
    utf16_compare-rank (0x61 ∷ []) [] [] 0x1f600 0xfffd (omega arith) (omega arith) (omega arith)
