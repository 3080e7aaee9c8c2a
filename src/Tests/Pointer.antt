-- ===== src/Tests/Pointer.antt =====
-- src/pointer.c at concrete inputs.
use maelys_json.Base.{ℕ, ◌≡◌, refl, [], ◌∷◌, ◌++◌, codes, Bytes, Bool, true, length, take, arith}
use maelys_json.Pointer.{
  scan, scan_loop, error_pointer, emit_byte, emit_finish, emit_characters, emit_token, index_digits,
  emit_digits, emit_index, key_bytes, emit_key, is_delimiter, string_loop, skip_string, skip_word,
  scan_step, emit_frames,
}
use maelys_json.Pointer.Emitting.{pointer_text, error_pointer-text}
use maelys_json.Utf8.Literal.{
  hex_value, hex_digits, read_u16, low_surrogate, read_escape_point, simple_escape, point_escape,
  letter_escape, escape, plain_run, decode_loop, decode_ascii, decode_string,
}
use maelys_json.Utf8.Validate.{utf8_valid_prefix, sequence}
use maelys_json.Utf8.Points.{utf8_decode, encode_utf8}
use maelys_json.Parser.State.{is_space}
use maelys_json.Pointer.Scanning.{Scans, scan_loop-Scans}

abbrev always : ℕ → Bool
always n = true

-- The second element of "a/b" starts at offset 12.
abbrev nested : Bytes
nested = codes "{\"a/b\": [1, tru]}"

error_pointer-text_example : error_pointer true always nested 12 4 ≡ (
  take 3 (pointer_text always nested (scan nested 12) 0) ++ 0 ∷ [],
  length (pointer_text always nested (scan nested 12) 0),
)
error_pointer-text_example = error_pointer-text always nested 12 4 (omega arith)

scan_loop-Scans_example : Scans 12 (scan_loop 12 nested 12 [] 0)
scan_loop-Scans_example = scan_loop-Scans nested 12 (omega arith)

nested_pointers :
    (error_pointer true always nested 12 64 ≡ (codes "/a~1b/1" ++ 0 ∷ [], 7))
    × (error_pointer true always nested 12 4 ≡ (codes "/a~" ++ 0 ∷ [], 7))
unfolding emit_byte emit_finish emit_characters emit_token index_digits emit_digits emit_index
    key_bytes emit_key is_delimiter string_loop skip_string skip_word scan_step scan_loop scan
    emit_frames error_pointer is_space hex_value hex_digits read_u16 low_surrogate read_escape_point
    simple_escape point_escape letter_escape escape plain_run decode_loop decode_ascii decode_string
    utf8_decode encode_utf8 utf8_valid_prefix sequence
nested_pointers = (refl, refl)
