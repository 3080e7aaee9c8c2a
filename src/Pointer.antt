-- ===== src/Pointer.antt =====
-- src/pointer.c: the JSON Pointer of the value at a byte offset, from a rescan of the input. The
-- reads stay inside the input; the input, the error and the offset are given.
pub mod Emitting
pub mod Scanning
use maelys_json.Base.{
  ℕ, zero, suc, ◌+◌, ◌-◌, ◌/◌, ◌%◌, Bool, true, false, not, ◌&&◌, ◌||◌, List, [], ◌∷◌, ◌++◌, Bytes,
  get_or, length, take, drop, ltb, ◌==◌, if◌then◌else◌,
}
use maelys_json.Parser.State.{is_space}
use maelys_json.Types.{rfc8259, depth_ceiling}
use maelys_json.Utf8.Literal.{Decoded, text, bad, stuck, decode_string}

-- `frame_t`
pub record Frame : Type 0 where
  pub is_object : Bool
  pub index : ℕ
  pub key_start : ℕ
  pub key_end : ℕ
  pub has_key : Bool
  pub in_value : Bool

-- `emitter_t`; `buffer` has the bytes that were stored, which fill it from the front.
pub record Emitter : Type 0 where
  pub buffer : Bytes
  pub capacity : ℕ
  pub length : ℕ

unfoldable pub emit_byte : ℕ → Emitter → Emitter
emit_byte byte e = record e {
  buffer = if ltb (e.length + 1) e.capacity then e.buffer ++ byte ∷ [] else e.buffer;
  length = e.length + 1;
}

-- What the caller's buffer holds behind the call, with the final NUL if there is room for one.
unfoldable pub emit_finish : Emitter → Bytes
emit_finish e = if e.capacity == 0 then [] else e.buffer ++ 0 ∷ []

unfoldable pub emit_characters : Bytes → Emitter → Emitter
emit_characters [] e = e
emit_characters (b ∷ bs) e = emit_characters bs (
    if b == b'~'
    then emit_byte b'0' (emit_byte b'~' e)
    else if b == b'/'
    then emit_byte b'1' (emit_byte b'~' e)
    else emit_byte b e)

unfoldable pub emit_token : Bytes → Emitter → Emitter
emit_token bytes e = emit_characters bytes (emit_byte b'/' e)

-- The digits, which the code collects from the last one on; a number has fewer than its value and
-- one more.
unfoldable pub index_digits : ℕ → ℕ → Bytes → Bytes
index_digits zero n digits = digits
index_digits (suc fuel) n digits = elim (n / 10 == 0) [
  | true ↦ (b'0' + n % 10) ∷ digits
  | false ↦ index_digits fuel (n / 10) ((b'0' + n % 10) ∷ digits)
]

unfoldable pub emit_digits : Bytes → Emitter → Emitter
emit_digits [] e = e
emit_digits (b ∷ bs) e = emit_digits bs (emit_byte b e)

unfoldable pub emit_index : ℕ → Emitter → Emitter
emit_index index e = emit_digits (index_digits (index + 1) index []) (emit_byte b'/' e)

-- The bytes that `emit_key` emits: the decoded key, or the raw one without memory or where it does
-- not decode.
unfoldable pub key_bytes : Bool → Bytes → Frame → Bytes
key_bytes granted bytes f =
    let raw = take (f.key_end - f.key_start) (drop f.key_start bytes) in
    if granted then elim (decode_string rfc8259 raw) [ text decoded ↦ decoded | _ ↦ raw ] else raw

unfoldable pub emit_key : Bool → Bytes → Frame → Emitter → Emitter
emit_key granted bytes f e = emit_token (key_bytes granted bytes f) e

unfoldable pub is_delimiter : ℕ → Bool
is_delimiter byte = byte == b',' || byte == b'}' || byte == b']' || byte == b':' || is_space byte

abbrev pub byte_at : Bytes → ℕ → ℕ
byte_at bytes pos = get_or bytes pos 0

unfoldable pub string_loop : ℕ → Bytes → ℕ → ℕ
string_loop zero bytes pos = pos
string_loop (suc fuel) bytes pos =
    let more = string_loop fuel bytes (pos + (if byte_at bytes pos == b'\\' then 2 else 1)) in
    if ltb pos (length bytes) && not (byte_at bytes pos == b'"') then more else pos

unfoldable pub skip_string : Bytes → ℕ → ℕ
skip_string bytes pos =
    let end = string_loop (length bytes) bytes (pos + 1) in
    if ltb end (length bytes) then end + 1 else length bytes

unfoldable pub skip_word : ℕ → Bytes → ℕ → ℕ
skip_word zero bytes pos = pos
skip_word (suc fuel) bytes pos =
    let more = skip_word fuel bytes (pos + 1) in
    if ltb pos (length bytes) && not (is_delimiter (byte_at bytes pos)) then more else pos

abbrev pub new_frame : Bool → Frame
new_frame object = record {
  is_object = object;
  index = 0;
  key_start = 0;
  key_end = 0;
  has_key = false;
  in_value = false;
}

-- The changes of the top frame; the frames in use are a list, the top one first.
abbrev pub on_top : (Frame → Frame) → List Frame → List Frame
on_top f [] = []
on_top f (top ∷ frames) = f top ∷ frames

abbrev pub on_comma : Frame → Frame
on_comma f =
    if f.is_object
    then record f { has_key = false; in_value = false }
    else record f { index = f.index + 1 }

abbrev pub on_colon : Frame → Frame
on_colon f = if f.is_object && f.has_key then record f { in_value = true } else f

-- A string from `pos` to `end`.
abbrev pub on_string : Bytes → ℕ → ℕ → Frame → Frame
on_string bytes pos end f =
    if f.is_object && not f.in_value
    then record f {
      key_start = pos + 1;
      key_end =
          if ltb (pos + 1) end && byte_at bytes (end - 1) == b'"' && ltb pos (end - 1)
          then end - 1
          else end;
      has_key = true;
    }
    else f

abbrev pub pop_frame : List Frame → List Frame
pop_frame [] = []
pop_frame (top ∷ frames) = frames

-- One round of `scan`.
unfoldable pub scan_step : Bytes → List Frame → ℕ → List Frame × ℕ
scan_step bytes frames pos =
    let byte = byte_at bytes pos in
    if is_space byte
    then (frames, pos + 1)
    else if byte == b'{' || byte == b'['
    then (
      if ltb (length frames) depth_ceiling then new_frame (byte == b'{') ∷ frames else frames,
      pos + 1,
    )
    else if byte == b'}' || byte == b']'
    then (pop_frame frames, pos + 1)
    else if byte == b','
    then (on_top on_comma frames, pos + 1)
    else if byte == b':'
    then (on_top on_colon frames, pos + 1)
    else if byte == b'"'
    then (on_top (on_string bytes pos (skip_string bytes pos)) frames, skip_string bytes pos)
    else (frames, skip_word (length bytes) bytes pos)

unfoldable pub scan_loop : ℕ → Bytes → ℕ → List Frame → ℕ → List Frame × ℕ
scan_loop zero bytes limit frames pos = (frames, pos)
scan_loop (suc fuel) bytes limit frames pos =
    let r = scan_step bytes frames pos in
    let more = scan_loop fuel bytes limit r.0 r.1 in if ltb pos limit then more else (frames, pos)

-- The frames from the outermost on.
unfoldable pub scan : Bytes → ℕ → List Frame
scan bytes limit = reversed (scan_loop limit bytes limit [] 0).0 []
  where
    reversed : List Frame → List Frame → List Frame
    reversed [] out = out
    reversed (f ∷ frames) out = reversed frames (f ∷ out)

-- The loop over the frames; `keys` says which allocations of `emit_key` succeed.
unfoldable pub emit_frames : (ℕ → Bool) → Bytes → List Frame → ℕ → Emitter → Emitter
emit_frames keys bytes [] i e = e
emit_frames keys bytes (f ∷ frames) i e =
    if f.is_object
    then if not f.has_key || not f.in_value
      then e
      else emit_frames keys bytes frames (i + 1) (emit_key (keys i) bytes f e)
    else emit_frames keys bytes frames (i + 1) (emit_index f.index e)

abbrev pub new_emitter : ℕ → Emitter
new_emitter capacity = record { buffer = []; capacity = capacity; length = 0 }

-- The buffer behind the call, and the result. A null buffer has no capacity.
unfoldable pub error_pointer : Bool → (ℕ → Bool) → Bytes → ℕ → ℕ → Bytes × ℕ
error_pointer granted keys bytes offset capacity =
    let limit = if ltb offset (length bytes) then offset else length bytes in
    let e = emit_frames keys bytes (scan bytes limit) 0 (new_emitter capacity) in
    if length bytes == 0 || not granted
    then (emit_finish (new_emitter capacity), 0)
    else (emit_finish e, e.length)
