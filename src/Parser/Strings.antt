-- ===== src/Parser/Strings.antt =====
-- `scan_string_body` and `parse_string` of src/parser.c.
pub mod Runs
use maelys_json.Base.{
  ℕ, zero, suc, ◌+◌, ◌-◌, ◌*◌, Bool, true, false, not, ◌&&◌, ◌||◌, List, [], ◌∷◌, Option, none,
  some, Bytes, set, take, drop, length, ltb, leb, ◌==◌, Outcome, ok, err, ◌>>=◌, if◌then◌else◌,
}
use maelys_json.Common.Position.{ErrorAt, error_set}
use maelys_json.Document.{Token, Document}
use maelys_json.Document.Access.{token_at}
use maelys_json.Keyset.{Keyset, keyset_insert, keyset_insert_last}
use maelys_json.Parser.State.{
  Parser, Failure, failed, out_of_fuel, Parsed, fail, size, token_key, at_end, current, advance,
  add_token, update_token, slice,
}
use maelys_json.Types.{
  Error, syntax, Profile, contract_ascii, rfc8259, rfc8259_last_wins, Kind, string,
}
use maelys_json.Utf8.Literal.{Decoded, text, bad, stuck, decode_string}

abbrev pub is_ascii_profile : Profile → Bool
is_ascii_profile contract_ascii = true
is_ascii_profile _ = false

-- The loop: the offset of the closing quote, and the parser behind it. At the end of the input the
-- result is an error with no position.
unfoldable pub scan_loop : ℕ → Parser → Parsed ℕ
scan_loop zero p = err out_of_fuel
scan_loop (suc fuel) p =
    let plain = scan_loop fuel (advance p) in
    let escaped = scan_loop fuel (advance (advance p)) in
    let byte = current p in
    if at_end p
    then err (failed syntax none)
    else if byte == b'"'
    then ok (p.offset, advance p)
    else if ltb byte 0x20
    then fail p syntax p.offset
    else if is_ascii_profile p.profile && (byte == b'\\' || ltb 0x7e byte)
    then fail p syntax p.offset
    else if byte == b'\\'
    then (if at_end (advance p) then err (failed syntax none) else escaped)
    else plain

-- A round for each byte, and one that sees the end.
unfoldable pub scan_string_body : Parser → Parsed ℕ
unfolding scan_loop
scan_string_body p = scan_loop (size p + 1) p

-- An error that recorded no position gets the string's opening quote.
unfoldable pub scanned : Parser → ℕ → Outcome Failure (ℕ × Parser) → Outcome Failure (ℕ × Parser)
scanned p opening (ok r) = ok r
scanned p opening (err (failed e none)) = fail p syntax opening
scanned p opening (err (failed e (some at))) = err (failed e (some at))
scanned p opening (err out_of_fuel) = err out_of_fuel

abbrev mark_superseded : Token → Token
mark_superseded t = record t { superseded = true }

-- The old key of a repeated name is marked and counted.
unfoldable pub supersede : Option ℕ → Parser → Parser
supersede none p = p
supersede (some previous) p =
    let q = update_token previous mark_superseded p in
    record q { document = record (q.document) { duplicate_count = q.document.duplicate_count + 1 } }

key_failure : {A : Type 0} → Parser → ℕ → Outcome Error A → Outcome Failure A
key_failure p opening (ok a) = ok a
key_failure p opening (err e) = fail p e opening

add_unique : ℕ → ℕ → Parser → Parsed ℕ
unfolding key_failure
add_unique index opening p = do
  keys ← key_failure p opening (keyset_insert (token_key p.document) p.growth p.keys index)
  ok (index, record p { keys = keys })

-- The end of `parse_string`: a key enters the key set.
unfoldable pub add_key : Profile → ℕ → ℕ → Parser → Parsed ℕ
unfolding key_failure add_unique
add_key rfc8259_last_wins index opening p = do
  inserted ← key_failure p opening (keyset_insert_last (token_key p.document) p.growth p.keys index)
  ok (index, supersede inserted.1 (record p { keys = inserted.0 }))
add_key rfc8259 index opening p = add_unique index opening p
add_key contract_ascii index opening p = add_unique index opening p

-- The text of the token, its end, and the arena bytes with the NUL.
unfoldable pub store_text : ℕ → ℕ → Bytes → Parser → Parser
store_text index end bytes p =
    let q = update_token index (λ t. record t { end = end; text = some bytes }) p in
    record q {
      document = record (q.document) { arena_used = q.document.arena_used + (length bytes + 1) };
    }

unfoldable pub decode_text : ℕ → ℕ → ℕ → Decoded → Parser → Parsed ℕ
decode_text index start end (text bytes) p = ok (index, store_text index end bytes p)
decode_text index start end (bad e at) p = fail p e (start + at)
decode_text index start end stuck p = err out_of_fuel

unfoldable pub parse_string : Option ℕ → Bool → Parser → Parsed ℕ
parse_string parent object_key p =
    let opening = p.offset in
    let start = p.offset + 1 in
    let read : Parsed ℕ = do
      (end, q) ← scanned p opening (scan_string_body (advance p))
      (index, q) ← add_token string start parent object_key q
      (index, q) ←
          decode_text index start end (decode_string q.profile (slice q.document.bytes start end)) q
      if object_key then add_key q.profile index opening q else ok (index, q)
    in if at_end p || not (current p == b'"') then fail p syntax opening else read
