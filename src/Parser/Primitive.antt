-- ===== src/Parser/Primitive.antt =====
-- `parse_primitive` of src/parser.c: true, false, null and numbers.
pub mod Runs
use maelys_json.Base.{
  ℕ, zero, suc, ◌+◌, ◌-◌, Bool, true, false, not, ◌&&◌, ◌||◌, [], ◌∷◌, Option, none, some, Bytes,
  codes, length, ◌==◌, Outcome, ok, err, ◌>>=◌, if◌then◌else◌,
}
use maelys_json.Common.Number.{number_syntax}
use maelys_json.Document.{Token, Document}
use maelys_json.Document.Access.{same_bytes}
use maelys_json.Parser.State.{
  Parser, Parsed, Failure, fail, size, is_space, at_end, current, advance, add_token, update_token,
  slice,
}
use maelys_json.Parser.Strings.{store_text}
use maelys_json.Types.{syntax, Kind, boolean, null, number}

unfoldable pub is_delimiter : ℕ → Bool
is_delimiter byte = byte == b',' || byte == b'}' || byte == b']' || is_space byte

-- The loop over the lexeme.
unfoldable pub lexeme_end : ℕ → Parser → Parser
lexeme_end zero p = p
lexeme_end (suc fuel) p =
    let rest = lexeme_end fuel (advance p) in
    if not (at_end p) && not (is_delimiter (current p)) then rest else p

-- The type that a lexeme has, and the value of a boolean.
unfoldable pub lexeme_kind : Bytes → Option (Kind × Bool)
lexeme_kind lexeme =
    if same_bytes lexeme (codes "true")
    then some (boolean, true)
    else if same_bytes lexeme (codes "false")
    then some (boolean, false)
    else if same_bytes lexeme (codes "null")
    then some (null, false)
    else if number_syntax lexeme
    then some (number, false)
    else none

store_primitive : Kind → ℕ → Bytes → Parser → Parser
store_primitive number index lexeme p = store_text index p.offset lexeme p
store_primitive kind index lexeme p = p

-- The part behind the loop: the token, if the lexeme is of a kind.
add_primitive : Option ℕ → ℕ → Option (Kind × Bool) → Parser → Parsed ℕ
unfolding store_primitive
add_primitive parent start none q = fail q syntax start
add_primitive parent start (some (kind, value)) q = do
  (index, r) ← add_token kind start parent false q
  let s = update_token index (λ t. record t { end = r.offset; boolean_value = value }) r
  ok (index, store_primitive kind index (slice q.document.bytes start q.offset) s)

unfoldable pub parse_primitive : Option ℕ → Parser → Parsed ℕ
unfolding lexeme_end add_primitive
parse_primitive parent p =
    let q = lexeme_end (size p) p in
    add_primitive parent p.offset (lexeme_kind (slice q.document.bytes p.offset q.offset)) q
