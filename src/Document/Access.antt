-- ===== src/Document/Access.antt =====
-- The readers of src/document.c. Where a pointer may be null the argument is an `Option`; the
-- output pointers are given. An index outside an array is undefined behaviour in C and reads
-- `no_token` or 0 here; a handle out of range is refused by `token_of`, as in the code.
pub mod Members
use maelys_json.Base.{
  ℕ, zero, suc, ◌+◌, ◌-◌, ◌*◌, ◌/◌, ◌%◌, Bool, true, false, not, ◌&&◌, List, [], ◌∷◌, Option, none,
  some, Bytes, get_or, length, ltb, leb, ◌==◌, Outcome, ok, err, ◌>>=◌, if◌then◌else◌,
}
use maelys_json.Document.{Links, Token, Document}
use maelys_json.Types.{
  Error, argument, type, range, not_found, Kind, none_kind, object, array, string, number, boolean,
  null,
}

abbrev pub no_links : Links
no_links = record {
  parent = none;
  first_child = none;
  last_child = none;
  next_sibling = none;
  child_count = 0;
}

abbrev pub no_token : Token
no_token = record {
  links = no_links;
  kind = none_kind;
  start = 0;
  end = 0;
  text = none;
  children_offset = 0;
  object_key = false;
  boolean_value = false;
  superseded = false;
}

abbrev pub same_kind : Kind → Kind → Bool
same_kind none_kind none_kind = true
same_kind object object = true
same_kind array array = true
same_kind string string = true
same_kind number number = true
same_kind boolean boolean = true
same_kind null null = true
same_kind _ _ = false

-- `memcmp` of equal sizes.
unfoldable pub same_bytes : Bytes → Bytes → Bool
same_bytes [] [] = true
same_bytes (x ∷ xs) (y ∷ ys) = x == y && same_bytes xs ys
same_bytes _ _ = false

abbrev pub text_of : Token → Bytes
text_of t = elim t.text [ none ↦ [] | some bytes ↦ bytes ]

-- `document->tokens[index]`
abbrev pub token_at : Document → ℕ → Token
token_at d index = get_or d.tokens index no_token

unfoldable pub document_duplicate_count : Document → ℕ
document_duplicate_count d = d.duplicate_count

unfoldable pub document_root : Document → Option ℕ
document_root d = if length d.tokens == 0 then none else some 0

unfoldable pub value_type : Document → ℕ → Kind
value_type d value = if ltb value (length d.tokens) then (token_at d value).kind else none_kind

unfoldable pub token_of : Document → ℕ → Kind → Outcome Error Token
token_of d value expected =
    if leb (length d.tokens) value
    then err argument
    else if not (same_kind (token_at d value).kind expected)
    then err type
    else ok (token_at d value)

unfoldable pub child_at : Document → Token → ℕ → ℕ
child_at d token position = get_or d.children (token.children_offset + position) 0

-- The search of `maelys_json_object_get_sized`, at member `i` with `left` members to go.
unfoldable pub find_member : Document → Token → Bytes → ℕ → ℕ → Outcome Error ℕ
find_member d container key i zero = err not_found
find_member d container key i (suc left) =
    let key_token = token_at d (child_at d container (2 * i)) in
    let later = find_member d container key (i + 1) left in
    if same_bytes (text_of key_token) key then ok (child_at d container (2 * i + 1)) else later

unfoldable pub object_get : Document → ℕ → Bytes → Outcome Error ℕ
object_get d object_value key = do
  container ← token_of d object_value object
  find_member d container key 0 (container.links.child_count / 2)

unfoldable pub object_size : Document → ℕ → Outcome Error ℕ
object_size d object_value = do
  container ← token_of d object_value object
  ok (container.links.child_count / 2)

-- The key and the value of a member.
unfoldable pub object_member_at : Document → ℕ → ℕ → Outcome Error (Bytes × ℕ)
object_member_at d object_value index = do
  container ← token_of d object_value object
  if leb (container.links.child_count / 2) index
      then err range
      else ok (
        text_of (token_at d (child_at d container (2 * index))),
        child_at d container (2 * index + 1),
      )

unfoldable pub array_size : Document → ℕ → Outcome Error ℕ
array_size d array_value = do
  container ← token_of d array_value array
  ok container.links.child_count

unfoldable pub array_get : Document → ℕ → ℕ → Outcome Error ℕ
array_get d array_value index = do
  container ← token_of d array_value array
  if leb container.links.child_count index then err range else ok (child_at d container index)

unfoldable pub text_view : Document → ℕ → Kind → Outcome Error Bytes
text_view d value expected = do token ← token_of d value expected; ok (text_of token)

unfoldable pub value_string : Document → ℕ → Outcome Error Bytes
value_string d value = text_view d value string

unfoldable pub value_number_text : Document → ℕ → Outcome Error Bytes
value_number_text d value = text_view d value number

unfoldable pub value_boolean : Document → ℕ → Outcome Error Bool
value_boolean d value = do token ← token_of d value boolean; ok token.boolean_value

unfoldable pub value_is_null : Document → ℕ → Bool
value_is_null d value = ltb value (length d.tokens) && same_kind (token_at d value).kind null
