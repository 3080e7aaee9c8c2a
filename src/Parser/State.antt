-- ===== src/Parser/State.antt =====
-- The parser's state, and the steps that do not recurse: tokens, spaces, delimiters.
pub mod Runs
pub mod Tokens
use maelys_json.Base.{
  ℕ, zero, suc, ◌+◌, ◌-◌, ◌*◌, Bool, true, false, not, ◌&&◌, ◌||◌, List, [], ◌∷◌, ◌++◌, Option,
  none, some, Bytes, get_or, set, take, drop, length, ltb, leb, ◌==◌, Outcome, ok, err, ◌>>=◌,
  if◌then◌else◌,
}
use maelys_json.Common.Position.{ErrorAt, error_set}
use maelys_json.Document.{Links, Token, Document}
use maelys_json.Document.Access.{no_links, no_token, token_at, text_of}
use maelys_json.Keyset.{Key, Keyset}
use maelys_json.Types.{Error, limit, syntax, Limits, Profile, contract_ascii, Kind, size_max}

-- `parser_t`. The error output is given; a failure carries what was recorded in it. `growth` is
-- whether the key set may grow when it has to.
pub record Parser : Type 0 where
  pub document : Document
  pub profile : Profile
  pub limits : Limits
  pub offset : ℕ
  pub keys : Keyset
  pub growth : Bool

-- A failed parse: the result, and the position if one was recorded. `out_of_fuel` is no result of
-- the program.
pub data Failure : Type 0 where
  failed : Error → Option ErrorAt → Failure
  out_of_fuel : Failure

abbrev pub Parsed : Type 0 → Type 0
Parsed A = Outcome Failure (A × Parser)

-- `fail`
abbrev pub fail : {A : Type 0} → Parser → Error → ℕ → Outcome Failure A
fail p e offset = err (failed e (some (error_set e p.document.bytes offset)))

abbrev pub size : Parser → ℕ
size p = length p.document.bytes

-- `token_key`; a key's token has a parent.
unfoldable pub token_key : Document → ℕ → Key
token_key d index =
    let t = token_at d index in
    record {
      parent = elim t.links.parent [ none ↦ size_max | some parent ↦ parent ];
      bytes = text_of t;
    }

unfoldable pub is_space : ℕ → Bool
is_space byte = byte == b' ' || byte == b'\t' || byte == b'\r' || byte == b'\n'

unfoldable pub at_end : Parser → Bool
at_end p = leb (size p) p.offset

-- `document->bytes[offset]`; behind the input stands a NUL.
unfoldable pub current : Parser → ℕ
current p = get_or p.document.bytes p.offset 0

abbrev pub advance : Parser → Parser
advance p = record p { offset = p.offset + 1 }

unfoldable pub skip_loop : ℕ → Parser → Parser
skip_loop zero p = p
skip_loop (suc fuel) p =
    let rest = skip_loop fuel (advance p) in
    if not (at_end p) && is_space (current p) then rest else p

-- No more rounds than bytes.
unfoldable pub skip_space : Parser → Parser
unfolding skip_loop
skip_space p = skip_loop (size p) p

-- `maelys_json_links_append` on the token array.
abbrev set_sibling : ℕ → Token → Token
set_sibling index t = record t { links = record (t.links) { next_sibling = some index } }

append_last : List Token → Option ℕ → ℕ → List Token
append_last tokens none index = tokens
append_last tokens (some last) index =
    set tokens last (set_sibling index (get_or tokens last no_token))

append_container : Token → ℕ → Token
append_container t index = record t {
  links = record (t.links) {
    first_child = elim t.links.last_child [ none ↦ some index | some _ ↦ t.links.first_child ];
    last_child = some index;
    child_count = t.links.child_count + 1;
  };
}

unfoldable pub links_append : List Token → Option ℕ → ℕ → List Token
unfolding append_last append_container
links_append tokens none index = tokens
links_append tokens (some parent) index =
    let container = get_or tokens parent no_token in
    set (append_last tokens container.links.last_child index) parent
      (append_container container index)

unfoldable pub new_token : Kind → ℕ → Option ℕ → Bool → Token
new_token kind start parent object_key = record no_token {
  links = record no_links { parent = parent };
  kind = kind;
  start = start;
  end = start;
  object_key = object_key;
}

unfoldable pub add_token : Kind → ℕ → Option ℕ → Bool → Parser → Parsed ℕ
unfolding new_token links_append
add_token kind start parent object_key p =
    let d = p.document in
    let index = length d.tokens in
    if leb d.token_capacity index
    then fail p limit start
    else ok (
      index,
      record p {
        document = record d {
          tokens =
              links_append (d.tokens ++ new_token kind start parent object_key ∷ []) parent index;
        };
      },
    )

-- A change of one token of the document.
abbrev pub update_token : ℕ → (Token → Token) → Parser → Parser
update_token index change p = record p {
  document = record (p.document) {
    tokens = set p.document.tokens index (change (token_at p.document index));
  };
}

-- `maelys_json_document_t` bytes from `start` up to `end`.
abbrev pub slice : Bytes → ℕ → ℕ → Bytes
slice bytes start end = take (end - start) (drop start bytes)

-- Whether the container is closed.
unfoldable pub container_delimiter : ℕ → Parser → Parsed Bool
container_delimiter closing p =
    let q = skip_space p in
    if at_end q
    then fail q syntax q.offset
    else if current q == closing
    then ok (true, advance q)
    else if not (current q == b',')
    then fail (advance q) syntax q.offset
    else ok (false, skip_space (advance q))
