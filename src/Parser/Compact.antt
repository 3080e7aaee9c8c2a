-- ===== src/Parser/Compact.antt =====
-- `build_children`, `compact_walk` and `compact_document` of src/parser.c: the document after the
-- parse. Walks along sibling links and into children are on fuel; links lead to later tokens, so
-- the number of tokens is enough for each.
pub mod Sizes
use maelys_json.Base.{
  ℕ, zero, suc, ◌+◌, ◌*◌, Bool, true, false, ◌&&◌, ◌||◌, not, List, [], ◌∷◌, ◌++◌, Option, none,
  some, Bytes, length, ◌==◌, Outcome, ok, err, ◌>>=◌, if◌then◌else◌, set,
}
use maelys_json.Document.{Links, Token, Document}
use maelys_json.Document.Access.{no_links, token_at, same_kind, text_of}
use maelys_json.Parser.State.{links_append}
use maelys_json.Types.{Error, memory, Kind, object, array}

-- The children of a container, from its first one along the sibling links.
unfoldable pub sibling_walk : ℕ → Document → Option ℕ → List ℕ
sibling_walk zero d child = []
sibling_walk (suc fuel) d none = []
sibling_walk (suc fuel) d (some child) =
    child ∷ sibling_walk fuel d (token_at d child).links.next_sibling

unfoldable pub is_container : Token → Bool
is_container t = same_kind t.kind object || same_kind t.kind array

-- The loop over the tokens from `index` on, `rounds` of them; the cursor is the length of the
-- array that is filled.
unfoldable pub children_loop : ℕ → ℕ → Document → Document
children_loop zero index d = d
children_loop (suc rounds) index d =
    let t = token_at d index in
    let laid = record d {
      tokens = set d.tokens index (record t { children_offset = length d.children });
      children = d.children ++ sibling_walk (length d.tokens) d t.links.first_child;
    } in
    children_loop rounds (index + 1) (if is_container t then laid else d)

unfoldable pub build_children : Bool → Document → Outcome Error Document
build_children granted d =
    if granted
    then ok (children_loop (length d.tokens) 0 (record d { children = [] }))
    else err memory

-- The next child that survives: a superseded key is skipped with its value.
unfoldable pub after_superseded : Document → ℕ → Option ℕ
after_superseded source child = elim (token_at source child).links.next_sibling [
  | none ↦ none
  | some value ↦ (token_at source value).links.next_sibling
]

unfoldable pub is_superseded : Document → ℕ → Bool
is_superseded source child =
    (token_at source child).object_key && (token_at source child).superseded

-- The arena bytes that a token's text takes, its NUL with it.
unfoldable pub text_bytes : Token → ℕ
text_bytes t = elim t.text [ none ↦ 0 | some bytes ↦ length bytes + 1 ]

-- The copy of one token.
unfoldable pub compact_token : Token → Option ℕ → Document → Document
compact_token old parent target =
    let fresh = length target.tokens in
    let token = record old { links = record no_links { parent = parent } } in
    record target {
      tokens = links_append (target.tokens ++ token ∷ []) parent fresh;
      arena_used = target.arena_used + text_bytes old;
    }

unfoldable mutual
  pub compact_walk : ℕ → Document → ℕ → Document → Option ℕ → Document
  compact_walk zero source index target parent = target
  compact_walk (suc fuel) source index target parent =
      compact_children fuel source (token_at source index).links.first_child
        (compact_token (token_at source index) parent target) (length target.tokens)

  pub compact_children : ℕ → Document → Option ℕ → Document → ℕ → Document
  compact_children zero source child target fresh = target
  compact_children (suc fuel) source none target fresh = target
  compact_children (suc fuel) source (some child) target fresh = elim (is_superseded source child) [
    | true ↦ compact_children fuel source (after_superseded source child) target fresh
    | false ↦
        compact_children fuel source (token_at source child).links.next_sibling
          (compact_walk fuel source child target (some fresh)) fresh
  ]

-- The sizing pass and the copying pass are one walk, so its result gives the capacities.
unfoldable pub compact_document : Bool → Document → Outcome Error Document
compact_document granted d =
    let packed =
      compact_walk (2 * length d.tokens) d 0 (record d { tokens = []; arena_used = 0 }) none in
    let sized = record packed {
      token_capacity = length packed.tokens;
      arena_capacity = if packed.arena_used == 0 then 1 else packed.arena_used;
    } in
    if granted then ok sized else err memory
