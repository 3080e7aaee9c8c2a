-- ===== src/Canonical.antt =====
-- src/canonical.c: whether the bytes of a parsed document are its canonical form. A cursor is the
-- bytes that are left; an `expect` that answers 0 is `none`. `expect_value` goes one level deeper on
-- each unit of fuel; a value behind the fuel has no type, as one out of range.
pub mod Layout
pub mod Fuel
pub mod Numbers
pub mod Form
use Prim.Native.Nat.{Ordering}
use maelys_json.Base.{
  ℕ, zero, suc, ◌+◌, ◌*◌, ◌/◌, Bool, true, false, not, ◌&&◌, ◌||◌, [], ◌∷◌, Option, none, some,
  Bytes, length, ◌==◌, Outcome, ok, err, if◌then◌else◌,
}
use maelys_json.Common.Decimal.{print_u64, print_i64}
use maelys_json.Common.Escape.{canonical_escape}
use maelys_json.Document.{Links, Token, Document}
use maelys_json.Document.Access.{text_of, token_at, child_at}
use maelys_json.Document.Integers.{value_u64, value_i64}
use maelys_json.Types.{
  Error, argument, Kind, none_kind, object, array, string, number, boolean, null,
}
use maelys_json.Utf8.Order.{utf16_compare}
use maelys_json.Writer.State.{Flags}

abbrev pub Walk : Type 0
Walk = Bytes → Option Bytes

infixr 5 ◌and_then◌
abbrev pub ◌and_then◌ : Walk → Walk → Walk
◌and_then◌ f g cs = elim (f cs) [ none ↦ none | some left ↦ g left ]

-- `expect`, also for the bytes of `expect_byte` and `expect_literal`.
unfoldable pub expect : Bytes → Walk
expect [] cs = some cs
expect (b ∷ bs) [] = none
expect (b ∷ bs) (c ∷ cs) = elim (c == b) [ true ↦ expect bs cs | false ↦ none ]

unfoldable pub expect_characters : Bytes → Walk
expect_characters [] = expect []
expect_characters (b ∷ bs) = expect (canonical_escape b) and_then expect_characters bs

unfoldable pub expect_string : Bytes → Walk
expect_string text = expect (b'"' ∷ []) and_then expect_characters text and_then expect (b'"' ∷ [])

-- A byte of a fraction or an exponent.
unfoldable pub is_fractional : Bytes → Bool
is_fractional [] = false
is_fractional (b ∷ bs) = b == b'.' || b == b'e' || b == b'E' || is_fractional bs

abbrev pub starts_negative : Bytes → Bool
starts_negative [] = false
starts_negative (b ∷ bs) = b == b'-'

-- The digits that the number is rendered to; `none` where the code answers 0 before.
unfoldable pub rendered_number : Document → ℕ → Bytes → Option Bytes
rendered_number d value text =
    if is_fractional text
    then none
    else if starts_negative text
    then elim (value_i64 d value) [ err _ ↦ none | ok n ↦ some (print_i64 n) ]
    else elim (value_u64 d value) [ err _ ↦ none | ok n ↦ some (print_u64 n) ]

unfoldable pub expect_number : Document → ℕ → Token → Walk
expect_number d value token cs = elim (rendered_number d value (text_of token)) [
  | none ↦ none
  | some digits ↦ expect digits cs
]

-- The comma in front of all but the first.
unfoldable pub expect_comma : ℕ → Walk
expect_comma i cs = if i == 0 then some cs else expect (b',' ∷ []) cs

-- `utf16_compare(previous, key) >= 0`, once there is a previous key.
unfoldable pub out_of_order : Option Bytes → Bytes → Bool
out_of_order none key = false
out_of_order (some previous) key = elim (utf16_compare previous key) [
  | Ordering.lt ↦ false
  | _ ↦ true
]

-- The loop of `expect_object`, `left` members from `i` on.
unfoldable pub expect_members : (ℕ → Walk) → Document → Token → Option Bytes → ℕ → ℕ → Walk
expect_members walk d token previous i zero = expect []
expect_members walk d token previous i (suc left) =
    let key = token_at d (child_at d token (2 * i)) in
    let member =
      expect_string (text_of key)
      and_then expect (b':' ∷ [])
      and_then walk (child_at d token (2 * i + 1))
      and_then expect_members walk d token key.text (i + 1) left in
    expect_comma i and_then (λ cs. if out_of_order previous (text_of key) then none else member cs)

unfoldable pub expect_object : (ℕ → Walk) → Document → Token → Walk
expect_object walk d token =
    expect (b'{' ∷ [])
    and_then expect_members walk d token none 0 (token.links.child_count / 2)
    and_then expect (b'}' ∷ [])

unfoldable pub expect_elements : (ℕ → Walk) → Document → Token → ℕ → ℕ → Walk
expect_elements walk d token i zero = expect []
expect_elements walk d token i (suc left) =
    expect_comma i
    and_then walk (child_at d token i)
    and_then expect_elements walk d token (i + 1) left

unfoldable pub expect_array : (ℕ → Walk) → Document → Token → Walk
expect_array walk d token =
    expect (b'[' ∷ [])
    and_then expect_elements walk d token 0 token.links.child_count
    and_then expect (b']' ∷ [])

abbrev pub literal_true : Bytes
literal_true = b't' ∷ b'r' ∷ b'u' ∷ b'e' ∷ []

abbrev pub literal_false : Bytes
literal_false = b'f' ∷ b'a' ∷ b'l' ∷ b's' ∷ b'e' ∷ []

abbrev pub literal_null : Bytes
literal_null = b'n' ∷ b'u' ∷ b'l' ∷ b'l' ∷ []

-- The branches of `expect_value`, by the token's type.
unfoldable pub expect_kind : (ℕ → Walk) → Document → ℕ → Kind → Walk
expect_kind walk d value object = expect_object walk d (token_at d value)
expect_kind walk d value array = expect_array walk d (token_at d value)
expect_kind walk d value string = expect_string (text_of (token_at d value))
expect_kind walk d value number = expect_number d value (token_at d value)
expect_kind walk d value boolean =
    expect (if (token_at d value).boolean_value then literal_true else literal_false)
expect_kind walk d value null = expect literal_null
expect_kind walk d value none_kind = λ cs. none

unfoldable pub expect_value : ℕ → Document → ℕ → Walk
expect_value zero d value = λ cs. none
expect_value (suc fuel) d value = expect_kind (expect_value fuel d) d value (token_at d value).kind

-- The walk, the newline, and that nothing is left.
unfoldable pub walk_document : Document → Bool → Walk
walk_document d final_newline =
    expect_value (length d.tokens) d 0
    and_then (λ cs. if final_newline then expect (b'\n' ∷ []) cs else some cs)

abbrev pub at_end : Option Bytes → Bool
at_end (some []) = true
at_end _ = false

-- `maelys_json_document_is_canonical`. An unknown flag is refused as the two others are.
unfoldable pub document_is_canonical : Document → Flags → Outcome Error Bool
document_is_canonical d flags =
    if flags.indent || flags.ascii
    then err argument
    else if not (d.duplicate_count == 0)
    then ok false
    else ok (not (length d.tokens == 0) && at_end (walk_document d flags.final_newline d.bytes))
