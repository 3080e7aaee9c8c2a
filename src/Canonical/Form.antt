-- ===== src/Canonical/Form.antt =====
-- Maelys Canonical JSON of a parsed document, without the tests of src/canonical.c: the keys ascend
-- by their UTF-16 units, a number is an integer of 64 bits in decimal, and no spaces stand anywhere.
-- The keys are given as lists of code points, by the index of their token.
use Prim.Native.Nat.{Ordering}
use maelys_json.Base.{
  ℕ, zero, suc, ◌+◌, ◌*◌, ◌/◌, ◌<◌, ◌≡◌, ◌↔◌, refl, sym, ap, ap₂, ◌∙◌, Bool, true, false, not, ◌||◌,
  List, [], ◌∷◌, Option, none, some, Bytes, All, length, ok, if◌then◌else◌, arith,
}
use maelys_json.Canonical.{
  out_of_order, literal_true, literal_false, literal_null, document_is_canonical,
}
use maelys_json.Canonical.Layout.{
  literal, comma, layout_members, layout_elements, layout_kind, layout_value, walked_text,
  document_is_canonical_walked,
}
use maelys_json.Canonical.Numbers.{canonical_number, rendered_number_lem}
use maelys_json.Document.{Token, Document}
use maelys_json.Document.Access.{text_of, token_at, child_at}
use maelys_json.Serializer.Buffer.Emits.{joined}
use maelys_json.Types.{Kind, none_kind, object, array, string, number, boolean, null}
use maelys_json.Utf8.Order.Units.{units, lex, utf16_compare-lex}
use maelys_json.Utf8.Scalars.{encode_all}
use maelys_json.Utf8.Sequence.{IsScalar}
use maelys_json.Writer.State.{Flags}

-- Strictly below, by the UTF-16 units.
abbrev is_below : List ℕ → List ℕ → Bool
is_below ps qs = elim (lex (units ps) (units qs)) [ Ordering.lt ↦ true | _ ↦ false ]

abbrev follows : (ℕ → List ℕ) → Option ℕ → ℕ → Bool
follows points none key = true
follows points (some previous) key = is_below (points previous) (points key)

-- The members from `i` on behind the key token `previous`.
unfoldable pub form_members :
    (ℕ → List ℕ) → (ℕ → Option Bytes) → Document → Token → Option ℕ → ℕ → ℕ → Option Bytes
form_members points form d token previous i zero = some []
form_members points form d token previous i (suc left) =
    let key = child_at d token (2 * i) in
    let member = joined (some (literal (encode_all (points key)))) (
      joined (some (b':' ∷ [])) (
        joined (form (child_at d token (2 * i + 1)))
          (form_members points form d token (some key) (i + 1) left))) in
    joined (some (comma i)) (if follows points previous key then member else none)

unfoldable pub form_elements : (ℕ → Option Bytes) → Document → Token → ℕ → ℕ → Option Bytes
form_elements form d token i zero = some []
form_elements form d token i (suc left) =
    joined (some (comma i))
      (joined (form (child_at d token i)) (form_elements form d token (i + 1) left))

unfoldable pub form_kind : (ℕ → List ℕ) → (ℕ → Option Bytes) → Document → ℕ → Kind → Option Bytes
form_kind points form d value object =
    let token = token_at d value in
    joined (some (b'{' ∷ [])) (
      joined (form_members points form d token none 0 (token.links.child_count / 2))
        (some (b'}' ∷ [])))
form_kind points form d value array =
    let token = token_at d value in
    joined (some (b'[' ∷ []))
      (joined (form_elements form d token 0 token.links.child_count) (some (b']' ∷ [])))
form_kind points form d value string = some (literal (text_of (token_at d value)))
form_kind points form d value number = canonical_number (text_of (token_at d value))
form_kind points form d value boolean =
    some (if (token_at d value).boolean_value then literal_true else literal_false)
form_kind points form d value null = some literal_null
form_kind points form d value none_kind = none

unfoldable pub form_value : (ℕ → List ℕ) → ℕ → Document → ℕ → Option Bytes
form_value points zero d value = none
form_value points (suc fuel) d value =
    form_kind points (form_value points fuel d) d value (token_at d value).kind

-- The canonical text, with the newline if it is asked for.
unfoldable pub canonical_text : (ℕ → List ℕ) → Document → Bool → Option Bytes
canonical_text points d final_newline =
    joined (form_value points (length d.tokens) d 0)
      (some (if final_newline then b'\n' ∷ [] else []))

-- A token has the text of these code points.
abbrev pub HasPoints : (ℕ → List ℕ) → Document → ℕ → Type 0
HasPoints points d index =
    ((token_at d index).text ≡ some (encode_all (points index))) × All IsScalar (points index)

-- The keys of all objects have the code points that are given.
abbrev pub IsKeyed : (ℕ → List ℕ) → Document → Type 0
IsKeyed points d =
    (value i : ℕ)
    → (token_at d value).kind ≡ object
    → i < (token_at d value).links.child_count / 2
    → HasPoints points d (child_at d (token_at d value) (2 * i))

abbrev key_before : (ℕ → List ℕ) → Option ℕ → Option Bytes
key_before points none = none
key_before points (some index) = some (encode_all (points index))

abbrev IsBefore : (ℕ → List ℕ) → Option ℕ → Type 0
IsBefore points none = Unit
IsBefore points (some index) = All IsScalar (points index)

order_lem :
    (points : ℕ → List ℕ) (previous : Option ℕ) (key : ℕ)
    → IsBefore points previous
    → All IsScalar (points key)
    → out_of_order (key_before points previous) (encode_all (points key))
      ≡ not (follows points previous key)
unfolding out_of_order
order_lem points none key h k = refl
order_lem points (some index) key h k =
    let same = utf16_compare-lex (points index) (points key) h k in ground (arith, same)

if_not :
    (b c : Bool) (x y : Option Bytes)
    → b ≡ not c
    → x ≡ y
    → (if b then none else x) ≡ (if c then y else none)
if_not true false x y e h = refl
if_not false true x y e h = h
if_not true true x y e h = cc
if_not false false x y e h = cc

abbrev text_or : Option Bytes → Bytes
text_or none = []
text_or (some bytes) = bytes

module _ (points : ℕ → List ℕ) (d : Document) (layout form : ℕ → Option Bytes)
    (same : (value : ℕ) → layout value ≡ form value) where
  members_form :
      (token : Token) (previous : Option ℕ) (i left : ℕ)
      → ((j : ℕ) → j < i + left → HasPoints points d (child_at d token (2 * j)))
      → IsBefore points previous
      → layout_members layout d token (key_before points previous) i left
        ≡ form_members points form d token previous i left
  unfolding layout_members form_members
  members_form token previous i zero keyed before = refl
  members_form token previous i (suc left) keyed before =
      let key = child_at d token (2 * i) in
      let (spells, scalars) = keyed i (omega arith) in
      let rest =
        members_form token (some key) (i + 1) left (λ j below. keyed j (omega arith)) scalars in
      ap
        (λ (o : Option Bytes). joined (some (comma i)) (
          if out_of_order (key_before points previous) (text_or o)
          then none
          else joined (some (literal (text_or o))) (
              joined (some (b':' ∷ [])) (
                joined (layout (child_at d token (2 * i + 1)))
                  (layout_members layout d token o (i + 1) left)))))
        spells
      ∙ (ap (joined (some (comma i))) (
          if_not _ (follows points previous key) _ _ (order_lem points previous key before scalars)
            (ap
              (λ t. joined (some (literal (encode_all (points key)))) (joined (some (b':' ∷ [])) t))
              (ap₂ joined (same (child_at d token (2 * i + 1))) rest))))

  elements_form :
      (token : Token) (i left : ℕ)
      → layout_elements layout d token i left ≡ form_elements form d token i left
  unfolding layout_elements form_elements
  elements_form token i zero = refl
  elements_form token i (suc left) =
      ap (joined (some (comma i)))
        (ap₂ joined (same (child_at d token i)) (elements_form token (i + 1) left))

  kind_form :
      (value : ℕ) (kind : Kind)
      → (token_at d value).kind ≡ kind
      → IsKeyed points d
      → layout_kind layout d value kind ≡ form_kind points form d value kind
  unfolding layout_kind form_kind
  kind_form value object e keyed =
      ap (λ t. joined (some (b'{' ∷ [])) (joined t (some (b'}' ∷ []))))
        (members_form (token_at d value) none 0 _ (λ j below. keyed value j e (omega arith)) tt)
  kind_form value array e keyed =
      ap (λ t. joined (some (b'[' ∷ [])) (joined t (some (b']' ∷ []))))
        (elements_form (token_at d value) 0 _)
  kind_form value string e keyed = refl
  kind_form value number e keyed = rendered_number_lem d value e
  kind_form value boolean e keyed = refl
  kind_form value null e keyed = refl
  kind_form value none_kind e keyed = refl

value_form :
    (points : ℕ → List ℕ) (d : Document) (fuel value : ℕ)
    → IsKeyed points d
    → layout_value fuel d value ≡ form_value points fuel d value
unfolding layout_value form_value
value_form points d zero value keyed = refl
value_form points d (suc fuel) value keyed =
    kind_form points d (layout_value fuel d) (form_value points fuel d)
      (λ child. value_form points d fuel child keyed) value (token_at d value).kind refl keyed

text_form :
    (points : ℕ → List ℕ) (d : Document) (final_newline : Bool)
    → IsKeyed points d
    → walked_text d final_newline ≡ canonical_text points d final_newline
unfolding walked_text canonical_text
text_form points d final_newline keyed =
    ap (λ t. joined t (some (if final_newline then b'\n' ∷ [] else [])))
      (value_form points d (length d.tokens) 0 keyed)

-- Where the keys of all objects are UTF-8, and neither indentation nor ASCII output is asked for, the
-- answer is yes exactly when no key was repeated and the bytes are the canonical text: keys in ascending order of their UTF-16 units, numbers as integers of 64 bits.
pub document_is_canonical_iff :
    (points : ℕ → List ℕ) (d : Document) (flags : Flags)
    → IsKeyed points d
    → (flags.indent || flags.ascii) ≡ false
    → (document_is_canonical d flags ≡ ok true)
      ↔ ((d.duplicate_count ≡ 0) × (canonical_text points d flags.final_newline ≡ some d.bytes))
document_is_canonical_iff points d flags keyed h =
    let (there, back) = document_is_canonical_walked d flags h in
    let same = text_form points d flags.final_newline keyed in
    (λ e. ((there e).0, sym same ∙ (there e).1), λ e. back (e.0, same ∙ e.1))
