-- ===== src/Canonical/Layout.antt =====
-- The text that the walk of src/canonical.c asks for, byte by byte; and that the walk is comparing
-- with it.
use maelys_json.Base.{
  ℕ, zero, suc, ◌+◌, ◌*◌, ◌/◌, ◌≡◌, ◌↔◌, refl, sym, ap, ◌∙◌, Bool, true, false, ◌||◌, [], ◌∷◌, ◌++◌,
  Option, none, some, Bytes, length, ◌==◌, ok, if◌then◌else◌, arith, Bool-cases, inl, inr, ◌≢◌,
}
use maelys_json.Canonical.{
  Walk, ◌and_then◌, expect, expect_characters, expect_string, rendered_number, expect_number,
  expect_comma, out_of_order, expect_members, expect_object, expect_elements, expect_array,
  literal_true, literal_false, literal_null, expect_kind, expect_value, walk_document, at_end,
  document_is_canonical,
}
use maelys_json.Common.Escape.{canonical_escape}
use maelys_json.Document.{Token, Document}
use maelys_json.Document.Access.{text_of, token_at, child_at}
use maelys_json.Serializer.Buffer.Emits.{joined}
use maelys_json.Types.{Kind, none_kind, object, array, string, number, boolean, null}
use maelys_json.Utf8.Literal.Spelling.{escaped}
use maelys_json.Writer.State.{Flags}

abbrev pub literal : Bytes → Bytes
literal text = (b'"' ∷ []) ++ (escaped text ++ b'"' ∷ [])

abbrev pub comma : ℕ → Bytes
comma i = if i == 0 then [] else b',' ∷ []

-- The members behind a key; `none` where the keys do not ascend, or a value has no canonical form.
unfoldable pub layout_members :
    (ℕ → Option Bytes) → Document → Token → Option Bytes → ℕ → ℕ → Option Bytes
layout_members layout d token previous i zero = some []
layout_members layout d token previous i (suc left) =
    let key = token_at d (child_at d token (2 * i)) in
    let member = joined (some (literal (text_of key))) (
      joined (some (b':' ∷ [])) (
        joined (layout (child_at d token (2 * i + 1)))
          (layout_members layout d token key.text (i + 1) left))) in
    joined (some (comma i)) (if out_of_order previous (text_of key) then none else member)

unfoldable pub layout_elements : (ℕ → Option Bytes) → Document → Token → ℕ → ℕ → Option Bytes
layout_elements layout d token i zero = some []
layout_elements layout d token i (suc left) =
    joined (some (comma i))
      (joined (layout (child_at d token i)) (layout_elements layout d token (i + 1) left))

unfoldable pub layout_kind : (ℕ → Option Bytes) → Document → ℕ → Kind → Option Bytes
layout_kind layout d value object =
    let token = token_at d value in
    joined (some (b'{' ∷ [])) (
      joined (layout_members layout d token none 0 (token.links.child_count / 2))
        (some (b'}' ∷ [])))
layout_kind layout d value array =
    let token = token_at d value in
    joined (some (b'[' ∷ []))
      (joined (layout_elements layout d token 0 token.links.child_count) (some (b']' ∷ [])))
layout_kind layout d value string = some (literal (text_of (token_at d value)))
layout_kind layout d value number = rendered_number d value (text_of (token_at d value))
layout_kind layout d value boolean =
    some (if (token_at d value).boolean_value then literal_true else literal_false)
layout_kind layout d value null = some literal_null
layout_kind layout d value none_kind = none

unfoldable pub layout_value : ℕ → Document → ℕ → Option Bytes
layout_value zero d value = none
layout_value (suc fuel) d value = layout_kind (layout_value fuel d) d value (token_at d value).kind

-- The text of a document, with the newline if it is asked for.
unfoldable pub walked_text : Document → Bool → Option Bytes
walked_text d final_newline =
    joined (layout_value (length d.tokens) d 0) (some (if final_newline then b'\n' ∷ [] else []))

-- Comparing with a text, if there is one.
abbrev pub demand : Option Bytes → Walk
demand none cs = none
demand (some out) cs = expect out cs

abbrev pub Walks : Option Bytes → Walk → Type 0
Walks out f = (cs : Bytes) → f cs ≡ demand out cs

expect-append : (xs ys cs : Bytes) → (expect xs and_then expect ys) cs ≡ expect (xs ++ ys) cs
unfolding expect
expect-append [] ys cs = refl
expect-append (x ∷ xs) ys [] = refl
expect-append (x ∷ xs) ys (c ∷ cs) = ground (arith, expect-append xs ys cs)

and_then-demand :
    (a b : Option Bytes) (cs : Bytes) → (demand a and_then demand b) cs ≡ demand (joined a b) cs
and_then-demand none b cs = refl
and_then-demand (some x) (some y) cs = expect-append x y cs
and_then-demand (some x) none cs = go (expect x cs)
  where
    go :
        (o : Option Bytes) → ◌≡◌ {A = Option Bytes} (elim o [ none ↦ none | some left ↦ none ]) none
    go none = refl
    go (some left) = refl

Walks-joined :
    (a b : Option Bytes) (f g : Walk) → Walks a f → Walks b g → Walks (joined a b) (f and_then g)
Walks-joined a b f g h k cs =
    ap (λ o. elim o [ none ↦ none | some left ↦ g left ]) (h cs)
    ∙ (behind (demand a cs) ∙ and_then-demand a b cs)
  where
    behind :
        (o : Option Bytes)
        → (elim o [ none ↦ none | some left ↦ g left ])
          ≡ (elim o [ none ↦ none | some left ↦ demand b left ])
    behind none = refl
    behind (some left) = k left

characters-Walks : (text : Bytes) → Walks (some (escaped text)) (expect_characters text)
unfolding expect_characters escaped
characters-Walks [] cs = refl
characters-Walks (b ∷ bs) cs =
    Walks-joined (some (canonical_escape b)) (some (escaped bs)) _ _ (λ x. refl)
      (characters-Walks bs) cs

string-Walks : (text : Bytes) → Walks (some (literal text)) (expect_string text)
unfolding expect_string
string-Walks text =
    Walks-joined (some (b'"' ∷ [])) (some (escaped text ++ b'"' ∷ [])) _ _ (λ x. refl)
      (Walks-joined (some (escaped text)) (some (b'"' ∷ [])) _ _ (characters-Walks text)
        (λ x. refl))

comma-Walks : (i : ℕ) → Walks (some (comma i)) (expect_comma i)
unfolding expect_comma expect
comma-Walks i cs = go (i == 0)
  where
    go :
        (b : Bool)
        → (if b then some cs else expect (b',' ∷ []) cs) ≡ expect (if b then [] else b',' ∷ []) cs
    go true = refl
    go false = refl

-- A test in the walk.
if-Walks :
    (b : Bool) (out : Option Bytes) (f : Walk)
    → Walks out f
    → Walks (if b then none else out) (λ cs. if b then none else f cs)
if-Walks true out f h cs = refl
if-Walks false out f h cs = h cs

number-Walks :
    (d : Document) (value : ℕ) (token : Token)
    → Walks (rendered_number d value (text_of token)) (expect_number d value token)
unfolding expect_number
number-Walks d value token cs = go (rendered_number d value (text_of token))
  where
    go :
        (o : Option Bytes) → (elim o [ none ↦ none | some digits ↦ expect digits cs ]) ≡ demand o cs
    go none = refl
    go (some digits) = refl

module _ (d : Document) (layout : ℕ → Option Bytes) (walk : ℕ → Walk)
    (h : (value : ℕ) → Walks (layout value) (walk value)) where
  members-Walks :
      (token : Token) (previous : Option Bytes) (i left : ℕ)
      → Walks
          (layout_members layout d token previous i left)
          (expect_members walk d token previous i left)
  unfolding layout_members expect_members expect
  members-Walks token previous i zero = λ cs. refl
  members-Walks token previous i (suc left) =
      let key = token_at d (child_at d token (2 * i)) in
      let rest =
        joined (layout (child_at d token (2 * i + 1)))
          (layout_members layout d token key.text (i + 1) left) in
      Walks-joined (some (comma i)) _ _ _ (comma-Walks i) (
        if-Walks (out_of_order previous (text_of key))
          (joined (some (literal (text_of key))) (joined (some (b':' ∷ [])) rest)) _
          (Walks-joined (some (literal (text_of key))) _ _ _ (string-Walks (text_of key)) (
            Walks-joined (some (b':' ∷ [])) rest _ _ (λ x. refl)
              (Walks-joined (layout (child_at d token (2 * i + 1))) _ _ _
                (h (child_at d token (2 * i + 1))) (members-Walks token key.text (i + 1) left)))))

  elements-Walks :
      (token : Token) (i left : ℕ)
      → Walks (layout_elements layout d token i left) (expect_elements walk d token i left)
  unfolding layout_elements expect_elements expect
  elements-Walks token i zero = λ cs. refl
  elements-Walks token i (suc left) = Walks-joined (some (comma i)) _ _ _ (comma-Walks i) (
      Walks-joined (layout (child_at d token i)) _ _ _ (h (child_at d token i))
        (elements-Walks token (i + 1) left))

  kind-Walks :
      (value : ℕ) (kind : Kind)
      → Walks (layout_kind layout d value kind) (expect_kind walk d value kind)
  unfolding layout_kind expect_kind expect_object expect_array
  kind-Walks value object =
      Walks-joined (some (b'{' ∷ [])) _ _ _ (λ x. refl)
        (Walks-joined _ (some (b'}' ∷ [])) _ _
          (members-Walks (token_at d value) none 0 ((token_at d value).links.child_count / 2))
          (λ x. refl))
  kind-Walks value array =
      Walks-joined (some (b'[' ∷ [])) _ _ _ (λ x. refl)
        (Walks-joined _ (some (b']' ∷ [])) _ _
          (elements-Walks (token_at d value) 0 (token_at d value).links.child_count) (λ x. refl))
  kind-Walks value string = string-Walks (text_of (token_at d value))
  kind-Walks value number = number-Walks d value (token_at d value)
  kind-Walks value boolean = λ cs. refl
  kind-Walks value null = λ cs. refl
  kind-Walks value none_kind = λ cs. refl

pub value-Walks :
    (d : Document) (fuel value : ℕ) → Walks (layout_value fuel d value) (expect_value fuel d value)
unfolding layout_value expect_value
value-Walks d zero value = λ cs. refl
value-Walks d (suc fuel) value =
    kind-Walks d (layout_value fuel d) (expect_value fuel d) (value-Walks d fuel) value
      (token_at d value).kind

document-Walks :
    (d : Document) (final_newline : Bool)
    → Walks (walked_text d final_newline) (walk_document d final_newline)
unfolding walked_text walk_document expect
document-Walks d final_newline =
    Walks-joined _ _ _ _ (value-Walks d (length d.tokens) 0) (newline final_newline)
  where
    newline :
        (b : Bool)
        → Walks
            (some (if b then b'\n' ∷ [] else []))
            (λ cs. if b then expect (b'\n' ∷ []) cs else some cs)
    newline true cs = refl
    newline false cs = refl

-- Nothing is left exactly when the bytes are the text.
expect-at_end : (out cs : Bytes) → (at_end (expect out cs) ≡ true) ↔ (out ≡ cs)
unfolding expect
expect-at_end [] [] = (λ h. refl, λ e. refl)
expect-at_end [] (c ∷ cs) = (λ h. cc, λ e. cc)
expect-at_end (o ∷ out) [] = (λ h. cc, λ e. cc)
expect-at_end (o ∷ out) (c ∷ cs) =
    (λ h. ground (arith, expect-at_end out cs), λ e. ground (arith, expect-at_end out cs))

demand-at_end :
    (out : Option Bytes) (cs : Bytes) → (at_end (demand out cs) ≡ true) ↔ (out ≡ some cs)
demand-at_end none cs = (λ h. cc, λ e. cc)
demand-at_end (some out) cs =
    (λ h. ap some ((expect-at_end out cs).0 h), λ e. (expect-at_end out cs).1 (ground arith))

joined-first : (a b : Option Bytes) (out : Bytes) → joined a b ≡ some out → a ≢ none
joined-first (some a) b out h e = cc
joined-first none b out h e = cc

text-tokens :
    (d : Document) (final_newline : Bool) (out : Bytes)
    → walked_text d final_newline ≡ some out
    → (length d.tokens == 0) ≡ false
unfolding walked_text layout_value
text-tokens d final_newline out h = elim (Bool-cases (length d.tokens == 0)) [
  | inr e ↦ e
  | inl e ↦
      let none' : length d.tokens ≡ 0 = ground arith in
      absurd (
        joined-first (layout_value (length d.tokens) d 0) _ out h
          (ap (λ n. layout_value n d 0) none'))
]

-- The answer is yes exactly when no key was repeated and the bytes are that text.
pub document_is_canonical_walked :
    (d : Document) (flags : Flags)
    → (flags.indent || flags.ascii) ≡ false
    → (document_is_canonical d flags ≡ ok true)
      ↔ ((d.duplicate_count ≡ 0) × (walked_text d flags.final_newline ≡ some d.bytes))
unfolding document_is_canonical
document_is_canonical_walked d flags h =
    let walks = document-Walks d flags.final_newline d.bytes in
    let ends = demand-at_end (walked_text d flags.final_newline) d.bytes in
    (
      λ e.
          let good : (d.duplicate_count ≡ 0)
              × (at_end (walk_document d flags.final_newline d.bytes) ≡ true) =
            ground (arith, h, e) in
          (good.0, ends.0 (ap at_end (sym walks) ∙ good.1)),
      λ e.
          let tokens = text-tokens d flags.final_newline d.bytes e.1 in
          let end = ap at_end walks ∙ ends.1 e.1 in ground (arith, h, e.0, tokens, end),
    )
