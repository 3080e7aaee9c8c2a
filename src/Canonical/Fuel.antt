-- ===== src/Canonical/Fuel.antt =====
-- The fuel of the walk of src/canonical.c is enough where children stand behind their parent, as
-- the parser lays the tokens out.
use maelys_json.Base.{
  ℕ, zero, suc, ◌+◌, ◌*◌, ◌≤◌, ◌<◌, ◌≡◌, refl, sym, ap, ap₂, ◌∙◌, [], ◌∷◌, Option, none, some,
  Bytes, get_or, length, arith, if◌then◌else◌, List,
}
use maelys_json.Canonical.{out_of_order, expect_value}
use maelys_json.Canonical.Layout.{
  literal, comma, layout_members, layout_elements, layout_kind, layout_value, demand, value-Walks,
}
use maelys_json.Document.{Token, Document}
use maelys_json.Document.Access.{text_of, no_token, token_at, child_at}
use maelys_json.Serializer.Buffer.Emits.{joined}
use maelys_json.Types.{Kind, none_kind, object, array, string, number, boolean, null}

-- The children of a token come behind it.
abbrev pub IsNested : Document → Type 0
IsNested d =
    (value position : ℕ)
    → position < (token_at d value).links.child_count
    → value < child_at d (token_at d value) position

module _ (d : Document) (token : Token) (layout layout' : ℕ → Option Bytes)
    (h : (position : ℕ)
      → position < token.links.child_count
      → layout (child_at d token position) ≡ layout' (child_at d token position)) where
  members_same :
      (previous : Option Bytes) (i left : ℕ)
      → 2 * (i + left) ≤ token.links.child_count
      → layout_members layout d token previous i left
        ≡ layout_members layout' d token previous i left
  unfolding layout_members
  members_same previous i zero fits = refl
  members_same previous i (suc left) fits =
      let key = token_at d (child_at d token (2 * i)) in
      ap
        (λ rest. joined (some (comma i)) (
          if out_of_order previous (text_of key)
          then none
          else joined (some (literal (text_of key))) (joined (some (b':' ∷ [])) rest)))
        (ap₂ joined (h (2 * i + 1) (omega arith))
          (members_same key.text (i + 1) left (omega arith)))

  elements_same :
      (i left : ℕ)
      → i + left ≤ token.links.child_count
      → layout_elements layout d token i left ≡ layout_elements layout' d token i left
  unfolding layout_elements
  elements_same i zero fits = refl
  elements_same i (suc left) fits =
      ap (joined (some (comma i)))
        (ap₂ joined (h i (omega arith)) (elements_same (i + 1) left (omega arith)))

kind_same :
    (d : Document) (value : ℕ) (kind : Kind) (layout layout' : ℕ → Option Bytes)
    → ((position : ℕ)
        → position < (token_at d value).links.child_count
        → layout (child_at d (token_at d value) position)
          ≡ layout' (child_at d (token_at d value) position))
    → layout_kind layout d value kind ≡ layout_kind layout' d value kind
unfolding layout_kind
kind_same d value object layout layout' h =
    ap (λ m. joined (some (b'{' ∷ [])) (joined m (some (b'}' ∷ []))))
      (members_same d (token_at d value) layout layout' h none 0 _ (omega arith))
kind_same d value array layout layout' h =
    ap (λ m. joined (some (b'[' ∷ [])) (joined m (some (b']' ∷ []))))
      (elements_same d (token_at d value) layout layout' h 0 _ (omega arith))
kind_same d value string layout layout' h = refl
kind_same d value number layout layout' h = refl
kind_same d value boolean layout layout' h = refl
kind_same d value null layout layout' h = refl
kind_same d value none_kind layout layout' h = refl

get_or-behind : {A : Type 0} (xs : List A) (i : ℕ) (d : A) → length xs ≤ i → get_or xs i d ≡ d
get_or-behind [] i d h = refl
get_or-behind (x ∷ xs) zero d h = absurd (omega arith)
get_or-behind (x ∷ xs) (suc i) d h = get_or-behind xs i d (omega arith)

layout_behind :
    (d : Document) (fuel value : ℕ) → length d.tokens ≤ value → layout_value fuel d value ≡ none
unfolding layout_value layout_kind
layout_behind d zero value h = refl
layout_behind d (suc fuel) value h =
    ap (λ (t : Token). layout_kind (layout_value fuel d) d value t.kind)
      (get_or-behind d.tokens value no_token h)

layout-enough :
    (d : Document) (fuel more value : ℕ)
    → IsNested d
    → length d.tokens ≤ fuel + value
    → fuel ≤ more
    → layout_value more d value ≡ layout_value fuel d value
unfolding layout_value
layout-enough d zero more value nested h le =
    layout_behind d more value (omega arith) ∙ sym (layout_behind d zero value (omega arith))
layout-enough d (suc fuel) zero value nested h le = absurd (omega arith)
layout-enough d (suc fuel) (suc more) value nested h le =
    kind_same d value (token_at d value).kind _ _ (λ position below.
      layout-enough d fuel more (child_at d (token_at d value) position) nested
        (omega (arith, nested value position below)) (omega arith))

-- Where children stand behind their parents, the walk of a whole document is the walk with any more
-- fuel.
pub expect_value-enough :
    (d : Document) (more : ℕ) (cs : Bytes)
    → IsNested d
    → length d.tokens ≤ more
    → expect_value more d 0 cs ≡ expect_value (length d.tokens) d 0 cs
expect_value-enough d more cs nested le =
    value-Walks d more 0 cs
    ∙ ap (λ out. demand out cs) (layout-enough d (length d.tokens) more 0 nested (omega arith) le)
    ∙ sym (value-Walks d (length d.tokens) 0 cs)
