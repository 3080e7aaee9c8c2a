-- ===== src/Tests/Canonical.antt =====
-- src/canonical.c at concrete inputs.
use maelys_json.Base.{zero, suc, ◌≡◌, ◌↔◌, refl, [], ◌∷◌, codes, some, true, false, arith, ok}
use maelys_json.Canonical.{expect_value, document_is_canonical}
use maelys_json.Canonical.Fuel.{IsNested, expect_value-enough}
use maelys_json.Canonical.Form.{IsKeyed, canonical_text, document_is_canonical_iff}
use maelys_json.Document.{Document}
use maelys_json.Document.Access.{no_links, no_token, child_at}
use maelys_json.Types.{rfc8259, array, null, object, string}
use maelys_json.Utf8.Points.{encode_utf8}
use maelys_json.Utf8.Scalars.{encode_all}
use maelys_json.Writer.State.{Flags}

-- The document of [null], a line feed behind it.
abbrev one_null : Document
one_null = record {
  profile = rfc8259;
  bytes = codes "[null]\n";
  tokens =
      record no_token {
        links = record no_links { first_child = some 1; last_child = some 1; child_count = 1 };
        kind = array;
      }
      ∷ record no_token { kind = null }
      ∷ [];
  token_capacity = 7;
  arena_used = 0;
  arena_capacity = 7;
  children = 1 ∷ [];
  duplicate_count = 0;
}

abbrev newline : Flags
newline = record { final_newline = true; indent = false; ascii = false }

-- The document of {"k":null}.
abbrev one_member : Document
one_member = record one_null {
  bytes = codes "{\"k\":null}\n";
  tokens =
      record no_token {
        links = record no_links { first_child = some 1; last_child = some 2; child_count = 2 };
        kind = object;
      }
      ∷ record no_token { kind = string; text = some (codes "k"); object_key = true }
      ∷ record no_token { kind = null }
      ∷ [];
  children = 1 ∷ 2 ∷ [];
}

one_member-IsKeyed : IsKeyed (λ _. codes "k") one_member
unfolding child_at encode_all encode_utf8
one_member-IsKeyed zero zero k h = (refl, (omega arith, tt))
one_member-IsKeyed zero (suc i) k h = absurd (omega arith)
one_member-IsKeyed (suc zero) i k h = absurd (cc k)
one_member-IsKeyed (suc (suc zero)) i k h = absurd (cc k)
one_member-IsKeyed (suc (suc (suc value))) i k h = absurd (cc k)

document_is_canonical_iff_example : (document_is_canonical one_member newline ≡ ok true) ↔ (
    (one_member.duplicate_count ≡ 0)
    × (canonical_text (λ _. codes "k") one_member true ≡ some one_member.bytes))
document_is_canonical_iff_example =
    document_is_canonical_iff (λ _. codes "k") one_member newline one_member-IsKeyed refl

one_null-IsNested : IsNested one_null
unfolding child_at
one_null-IsNested zero zero h = omega arith
one_null-IsNested zero (suc position) h = absurd (omega arith)
one_null-IsNested (suc zero) position h = absurd (omega arith)
one_null-IsNested (suc (suc value)) position h = absurd (omega arith)

expect_value-enough_example :
    expect_value 9 one_null 0 (codes "[null]") ≡ expect_value 2 one_null 0 (codes "[null]")
expect_value-enough_example =
    expect_value-enough one_null 9 (codes "[null]") one_null-IsNested (omega arith)
