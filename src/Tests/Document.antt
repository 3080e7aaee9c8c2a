-- ===== src/Tests/Document.antt =====
-- src/document.c and src/parser.c at concrete inputs.
use maelys_json.Base.{ℕ, ◌≡◌, ◌≢◌, ◌↔◌, ◌≤◌, refl, codes, Bytes, [], ◌∷◌, true, some, ok, err}
use maelys_json.Base.Int.{pos, negsuc}
use maelys_json.Common.Decimal.{print_i64}
use maelys_json.Document.{Token, Document}
use maelys_json.Document.Access.{
  no_links, no_token, object_get, object_size, object_member_at, token_of,
}
use maelys_json.Document.Access.Members.{IsFirst, object_get_iff, object_get_not_found_iff}
use maelys_json.Document.Integers.{value_u64, value_i64}
use maelys_json.Document.Integers.Exact.{Spells, IsI64}
use maelys_json.Document.Integers.Values.{
  SpellsAt, value_u64_iff, value_i64_iff, value_range, print_i64-Spells,
}
use maelys_json.Types.{not_found, range, object, string, number, rfc8259, u64_max}

abbrev key_a : Token
key_a = record no_token { kind = string; text = some (codes "a"); object_key = true }

-- -9223372036854775809
abbrev below_i64 : Token
below_i64 = record no_token { kind = number; text = some (print_i64 (negsuc 9223372036854775808)) }

-- The document of {"a":-9223372036854775809}.
abbrev one_member : Document
one_member = record {
  profile = rfc8259;
  bytes = codes "{\"a\":-9223372036854775809}";
  tokens =
      record no_token {
        links = record no_links { first_child = some 1; last_child = some 2; child_count = 2 };
        kind = object;
      }
      ∷ key_a
      ∷ below_i64
      ∷ [];
  token_capacity = 26;
  arena_used = 23;
  arena_capacity = 53;
  children = 1 ∷ 2 ∷ [];
  duplicate_count = 0;
}

object_get_iff_example :
    (object_get one_member 0 (codes "a") ≡ ok 2) ↔ ((i : ℕ) × IsFirst one_member 0 (codes "a") 2 i)
object_get_iff_example = object_get_iff one_member 0 (codes "a") 2

one_member_size : object_size one_member 0 ≡ ok 1
unfolding object_size token_of
one_member_size = refl

object_get_not_found_iff_example :
    (object_get one_member 0 (codes "b") ≡ err not_found)
    ↔ ((i : ℕ) (k : Bytes) (w : ℕ) → object_member_at one_member 0 i ≡ ok (k, w) → k ≢ codes "b")
object_get_not_found_iff_example =
    object_get_not_found_iff one_member 0 (codes "b") 1 one_member_size

value_u64_iff_example :
    (value_u64 one_member 2 ≡ ok 7) ↔ (SpellsAt one_member 2 (pos 7) × (7 ≤ u64_max))
value_u64_iff_example = value_u64_iff one_member 2 7

value_i64_iff_example :
    (value_i64 one_member 2 ≡ ok (negsuc 7)) ↔ (SpellsAt one_member 2 (negsuc 7) × IsI64 (negsuc 7))
value_i64_iff_example = value_i64_iff one_member 2 (negsuc 7)

below_i64-SpellsAt : SpellsAt one_member 2 (negsuc 9223372036854775808)
below_i64-SpellsAt = record {
  token = below_i64;
  is_number = unfold token_of in refl;
  spells = print_i64-Spells (negsuc 9223372036854775808);
}

value_range_example :
    (¬ (IsI64 (negsuc 9223372036854775808)) → value_i64 one_member 2 ≡ err range)
    × (¬ ((n : ℕ) × (negsuc 9223372036854775808 ≡ pos n) × (n ≤ u64_max))
        → value_u64 one_member 2 ≡ err range)
value_range_example = value_range one_member 2 (negsuc 9223372036854775808) below_i64-SpellsAt

print_i64-Spells_example : Spells (print_i64 (negsuc 41)) (negsuc 41)
print_i64-Spells_example = print_i64-Spells (negsuc 41)
