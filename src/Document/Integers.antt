-- ===== src/Document/Integers.antt =====
-- `read_magnitude`, `maelys_json_value_u64`, `maelys_json_value_i64`, and the lookups of
-- src/helpers.c.
pub mod Exact
pub mod Values
use maelys_json.Base.{
  ℕ, ◌+◌, ◌-◌, ◌*◌, ◌/◌, ◌%◌, ◌^◌, Bool, true, false, not, ◌&&◌, ◌||◌, [], ◌∷◌, Bytes, ltb, leb,
  within, ◌==◌, Outcome, ok, err, ◌>>=◌, if◌then◌else◌,
}
use maelys_json.Base.Int.{ℤ, pos, signed}
use maelys_json.Document.{Document}
use maelys_json.Document.Access.{text_of, token_of, object_get, value_string, value_boolean}
use maelys_json.Types.{Error, range, not_integer, number, u64_max, i64_max}

-- The loop. `maximum` is at least 9, so `maximum - digit` does not wrap; the sum is a `uint64_t`.
unfoldable pub read_digits : ℕ → Bytes → ℕ → Outcome Error ℕ
read_digits maximum [] magnitude = ok magnitude
read_digits maximum (b ∷ bs) magnitude =
    let digit = b - b'0' in
    let rest = read_digits maximum bs ((magnitude * 10 + digit) % 2 ^ 64) in
    if not (within b'0' b'9' b)
    then err not_integer
    else if ltb ((maximum - digit) / 10) magnitude
    then err range
    else rest

-- The magnitude of a lexeme, and whether it is negative.
unfoldable pub lexeme_magnitude : ℕ → Bytes → Outcome Error (ℕ × Bool)
unfolding read_digits
lexeme_magnitude maximum [] = ok (0, false)
lexeme_magnitude maximum (b ∷ bs) =
    if b == b'-'
    then (do m ← read_digits maximum bs 0; ok (m, true))
    else (do m ← read_digits maximum (b ∷ bs) 0; ok (m, false))

unfoldable pub read_magnitude : Document → ℕ → ℕ → Outcome Error (ℕ × Bool)
read_magnitude d value maximum = do
  token ← token_of d value number
  lexeme_magnitude maximum (text_of token)

-- The end of `maelys_json_value_u64`, and of `maelys_json_value_i64`.
unfoldable pub as_u64 : ℕ → Bool → Outcome Error ℕ
as_u64 magnitude negative = if negative && not (magnitude == 0) then err range else ok magnitude

unfoldable pub as_i64 : ℕ → Bool → Outcome Error ℤ
as_i64 magnitude negative =
    if not negative && ltb i64_max magnitude
    then err range
    else ok (if negative then signed magnitude else pos magnitude)

unfoldable pub value_u64 : Document → ℕ → Outcome Error ℕ
value_u64 d value = do read ← read_magnitude d value u64_max; as_u64 read.0 read.1

unfoldable pub value_i64 : Document → ℕ → Outcome Error ℤ
value_i64 d value = do read ← read_magnitude d value (i64_max + 1); as_i64 read.0 read.1

unfoldable pub object_get_string : Document → ℕ → Bytes → Outcome Error Bytes
object_get_string d o key = do value ← object_get d o key; value_string d value

unfoldable pub object_get_u64 : Document → ℕ → Bytes → Outcome Error ℕ
object_get_u64 d o key = do value ← object_get d o key; value_u64 d value

unfoldable pub object_get_i64 : Document → ℕ → Bytes → Outcome Error ℤ
object_get_i64 d o key = do value ← object_get d o key; value_i64 d value

unfoldable pub object_get_boolean : Document → ℕ → Bytes → Outcome Error Bool
object_get_boolean d o key = do value ← object_get d o key; value_boolean d value
