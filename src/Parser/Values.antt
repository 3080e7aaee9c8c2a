-- ===== src/Parser/Values.antt =====
-- `parse_value`, `parse_object` and `parse_array` of src/parser.c. The loops over the members and
pub mod Runs
-- the elements are functions, and each call takes one from the fuel.
use maelys_json.Base.{
  ℕ, zero, suc, ◌+◌, Bool, true, false, not, ◌&&◌, ◌||◌, [], ◌∷◌, Option, none, some, Bytes, leb,
  ◌==◌, Outcome, ok, err, ◌>>=◌, if◌then◌else◌,
}
use maelys_json.Document.{Token, Document}
use maelys_json.Parser.Primitive.{parse_primitive}
use maelys_json.Parser.State.{
  Parser, Parsed, Failure, out_of_fuel, fail, skip_space, at_end, current, advance, add_token,
  update_token, container_delimiter,
}
use maelys_json.Parser.Strings.{parse_string}
use maelys_json.Types.{syntax, limit, Limits, Kind, object, array}

-- What a value begins with: the tests of `parse_value`, in their order.
pub data Start : Type 0 where
  nothing braces brackets quotes other : Start

unfoldable pub start_of : Parser → Start
start_of p =
    if at_end p
    then nothing
    else if current p == b'{'
    then braces
    else if current p == b'['
    then brackets
    else if current p == b'"'
    then quotes
    else other

-- `:` and the byte behind it.
unfoldable pub colon : Parser → Parsed ℕ
colon p =
    if at_end p || not (current p == b':') then fail p syntax p.offset else ok (p.offset, advance p)

-- A container's end, set when it is closed.
unfoldable pub close : ℕ → Parser → Parsed ℕ
close index p = ok (index, update_token index (λ t. record t { end = p.offset }) p)

-- The container's token, behind its opening delimiter and spaces.
unfoldable pub opened : Kind → Option ℕ → ℕ → Parser → Parsed ℕ
opened kind parent depth p = if leb p.limits.maximum_depth depth then fail p limit p.offset else (do
  (index, q) ← add_token kind p.offset parent false p
  ok (index, skip_space (advance q)))

-- Whether the container is empty.
unfoldable pub closes : ℕ → Parser → Bool
closes closing p = not (at_end p) && current p == closing

unfoldable mutual
  pub parse_value : ℕ → Option ℕ → ℕ → Parser → Parsed ℕ
  parse_value zero parent depth p = err out_of_fuel
  parse_value (suc fuel) parent depth p = elim (start_of (skip_space p)) [
    | nothing ↦ fail (skip_space p) syntax (skip_space p).offset
    | braces ↦ parse_object fuel parent depth (skip_space p)
    | brackets ↦ parse_array fuel parent depth (skip_space p)
    | quotes ↦ parse_string parent false (skip_space p)
    | other ↦ parse_primitive parent (skip_space p)
  ]

  pub parse_object : ℕ → Option ℕ → ℕ → Parser → Parsed ℕ
  parse_object zero parent depth p = err out_of_fuel
  parse_object (suc fuel) parent depth p = do
    (index, q) ← opened object parent depth p
    elim (closes b'}' q) [ true ↦ close index (advance q) | false ↦ members fuel index depth q ]

  pub members : ℕ → ℕ → ℕ → Parser → Parsed ℕ
  members zero index depth p = err out_of_fuel
  members (suc fuel) index depth p = do
    (key, q) ← parse_string (some index) true p
    (at, q) ← colon (skip_space q)
    (value, q) ← parse_value fuel (some index) (depth + 1) q
    (closed, q) ← container_delimiter b'}' q
    elim closed [ true ↦ close index q | false ↦ members fuel index depth q ]

  pub parse_array : ℕ → Option ℕ → ℕ → Parser → Parsed ℕ
  parse_array zero parent depth p = err out_of_fuel
  parse_array (suc fuel) parent depth p = do
    (index, q) ← opened array parent depth p
    elim (closes b']' q) [ true ↦ close index (advance q) | false ↦ elements fuel index depth q ]

  pub elements : ℕ → ℕ → ℕ → Parser → Parsed ℕ
  elements zero index depth p = err out_of_fuel
  elements (suc fuel) index depth p = do
    (value, q) ← parse_value fuel (some index) (depth + 1) p
    (closed, q) ← container_delimiter b']' q
    elim closed [ true ↦ close index q | false ↦ elements fuel index depth q ]
