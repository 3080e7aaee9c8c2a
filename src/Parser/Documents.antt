-- ===== src/Parser/Documents.antt =====
-- `maelys_json_document_parse` of src/parser.c, its allocation bound and its allocation.
pub mod Bounds
use maelys_json.Base.{
  ℕ, zero, suc, ◌+◌, ◌-◌, ◌*◌, ◌/◌, Bool, true, false, ◌&&◌, ◌||◌, not, List, [], ◌∷◌, ◌++◌, Option,
  none, some, Bytes, length, ltb, leb, ◌==◌, Outcome, ok, err, ◌>>=◌, if◌then◌else◌,
}
use maelys_json.Common.Limits.{limits_resolve}
use maelys_json.Common.Position.{error_set}
use maelys_json.Document.{Document}
use maelys_json.Keyset.{Keyset, keyset_capacity, keyset_init}
use maelys_json.Parser.Compact.{build_children, compact_document}
use maelys_json.Parser.State.{Parser, Failure, failed, fail, out_of_fuel, Parsed, size, skip_space}
use maelys_json.Parser.Values.{parse_value}
use maelys_json.Types.{
  Error, argument, limit, memory, syntax, Profile, rfc8259, contract_ascii, rfc8259_last_wins,
  Limits, size_max,
}

-- The sizes of the program's structures, which the C compiler chooses.
pub record Sizes : Type 0 where
  pub document : ℕ
  pub token : ℕ

-- Which allocations succeed.
pub record Memory : Type 0 where
  pub document : Bool
  pub keys : Bool
  pub growth : Bool
  pub packed : Bool
  pub children : Bool

-- The sum of the sizes, each at most what SIZE_MAX leaves.
unfoldable pub total_bytes : List ℕ → ℕ → Outcome Error ℕ
total_bytes [] total = ok total
total_bytes (n ∷ ns) total =
    let rest = total_bytes ns (total + n) in if ltb (size_max - total) n then err limit else rest

unfoldable pub at_least_one : ℕ → ℕ
at_least_one n = if n == 0 then 1 else n

unfoldable pub token_capacity : ℕ → Limits → ℕ
token_capacity size l = at_least_one (if ltb size l.maximum_tokens then size else l.maximum_tokens)

abbrev pub copies : Profile → List ℕ → List ℕ
copies rfc8259_last_wins sizes = sizes ++ sizes
copies _ sizes = sizes

unfoldable pub allocation_sizes : Sizes → ℕ → Profile → Limits → List ℕ
allocation_sizes sizes size profile l =
    let tokens = token_capacity size l in
    (sizes.document ∷ (size + 1) ∷ [])
    ++ (copies profile ((tokens * sizes.token) ∷ [])
        ++ (copies profile ((size + tokens + 1) ∷ [])
            ++ ((keyset_capacity (tokens / 2 + 1) * 8) ∷ (tokens * 8) ∷ [])))

unfoldable pub parse_allocation_bound : Sizes → ℕ → Profile → Option Limits → Outcome Error ℕ
parse_allocation_bound sizes size profile requested =
    let bound : Outcome Error ℕ = do
      l ← limits_resolve requested
      (if ltb l.maximum_bytes size
          then err limit
          else total_bytes (allocation_sizes sizes size profile l) 0)
    in if size == size_max then err argument else bound

unfoldable pub allocate_document : Bool → Bytes → Profile → Limits → Outcome Error Document
allocate_document granted bytes profile l =
    let capacity = token_capacity (length bytes) l in
    if granted
    then ok (record {
      profile = profile;
      bytes = bytes;
      tokens = [];
      token_capacity = capacity;
      arena_used = 0;
      arena_capacity = length bytes + capacity + 1;
      children = [];
      duplicate_count = 0;
    })
    else err memory

-- Each value and each member takes at most three calls, and a byte at least.
abbrev pub fuel_for : Parser → ℕ
fuel_for p = 3 * size p + 3

-- The value, and nothing but spaces behind it.
unfoldable pub parse_text : Parser → Parsed ℕ
parse_text p = do
  (root, q) ← parse_value (fuel_for p) none 0 p
  (if (skip_space q).offset == size q
      then ok (root, skip_space q)
      else fail (skip_space q) syntax (skip_space q).offset)

-- A result that recorded no position yet records the start of the input.
unfoldable pub recorded : {A : Type 0} → Bytes → Outcome Error A → Outcome Failure A
recorded bytes (ok a) = ok a
recorded bytes (err e) = err (failed e (some (error_set e bytes 0)))

-- `recorded` for a failure of the parser.
unfoldable pub recorded_failure : {A : Type 0} → Bytes → Outcome Failure A → Outcome Failure A
recorded_failure bytes (ok a) = ok a
recorded_failure bytes (err (failed e none)) = err (failed e (some (error_set e bytes 0)))
recorded_failure bytes (err (failed e (some at))) = err (failed e (some at))
recorded_failure bytes (err out_of_fuel) = err out_of_fuel

unfoldable pub finish : Memory → Document → Outcome Error Document
finish granted d = do
  packed ← if d.duplicate_count == 0 then ok d else compact_document granted.packed d
  build_children granted.children packed

unfoldable pub document_parse :
    Sizes → Memory → Bytes → Profile → Option Limits → Outcome Failure Document
document_parse sizes granted bytes profile requested =
    let parsed : Outcome Failure Document = do
      l ← recorded [] (limits_resolve requested)
      bound ← recorded bytes (
          if ltb l.maximum_bytes (length bytes)
          then err limit
          else parse_allocation_bound sizes (length bytes) profile (some l))
      d ← recorded bytes (allocate_document granted.document bytes profile l)
      keys ← recorded bytes (keyset_init granted.keys (d.token_capacity / 2 + 1))
      (root, p) ← recorded_failure bytes (
          parse_text (record {
            document = d;
            profile = profile;
            limits = l;
            offset = 0;
            keys = keys;
            growth = granted.growth;
          }))
      recorded bytes (finish granted p.document)
    in if length bytes == size_max
      then err (failed argument (some (error_set argument [] 0)))
      else parsed
