-- ===== src/Writer/Copy.antt =====
-- The calls of src/writer.c that copy a value of a document, recursively. `copy_value` goes one
-- level deeper on each unit of fuel; a value behind the fuel has no type, as one out of range.
pub mod Values
pub mod Runs
pub mod Except
pub mod Replay
pub mod Fuel
pub mod Calls
pub mod Enough
use maelys_json.Base.{
  ℕ, zero, suc, ◌+◌, ◌-◌, Bool, true, false, not, ◌&&◌, ◌||◌, List, [], ◌∷◌, Option, none, some,
  Bytes, length, ltb, ◌==◌, Outcome, ok, err, if◌then◌else◌,
}
use maelys_json.Base.Int.{ℤ}
use maelys_json.Document.{Document}
use maelys_json.Document.Access.{
  value_type, same_kind, same_bytes, object_size, object_member_at, array_size, array_get,
  value_string, value_number_text, value_boolean,
}
use maelys_json.Document.Integers.{value_u64, value_i64}
use maelys_json.Types.{
  Error, argument, state, not_integer, Kind, none_kind, object, array, string, number, boolean,
  null, Limits,
}
use maelys_json.Writer.Calls.{
  container_begin, container_end, writer_key, writer_string, write_number_lexeme, writer_u64,
  writer_i64, writer_boolean, writer_null,
}
use maelys_json.Writer.State.{
  Writer, Act, chain, ◌>>=◌, ◌>>◌, done, refuse, lift, writer_fail, writer_ready,
}

-- An integer that was read, or what is done with a lexeme that is none.
unfoldable pub integer_or :
    {A : Type 0} → Outcome Error A → (A → Act (Unit {0})) → Act (Unit {0}) → Act (Unit {0})
integer_or (ok n) write other = write n
integer_or (err not_integer) write other = other
integer_or (err e) write other = refuse e

unfoldable pub is_negative : Bytes → Bool
is_negative [] = false
is_negative (b ∷ bs) = b == b'-'

unfoldable pub copy_number : (ℕ → Bool) → Document → ℕ → Act (Unit {0})
copy_number granted d value = do
  text ← lift (value_number_text d value)
  (λ w.
      let lexeme = write_number_lexeme granted text w.limits.maximum_bytes in
      if is_negative text
      then integer_or (value_i64 d value) (writer_i64 granted) lexeme w
      else integer_or (value_u64 d value) (writer_u64 granted) lexeme w)

-- The loop of `copy_object`, `left` members from `i` on.
unfoldable pub copy_members :
    (ℕ → Bool) → (ℕ → Act (Unit {0})) → Document → ℕ → ℕ → ℕ → Act (Unit {0})
copy_members granted copy d o i zero = done tt
copy_members granted copy d o i (suc left) = do
  (key, member) ← lift (object_member_at d o i)
  writer_key granted key
  copy member
  copy_members granted copy d o (i + 1) left

unfoldable pub copy_elements : (ℕ → Act (Unit {0})) → Document → ℕ → ℕ → ℕ → Act (Unit {0})
copy_elements copy d a i zero = done tt
copy_elements copy d a i (suc left) = do
  element ← lift (array_get d a i)
  copy element
  copy_elements copy d a (i + 1) left

unfoldable pub copy_object : (ℕ → Bool) → (ℕ → Act (Unit {0})) → Document → ℕ → Act (Unit {0})
copy_object granted copy d o = do
  count ← lift (object_size d o)
  container_begin granted object
  copy_members granted copy d o 0 count
  container_end object

unfoldable pub copy_array : (ℕ → Bool) → (ℕ → Act (Unit {0})) → Document → ℕ → Act (Unit {0})
copy_array granted copy d a = do
  count ← lift (array_size d a)
  container_begin granted array
  copy_elements copy d a 0 count
  container_end array

-- The branches of `copy_value`, by the value's type.
unfoldable pub copy_kind : (ℕ → Bool) → (ℕ → Act (Unit {0})) → Document → ℕ → Kind → Act (Unit {0})
copy_kind granted copy d value object = copy_object granted copy d value
copy_kind granted copy d value array = copy_array granted copy d value
copy_kind granted copy d value string = do
  text ← lift (value_string d value)
  writer_string granted text
copy_kind granted copy d value number = copy_number granted d value
copy_kind granted copy d value boolean = do
  enabled ← lift (value_boolean d value)
  writer_boolean granted enabled
copy_kind granted copy d value null = writer_null granted
copy_kind granted copy d value none_kind = refuse argument

unfoldable pub copy_value : ℕ → (ℕ → Bool) → Document → ℕ → Act (Unit {0})
copy_value zero granted d value = refuse argument
copy_value (suc fuel) granted d value =
    copy_kind granted (copy_value fuel granted d) d value (value_type d value)

-- An ARGUMENT error inside a copy is recorded as STATE and returned as it is.
unfoldable pub copy_failed : Error → Act (Unit {0})
copy_failed argument w = (err argument, (writer_fail {A = Unit {0}} state w).1)
copy_failed e w = writer_fail e w

unfoldable pub copied : Outcome Error (Unit {0}) × Writer → Outcome Error (Unit {0}) × Writer
copied (ok u, w) = (ok u, w)
copied (err e, w) = copy_failed e w

unfoldable pub copy_fuel : Document → ℕ
copy_fuel d = length d.tokens + 1

unfoldable pub writer_value : (ℕ → Bool) → Document → ℕ → Act (Unit {0})
writer_value granted d value w =
    let copy : Act (Unit {0}) = do
      writer_ready
      (λ v. copied (copy_value (copy_fuel d) granted d value v))
    in if same_kind (value_type d value) none_kind then (err argument, w) else copy w

unfoldable pub key_excluded : Bytes → List Bytes → Bool
key_excluded key [] = false
key_excluded key (excluded ∷ keys) = same_bytes excluded key || key_excluded key keys

-- The loop of `maelys_json_writer_object_begin_except`.
unfoldable pub copy_others : (ℕ → Bool) → Document → ℕ → List Bytes → ℕ → ℕ → Act (Unit {0})
copy_others granted d o excluded i zero = done tt
copy_others granted d o excluded i (suc left) = do
  (key, member) ← lift (object_member_at d o i)
  (if key_excluded key excluded
      then done tt
      else (do writer_key granted key; copy_value (copy_fuel d) granted d member))
  copy_others granted d o excluded (i + 1) left

unfoldable pub writer_object_begin_except : (ℕ → Bool) → Document → ℕ → List Bytes → Act (Unit {0})
writer_object_begin_except granted d o excluded w =
    let others : Act (Unit {0}) = do
      count ← lift (object_size d o)
      copy_others granted d o excluded 0 count
    in let begun : Act (Unit {0}) = do
      writer_ready
      container_begin granted object
      (λ v. copied (others v))
      in if same_kind (value_type d o) object then begun w else (err argument, w)
