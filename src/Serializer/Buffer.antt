-- ===== src/Serializer/Buffer.antt =====
-- The output buffer of src/serialize.c: it grows on demand, up to the limit on bytes.
pub mod Emits
use maelys_json.Base.{
  ℕ, zero, suc, ◌+◌, ◌-◌, ◌*◌, ◌/◌, Bool, true, false, [], ◌∷◌, ◌++◌, Bytes, length, ltb, leb, ◌==◌,
  Outcome, ok, err, ◌>>=◌, if◌then◌else◌,
}
use maelys_json.Types.{Error, limit, memory}

-- `serializer_t` without the writer, which is an argument. `size` is the length of `bytes`.
pub record Serializer : Type 0 where
  pub bytes : Bytes
  pub capacity : ℕ
  pub maximum : ℕ
  pub indent : Bool
  pub ascii : Bool
  pub requests : ℕ

abbrev pub size : Serializer → ℕ
size s = length s.bytes

-- The loop of `reserve`; 64 rounds double past any `size_t`.
unfoldable pub capacity_loop : ℕ → ℕ → ℕ → ℕ → ℕ
capacity_loop zero maximum needed capacity = capacity
capacity_loop (suc fuel) maximum needed capacity =
    let more =
      capacity_loop fuel maximum needed
        (if ltb (maximum / 2) capacity then maximum else capacity * 2) in
    if ltb capacity needed then more else capacity

unfoldable pub new_capacity : Serializer → ℕ → ℕ
unfolding capacity_loop
new_capacity s needed =
    capacity_loop 64 s.maximum needed (if s.capacity == 0 then 128 else s.capacity)

unfoldable pub reserve : (ℕ → Bool) → ℕ → Serializer → Outcome Error Serializer
reserve granted extra s =
    if ltb (s.maximum - size s) extra
    then err limit
    else if leb (size s + extra) s.capacity
    then ok s
    else if granted s.requests
    then ok (record s { capacity = new_capacity s (size s + extra); requests = s.requests + 1 })
    else err memory

unfoldable pub append : (ℕ → Bool) → Bytes → Serializer → Outcome Error Serializer
append granted [] s = ok s
append granted (b ∷ bs) s = do
  r ← reserve granted (length (b ∷ bs)) s
  ok (record r { bytes = r.bytes ++ b ∷ bs })

abbrev pub append_byte : (ℕ → Bool) → ℕ → Serializer → Outcome Error Serializer
append_byte granted byte = append granted (byte ∷ [])

-- MAELYS_JSON_WRITER_INDENT indents by two spaces.
abbrev pub indent_width : ℕ
indent_width = 2

unfoldable pub append_spaces : (ℕ → Bool) → ℕ → Serializer → Outcome Error Serializer
append_spaces granted zero s = ok s
append_spaces granted (suc n) s = do r ← append_byte granted b' ' s; append_spaces granted n r

unfoldable pub append_break : (ℕ → Bool) → ℕ → Serializer → Outcome Error Serializer
append_break granted level s =
    let broken : Outcome Error Serializer = do
      r ← append_byte granted b'\n' s
      append_spaces granted (level * indent_width) r
    in if s.indent then broken else ok s
