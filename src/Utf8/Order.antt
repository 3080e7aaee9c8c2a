-- ===== src/Utf8/Order.antt =====
-- `utf16_next` and `maelys_json_utf16_compare`: the key order of RFC 8785.
pub mod Units
pub mod Total
use Prim.Native.Nat.{compare, Ordering}
use maelys_json.Base.{
  ℕ, zero, suc, ◌+◌, ◌-◌, ◌*◌, ◌/◌, Bool, not, [], ◌∷◌, Option, none, some, bit_and, Bytes, length,
  drop, leb, ◌==◌, if◌then◌else◌,
}
use maelys_json.Utf8.Points.{utf8_decode}

-- `utf16_cursor_t`: the bytes behind the offset, and the low surrogate that is due (0 for none).
pub record Cursor : Type 0 where
  pub rest : Bytes
  pub pending : ℕ

-- The part behind the test of the pending surrogate.
unfoldable pub next_point : Bytes → Option (ℕ × Cursor)
next_point [] = none
next_point (b ∷ bs) =
    let decoded = utf8_decode (b ∷ bs) in
    let point = decoded.0 in
    let rest = drop decoded.1 (b ∷ bs) in
    let above = point - 0x1_0000 in
    if leb 0x1_0000 point
    then some
        (0xd800 + above / 0x400, record { rest = rest; pending = 0xdc00 + bit_and above 0x3ff })
    else some (point, record { rest = rest; pending = 0 })

-- The unit and the cursor behind it; `none` is a return of 0.
unfoldable pub utf16_next : Cursor → Option (ℕ × Cursor)
unfolding next_point
utf16_next c =
    if not (c.pending == 0) then some (c.pending, record c { pending = 0 }) else next_point c.rest

-- The loop, with `lt`, `eq` and `gt` for a negative, zero and positive result. A string has no more
-- units than bytes; if the fuel ran out, which does not happen, the result would be `eq`.
unfoldable pub compare_loop : ℕ → Cursor → Cursor → Ordering
compare_loop zero a b = Ordering.eq
compare_loop (suc fuel) a b = elim (utf16_next a) [
  | none ↦ elim (utf16_next b) [ none ↦ Ordering.eq | some _ ↦ Ordering.lt ]
  | some (unit_a, a') ↦ elim (utf16_next b) [
    | none ↦ Ordering.gt
    | some (unit_b, b') ↦ elim (compare unit_a unit_b) [
      | Ordering.lt ↦ Ordering.lt
      | Ordering.gt ↦ Ordering.gt
      | Ordering.eq ↦ compare_loop fuel a' b'
    ]
  ]
]

unfoldable pub utf16_compare : Bytes → Bytes → Ordering
utf16_compare left right =
    compare_loop (length left + 1) (record { rest = left; pending = 0 })
      (record { rest = right; pending = 0 })
