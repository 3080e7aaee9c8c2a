-- ===== src/Utf8/Validate.antt =====
-- `utf8_valid_prefix` and `maelys_json_utf8_validate`. The offset `i` is the bytes consumed, and
-- each round of the loop works on the bytes behind it.
use maelys_json.Base.{
  ℕ, zero, suc, ◌+◌, Bool, not, ◌&&◌, ◌||◌, [], ◌∷◌, Option, none, some, bit_and, Bytes, length,
  within, leb, ltb, ◌==◌, if◌then◌else◌,
}

-- `(byte & 0xc0u) == 0x80u`
unfoldable pub continuation : ℕ → Bool
continuation byte = bit_and byte 0xc0 == 0x80

-- The branches of one round for a lead byte `a`: the bytes behind the sequence, or `return i`.
unfoldable pub two_bytes : Bytes → Option Bytes
two_bytes [] = none
two_bytes (b ∷ bs) = if not (continuation b) then none else some bs

unfoldable pub three_bytes : ℕ → Bytes → Option Bytes
three_bytes a (b ∷ c ∷ bs) =
    if not (continuation b) || not (continuation c)
    then none
    else if (a == 0xe0 && ltb b 0xa0) || (a == 0xed && leb 0xa0 b)
    then none
    else some bs
three_bytes a _ = none

unfoldable pub four_bytes : ℕ → Bytes → Option Bytes
four_bytes a (b ∷ c ∷ d ∷ bs) =
    if not (continuation b) || not (continuation c) || not (continuation d)
    then none
    else if (a == 0xf0 && ltb b 0x90) || (a == 0xf4 && leb 0x90 b)
    then none
    else some bs
four_bytes a _ = none

-- One round: how many bytes it consumes, and the rest.
abbrev pub sized : ℕ → Option Bytes → Option (ℕ × Bytes)
sized n none = none
sized n (some rest) = some (n, rest)

unfoldable pub sequence : ℕ → Bytes → Option (ℕ × Bytes)
unfolding two_bytes three_bytes four_bytes
sequence a bs =
    if leb a 0x7f
    then some (1, bs)
    else if within 0xc2 0xdf a
    then sized 2 (two_bytes bs)
    else if within 0xe0 0xef a
    then sized 3 (three_bytes a bs)
    else if within 0xf0 0xf4 a
    then sized 4 (four_bytes a bs)
    else none

-- The loop. Each round consumes a byte at least, so `length` rounds are enough.
unfoldable pub prefix_loop : ℕ → Bytes → ℕ
prefix_loop fuel [] = 0
prefix_loop zero (a ∷ bs) = 0
prefix_loop (suc fuel) (a ∷ bs) = elim (sequence a bs) [
  | none ↦ 0
  | some (n, rest) ↦ n + prefix_loop fuel rest
]

unfoldable pub utf8_valid_prefix : Bytes → ℕ
unfolding prefix_loop
utf8_valid_prefix bytes = prefix_loop (length bytes) bytes

unfoldable pub utf8_validate : Bytes → Bool
utf8_validate bytes = utf8_valid_prefix bytes == length bytes
