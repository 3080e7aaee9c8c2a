-- ===== src/Common/Number.antt =====
-- `maelys_json_number_syntax`. The offset into the bytes is the rest that it leaves unread.
pub mod Grammar
use maelys_json.Base.{
  ℕ, ◌+◌, ◌≡◌, refl, Bool, true, false, not, ◌&&◌, ◌||◌, [], ◌∷◌, Bytes, arith, within, ◌==◌,
  if◌then◌else◌, codes, length,
}

unfoldable pub is_digit : ℕ → Bool
is_digit b = within b'0' b'9' b

-- `while (offset < size && is_digit(bytes[offset])) ++offset;`
pub skip_digits : Bytes → Bytes
skip_digits [] = []
skip_digits (b ∷ bs) = if is_digit b then skip_digits bs else b ∷ bs

-- `offset == size` at the return.
is_end : Bytes → Bool
is_end [] = true
is_end (b ∷ bs) = false

-- Digits that are counted: false if there is none, else what `next` says of the rest.
digits_then : (Bytes → Bool) → Bytes → Bool
digits_then next [] = false
digits_then next (b ∷ bs) = if is_digit b then next (skip_digits bs) else false

-- The part from `if (offset < size && (bytes[offset] == 'e' …))`.
skip_sign : Bytes → Bytes
skip_sign [] = []
skip_sign (b ∷ bs) = if b == b'+' || b == b'-' then bs else b ∷ bs

exponent_syntax : Bytes → Bool
exponent_syntax [] = true
exponent_syntax (b ∷ bs) =
    if b == b'e' || b == b'E' then digits_then is_end (skip_sign bs) else false

-- The part from `if (offset < size && bytes[offset] == '.')`.
fraction_syntax : Bytes → Bool
fraction_syntax [] = true
fraction_syntax (b ∷ bs) =
    if b == b'.' then digits_then exponent_syntax bs else exponent_syntax (b ∷ bs)

integer_syntax : Bytes → Bool
integer_syntax [] = false
integer_syntax (b ∷ bs) =
    if b == b'0'
    then fraction_syntax bs
    else if not (within b'1' b'9' b)
    then false
    else fraction_syntax (skip_digits (b ∷ bs))

unfoldable pub number_syntax : Bytes → Bool
unfolding integer_syntax fraction_syntax exponent_syntax skip_sign digits_then is_end skip_digits
    is_digit
number_syntax [] = false
number_syntax (b ∷ bs) = integer_syntax (if b == b'-' then bs else b ∷ bs)
