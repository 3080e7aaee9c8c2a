-- ===== src/Common/Position.antt =====
-- `maelys_json_error_set`: line and column of a byte offset.
use maelys_json.Base.{
  ℕ, ◌+◌, ◌≡◌, ◌⊎◌, inl, inr, refl, append_assoc, length-append, ap, [], ◌∷◌, ◌++◌, Bytes, arith,
  ltb, ◌==◌, if◌then◌else◌, length, take, min,
}
use maelys_json.Types.{Error}

-- `maelys_json_error_t`
pub record ErrorAt : Type 0 where
  pub code : Error
  pub offset : ℕ
  pub line : ℕ
  pub column : ℕ

-- The loop over the bytes before the offset.
advance : Bytes → ErrorAt → ErrorAt
advance [] e = e
advance (b ∷ bs) e = advance bs (
    if b == b'\n'
    then record e { line = e.line + 1; column = 1 }
    else record e { column = e.column + 1 })

unfoldable pub error_set : Error → Bytes → ℕ → ErrorAt
unfolding advance
error_set code bytes offset =
    let at = if ltb (length bytes) offset then length bytes else offset in
    advance (take at bytes) (record { code = code; offset = at; line = 1; column = 1 })

abbrev pub newlines : Bytes → ℕ
newlines [] = 0
newlines (b ∷ bs) = (if b == b'\n' then 1 else 0) + newlines bs

advance-append : (xs ys : Bytes) (e : ErrorAt) → advance (xs ++ ys) e ≡ advance ys (advance xs e)
unfolding advance
advance-append [] ys e = refl
advance-append (x ∷ xs) ys e = advance-append xs ys _

advance_plain :
    (xs : Bytes) (e : ErrorAt)
    → newlines xs ≡ 0
    → advance xs e ≡ record e { column = e.column + length xs }
unfolding advance
advance_plain [] e h = ground arith
advance_plain (x ∷ xs) e h = ground (arith, advance_plain xs (record e { column = e.column + 1 }))

advance-line :
    (xs : Bytes) (e : ErrorAt)
    → ((advance xs e).line ≡ e.line + newlines xs)
      × ((advance xs e).code ≡ e.code)
      × ((advance xs e).offset ≡ e.offset)
unfolding advance
advance-line [] e = (omega arith, refl, refl)
advance-line (x ∷ xs) e = ground (
  arith,
  advance-line xs (record e { line = e.line + 1; column = 1 }),
  advance-line xs (record e { column = e.column + 1 }),
)

newlines-append : (xs ys : Bytes) → newlines (xs ++ ys) ≡ newlines xs + newlines ys
newlines-append [] ys = omega arith
newlines-append (x ∷ xs) ys = ground (arith, newlines-append xs ys)

take-append : (xs ys : Bytes) → take (length xs) (xs ++ ys) ≡ xs
take-append [] ys = refl
take-append (x ∷ xs) ys = ap (λ t. x ∷ t) (take-append xs ys)

-- Nothing, or whole lines.
abbrev pub AreLines : Bytes → Type 0
AreLines bs = (bs ≡ []) ⊎ ((b : Bytes) × (bs ≡ b ++ b'\n' ∷ []))

advance-AreLines :
    (before : Bytes) (e : ErrorAt)
    → AreLines before
    → e.column ≡ 1
    → advance before e ≡ record e { line = e.line + newlines before; column = 1 }
advance-AreLines before e (inl none) h = rw none (unfold advance in ground arith)
advance-AreLines before e (inr (b, ends)) h =
    rw (ends, advance-append, newlines-append) (unfold advance in ground (arith, advance-line b e))

clamp_lem : (n offset : ℕ) → (if ltb n offset then n else offset) ≡ min offset n
clamp_lem n offset = ground arith

-- The position of any offset: it falls behind whole lines `before` and `last`, the start of a line;
-- an offset beyond the input counts as its end.
pub error_set-position :
    (code : Error) (before last rest : Bytes) (offset : ℕ)
    → AreLines before
    → newlines last ≡ 0
    → min offset (length (before ++ (last ++ rest))) ≡ length before + length last
    → error_set code (before ++ (last ++ rest)) offset ≡ record {
      code = code;
      offset = length before + length last;
      line = newlines before + 1;
      column = length last + 1;
    }
unfolding error_set
error_set-position code before last rest offset lines h at =
    let cut : take (length before + length last) (before ++ (last ++ rest)) ≡ before ++ last =
      rw (← length-append before last, ← append_assoc before last rest) (take-append _ rest) in
    let start : ErrorAt = record {
      code = code;
      offset = length before + length last;
      line = 1;
      column = 1;
    } in
    rw (clamp_lem, at, cut, advance-append, advance-AreLines before start lines refl)
      (rw (advance_plain last _ h) (ground arith))
