-- ===== src/Document/Integers/Values.antt =====
-- The integers that are read are those that the lexemes spell.
use maelys_json.Base.{
  ℕ, zero, suc, ◌+◌, ◌^◌, ◌≤◌, ◌<◌, ◌≡◌, ◌↔◌, inl, inr, refl, sym, ap, ◌∙◌, Bool, true, false,
  Bytes, leb, ok, err, >>=-eq-ok, if◌then◌else◌, arith, Bool-cases, leb→le,
}
use maelys_json.Base.Int.{ℤ, pos, negsuc, signed}
use maelys_json.Common.Decimal.{value, print_u64, print_i64, print_u64-IsDigit, value-print_u64}
use maelys_json.Document.{Document, Token}
use maelys_json.Document.Access.{text_of, token_of}
use maelys_json.Document.Integers.{read_magnitude, as_u64, as_i64, value_u64, value_i64}
use maelys_json.Types.{range, number, u64_max, i64_max}
use maelys_json.Document.Integers.Exact.{
  Spells, plain, minus, IsI64, Splits, magnitude_sound, magnitude_complete, magnitude_range,
}

as_u64-Spells :
    {t : Bytes} {m : ℕ} {negative : Bool} {n : ℕ}
    → Splits t m negative
    → as_u64 m negative ≡ ok n
    → Spells t (pos n) × (n ≡ m)
unfolding as_u64
as_u64-Spells (plain h e) k = (plain h (ground arith), ground arith)
as_u64-Spells (minus h e) k = (minus h (ground arith), ground arith)

Spells-as_u64 :
    {t : Bytes} {n : ℕ}
    → Spells t (pos n)
    → (negative : Bool) × Splits t n negative × (as_u64 n negative ≡ ok n)
unfolding as_u64
Spells-as_u64 (plain h e) = (false, plain h (ground arith), refl)
Spells-as_u64 (minus h e) = (true, minus h (ground arith), ground arith)

as_i64-Spells :
    {t : Bytes} {m : ℕ} {negative : Bool} {z : ℤ}
    → Splits t m negative
    → m ≤ i64_max + 1
    → as_i64 m negative ≡ ok z
    → Spells t z × IsI64 z
unfolding as_i64
as_i64-Spells (plain h e) le k = (plain h (ground arith), ground arith)
as_i64-Spells (minus h e) le k = (minus h (ground arith), ground arith)

-- A spelled integer as the magnitude and sign that the code reads.
abbrev join : ℕ → Bool → ℤ
join m negative = if negative then signed m else pos m

Spells-Splits :
    {t : Bytes} {z : ℤ}
    → Spells t z
    → (m : ℕ) × ((negative : Bool) × (Splits t m negative × (z ≡ join m negative)))
Spells-Splits (plain {ds} h e) = (value 0 ds, (false, (plain h refl, e)))
Spells-Splits (minus {ds} h e) = (value 0 ds, (true, (minus h refl, e)))

as_i64-join :
    (m : ℕ) (negative : Bool)
    → IsI64 (join m negative)
    → (as_i64 m negative ≡ ok (join m negative)) × (m ≤ i64_max + 1)
unfolding as_i64
as_i64-join m true h = (refl, ground arith)
as_i64-join m false h = (ground arith, omega arith)

as_i64-range :
    (m : ℕ) (negative : Bool)
    → ¬ (IsI64 (join m negative))
    → m ≤ i64_max + 1
    → as_i64 m negative ≡ err range
unfolding as_i64
as_i64-range m true h le = absurd (h (ground arith))
as_i64-range m false h le = ground arith

-- The value `v` is a number whose lexeme spells `z`.
pub record SpellsAt (d : Document) (v : ℕ) (z : ℤ) : Type 0 where
  pub token : Token
  pub is_number : token_of d v number ≡ ok token
  pub spells : Spells (text_of token) z

-- What a magnitude read from a document is.
record ReadAt (d : Document) (v maximum m : ℕ) (negative : Bool) : Type 0 where
  token : Token
  is_number : token_of d v number ≡ ok token
  splits : Splits (text_of token) m negative
  fits : m ≤ maximum

read_magnitude-ReadAt :
    (d : Document) (v maximum m : ℕ) (negative : Bool)
    → 9 ≤ maximum
    → maximum < 2 ^ 64
    → read_magnitude d v maximum ≡ ok (m, negative)
    → ReadAt d v maximum m negative
unfolding read_magnitude
read_magnitude-ReadAt d v maximum m negative nine fits h =
    let (token, t, lexeme) = >>=-eq-ok (token_of d v number) _ h in
    let (splits, le) = magnitude_sound maximum nine fits (text_of token) m negative lexeme in
    record { token = token; is_number = t; splits = splits; fits = le }

-- The reader of unsigned integers gives exactly the integers of its range that lexemes spell.
pub value_u64_iff :
    (d : Document) (v n : ℕ) → (value_u64 d v ≡ ok n) ↔ (SpellsAt d v (pos n) × (n ≤ u64_max))
unfolding value_u64
value_u64_iff d v n = (sound, complete)
  where
    sound : value_u64 d v ≡ ok n → SpellsAt d v (pos n) × (n ≤ u64_max)
    sound h =
        let ((m, negative), read, last) = >>=-eq-ok (read_magnitude d v u64_max) _ h in
        let r = read_magnitude-ReadAt d v u64_max m negative (omega arith) (omega arith) read in
        let (spells, same) = as_u64-Spells r.splits last in
        (
          record { token = r.token; is_number = r.is_number; spells = spells },
          omega (arith, r.fits, same),
        )

    complete : SpellsAt d v (pos n) × (n ≤ u64_max) → value_u64 d v ≡ ok n
    complete (i, le) =
        let (negative, splits, last) = Spells-as_u64 i.spells in
        unfold read_magnitude in
        rw
          (
            i.is_number,
            magnitude_complete u64_max (omega arith) (omega arith) (text_of i.token) n negative
                splits le,
          )
          last

-- The reader of signed integers gives exactly the integers of its range that lexemes spell.
pub value_i64_iff :
    (d : Document) (v : ℕ) (z : ℤ) → (value_i64 d v ≡ ok z) ↔ (SpellsAt d v z × IsI64 z)
unfolding value_i64
value_i64_iff d v z = (sound, complete)
  where
    sound : value_i64 d v ≡ ok z → SpellsAt d v z × IsI64 z
    sound h =
        let ((m, negative), read, last) = >>=-eq-ok (read_magnitude d v (i64_max + 1)) _ h in
        let r =
          read_magnitude-ReadAt d v (i64_max + 1) m negative (omega arith) (omega arith) read in
        let (spells, in_range) = as_i64-Spells r.splits r.fits last in
        (record { token = r.token; is_number = r.is_number; spells = spells }, in_range)

    complete : SpellsAt d v z × IsI64 z → value_i64 d v ≡ ok z
    complete (i, h) =
        let (m, (negative, (splits, e))) = Spells-Splits i.spells in
        let (last, le) = as_i64-join m negative (rw e at h) in
        unfold read_magnitude in
        rw
          (
            i.is_number,
            magnitude_complete (i64_max + 1) (omega arith) (omega arith) (text_of i.token) m
                negative splits le,
          )
          (last ∙ ap ok (sym e))

as_u64-range :
    (m : ℕ) (negative : Bool)
    → ¬ ((n : ℕ) × (join m negative ≡ pos n) × (n ≤ u64_max))
    → m ≤ u64_max
    → as_u64 m negative ≡ err range
unfolding as_u64
as_u64-range m false h le = absurd (h (m, refl, le))
as_u64-range zero true h le = absurd (h (0, refl, omega arith))
as_u64-range (suc m) true h le = ground arith

-- What the reading of an integer's magnitude gives, in and out of range.
module _ (d : Document) (v m maximum : ℕ) (negative : Bool) (token : Token)
    (is_number : token_of d v number ≡ ok token) (splits : Splits (text_of token) m negative)
    (nine : 9 ≤ maximum) (fits : maximum < 2 ^ 64) where
  read_inside : m ≤ maximum → read_magnitude d v maximum ≡ ok (m, negative)
  unfolding read_magnitude
  read_inside le =
      rw is_number (magnitude_complete maximum nine fits (text_of token) m negative splits le)

  read_outside : maximum < m → read_magnitude d v maximum ≡ err range
  unfolding read_magnitude
  read_outside lt =
      rw is_number (magnitude_range maximum nine fits (text_of token) m negative splits lt)

-- An integer that a lexeme spells is refused as out of range wherever it is not in the reader's
-- range.
pub value_range :
    (d : Document) (v : ℕ) (z : ℤ)
    → SpellsAt d v z
    → (¬ (IsI64 z) → value_i64 d v ≡ err range)
      × (¬ ((n : ℕ) × (z ≡ pos n) × (n ≤ u64_max)) → value_u64 d v ≡ err range)
unfolding value_i64 value_u64
value_range d v z i =
    let (m, (negative, (splits, e))) = Spells-Splits i.spells in
    (
      λ h. elim (Bool-cases (leb m (i64_max + 1))) [
        | inl le ↦
            rw
              (read_inside d v m (i64_max + 1) negative i.token i.is_number splits (omega arith)
                (omega arith) (leb→le m _ le))
              (as_i64-range m negative (rw e at h) (leb→le m _ le))
        | inr gt ↦ rw (
            read_outside d v m (i64_max + 1) negative i.token i.is_number splits (omega arith)
              (omega arith) (ground arith))
      ],
      λ h. elim (Bool-cases (leb m u64_max)) [
        | inl le ↦
            rw
              (read_inside d v m u64_max negative i.token i.is_number splits (omega arith)
                (omega arith) (leb→le m _ le))
              (as_u64-range m negative (rw e at h) (leb→le m _ le))
        | inr gt ↦ rw (
            read_outside d v m u64_max negative i.token i.is_number splits (omega arith)
              (omega arith) (ground arith))
      ],
    )

-- The writer's print of an integer spells that integer.
pub print_u64-Spells : (n : ℕ) → Spells (print_u64 n) (pos n)
print_u64-Spells n = plain (print_u64-IsDigit n) (ap pos (sym (value-print_u64 n)))

pub print_i64-Spells : (z : ℤ) → Spells (print_i64 z) z
unfolding print_i64
print_i64-Spells (pos n) = print_u64-Spells n
print_i64-Spells (negsuc n) = minus (print_u64-IsDigit (n + 1)) (rw value-print_u64 (ground arith))
