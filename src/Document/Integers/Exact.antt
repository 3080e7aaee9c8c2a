-- ===== src/Document/Integers/Exact.antt =====
-- The digit loop is exact: nothing wraps, and nothing that fits is refused.
use maelys_json.Base.{
  ℕ, ◌+◌, ◌-◌, ◌*◌, ◌^◌, ◌≤◌, ◌<◌, ◌≡◌, inl, inr, refl, sym, subst, Bool, true, false, [], ◌∷◌,
  Bytes, All, ◌==◌, ==_iff, ok, err, ◌>>=◌, >>=-eq-ok, arith, Bool-cases,
}
use maelys_json.Base.Int.{ℤ, pos, negsuc, signed}
use maelys_json.Common.Decimal.{IsDigit, value}
use maelys_json.Common.Number.{is_digit}
use maelys_json.Document.Integers.{read_digits, lexeme_magnitude}
use maelys_json.Types.{range, i64_max}

le-value : (m : ℕ) (bs : Bytes) → m ≤ value m bs
le-value m [] = omega arith
le-value m (b ∷ bs) = omega (arith, le-value (m * 10 + (b - b'0')) bs)

-- What the loop makes of a lexeme, for a maximum that is a `uint64_t` and at least 9.
module _ (maximum : ℕ) (nine : 9 ≤ maximum) (fits : maximum < 2 ^ 64) where
  digits_sound :
      (bs : Bytes) (m r : ℕ)
      → m ≤ maximum
      → read_digits maximum bs m ≡ ok r
      → All IsDigit bs × (r ≡ value m bs) × (r ≤ maximum)
  unfolding read_digits is_digit
  digits_sound [] m r le h = ground arith
  digits_sound (b ∷ bs) m r le h = ground (arith, digits_sound bs (m * 10 + (b - b'0')) r)

  digits_complete :
      (bs : Bytes) (m : ℕ)
      → All IsDigit bs
      → value m bs ≤ maximum
      → read_digits maximum bs m ≡ ok (value m bs)
  unfolding read_digits is_digit
  digits_complete [] m h le = refl
  digits_complete (b ∷ bs) m (hb, h) le =
      ground (arith, digits_complete bs (m * 10 + (b - b'0')) h, le-value (m * 10 + (b - b'0')) bs)

  digits_range :
      (bs : Bytes) (m : ℕ)
      → m ≤ maximum
      → All IsDigit bs
      → maximum < value m bs
      → read_digits maximum bs m ≡ err range
  unfolding read_digits is_digit
  digits_range [] m le h lt = absurd (omega arith)
  digits_range (b ∷ bs) m le (hb, h) lt = ground (arith, digits_range bs (m * 10 + (b - b'0')))

-- The integer that a lexeme spells.
pub data Spells : Bytes → ℤ → Type 0 where
  plain : {ds : Bytes} {z : ℤ} → All IsDigit ds → z ≡ pos (value 0 ds) → Spells ds z
  minus : {ds : Bytes} {z : ℤ} → All IsDigit ds → z ≡ signed (value 0 ds) → Spells (b'-' ∷ ds) z

-- The range of an `int64_t`.
abbrev pub IsI64 : ℤ → Type 0
IsI64 (pos n) = n ≤ i64_max
IsI64 (negsuc n) = n ≤ i64_max

-- A lexeme's magnitude and sign.
pub data Splits : Bytes → ℕ → Bool → Type 0 where
  plain : {ds : Bytes} {m : ℕ} → All IsDigit ds → m ≡ value 0 ds → Splits ds m false
  minus : {ds : Bytes} {m : ℕ} → All IsDigit ds → m ≡ value 0 ds → Splits (b'-' ∷ ds) m true

plain_magnitude :
    (maximum : ℕ) (ds : Bytes)
    → All IsDigit ds
    → lexeme_magnitude maximum ds ≡ (read_digits maximum ds 0 >>= λ m. ok (m, false))
unfolding lexeme_magnitude is_digit
plain_magnitude maximum [] h = refl
plain_magnitude maximum (b ∷ bs) (hb, h) =
    let no_sign : (b == b'-') ≡ false = ground arith in rw no_sign

module _ (maximum : ℕ) (nine : 9 ≤ maximum) (fits : maximum < 2 ^ 64) where
  pub magnitude_sound :
      (t : Bytes) (m : ℕ) (negative : Bool)
      → lexeme_magnitude maximum t ≡ ok (m, negative)
      → Splits t m negative × (m ≤ maximum)
  unfolding lexeme_magnitude
  magnitude_sound [] m negative h =
      let whole : ◌≡◌ {A = ℕ × Bool} (0, false) (m, negative) = cc h in
      subst (λ p. Splits [] p.0 p.1 × (p.0 ≤ maximum)) whole (plain tt refl, omega arith)
  magnitude_sound (b ∷ bs) m negative h = elim (Bool-cases (b == b'-')) [
    | inl e ↦
        let (r, read, pair) = >>=-eq-ok (read_digits maximum bs 0) _ (rw e at h) in
        let (all, exact, le) = digits_sound maximum nine fits bs 0 r (omega arith) read in
        let whole : ◌≡◌ {A = ℕ × Bool} (r, true) (m, negative) = cc pair in
        let minus_sign : b'-' ≡ b = sym ((==_iff b b'-').0 e) in
        subst (λ p. Splits (b ∷ bs) p.0 p.1 × (p.0 ≤ maximum)) whole
          (subst (λ c. Splits (c ∷ bs) r true) minus_sign (minus all exact), le)
    | inr e ↦
        let (r, read, pair) = >>=-eq-ok (read_digits maximum (b ∷ bs) 0) _ (rw e at h) in
        let (all, exact, le) = digits_sound maximum nine fits (b ∷ bs) 0 r (omega arith) read in
        let whole : ◌≡◌ {A = ℕ × Bool} (r, false) (m, negative) = cc pair in
        subst (λ p. Splits (b ∷ bs) p.0 p.1 × (p.0 ≤ maximum)) whole (plain all exact, le)
  ]

  pub magnitude_complete :
      (t : Bytes) (m : ℕ) (negative : Bool)
      → Splits t m negative
      → m ≤ maximum
      → lexeme_magnitude maximum t ≡ ok (m, negative)
  unfolding lexeme_magnitude
  magnitude_complete t m negative (minus {ds} h e) le =
      rw (digits_complete maximum nine fits ds 0 h (omega arith)) (cc e)
  magnitude_complete t m negative (plain h e) le =
      rw (plain_magnitude maximum t h, digits_complete maximum nine fits t 0 h (omega arith)) (cc e)

  pub magnitude_range :
      (t : Bytes) (m : ℕ) (negative : Bool)
      → Splits t m negative
      → maximum < m
      → lexeme_magnitude maximum t ≡ err range
  unfolding lexeme_magnitude
  magnitude_range t m negative (minus {ds} h e) lt =
      rw (digits_range maximum nine fits ds 0 (omega arith) h (omega arith))
  magnitude_range t m negative (plain h e) lt = rw (
    plain_magnitude maximum t h,
    digits_range maximum nine fits t 0 (omega arith) h (omega arith),
  )
