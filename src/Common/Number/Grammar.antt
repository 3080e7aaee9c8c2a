-- ===== src/Common/Number/Grammar.antt =====
-- The number grammar of RFC 8259 section 6, and that the scanner decides it.
use maelys_json.Base.{
  ℕ, ◌≡◌, ◌↔◌, inl, inr, refl, sym, ap, ◌∙◌, Bool, true, false, ◌||◌, [], ◌∷◌, ◌++◌, Bytes, arith,
  within, ◌==◌, Bool-cases, append-nil, ==_iff, subst,
}
use maelys_json.Common.Number.{
  is_digit, skip_digits, is_end, digits_then, skip_sign, exponent_syntax, fraction_syntax,
  integer_syntax, number_syntax,
}

-- 1*DIGIT
pub data IsDigits : Bytes → Type 0 where
  one : {b : ℕ} → is_digit b ≡ true → IsDigits (b ∷ [])
  more : {b : ℕ} {bs : Bytes} → is_digit b ≡ true → IsDigits bs → IsDigits (b ∷ bs)

-- [ minus ]
pub data IsSign : Bytes → Type 0 where
  plain : IsSign []
  minus : IsSign (b'-' ∷ [])

-- zero / ( digit1-9 *DIGIT )
pub data IsInteger : Bytes → Type 0 where
  zero_digit : IsInteger (b'0' ∷ [])
  digits : {b : ℕ} {bs : Bytes} → within b'1' b'9' b ≡ true → IsDigits (b ∷ bs) → IsInteger (b ∷ bs)

-- [ decimal-point 1*DIGIT ]
pub data IsFraction : Bytes → Type 0 where
  absent : IsFraction []
  point : {bs : Bytes} → IsDigits bs → IsFraction (b'.' ∷ bs)

-- [ e [ minus / plus ] 1*DIGIT ]
pub data IsExponent : Bytes → Type 0 where
  absent : IsExponent []
  unsigned :
      {e : ℕ} {bs : Bytes} → (e == b'e' || e == b'E') ≡ true → IsDigits bs → IsExponent (e ∷ bs)
  signed :
      {e s : ℕ} {bs : Bytes}
      → (e == b'e' || e == b'E') ≡ true
      → (s == b'+' || s == b'-') ≡ true
      → IsDigits bs
      → IsExponent (e ∷ s ∷ bs)

-- number = [ minus ] int [ frac ] [ exp ]
pub record IsNumber (bs : Bytes) : Type 0 where
  pub sign : Bytes
  pub integer : Bytes
  pub fraction : Bytes
  pub exponent : Bytes
  pub splits : bs ≡ sign ++ (integer ++ (fraction ++ exponent))
  pub sign_is : IsSign sign
  pub integer_is : IsInteger integer
  pub fraction_is : IsFraction fraction
  pub exponent_is : IsExponent exponent

-- No digit can follow: the end, or another byte.
abbrev Stops : Bytes → Type 0
Stops [] = Unit
Stops (b ∷ bs) = is_digit b ≡ false

skip_digits-Stops : (rest : Bytes) → Stops rest → skip_digits rest ≡ rest
unfolding skip_digits
skip_digits-Stops [] s = refl
skip_digits-Stops (r ∷ rest) s = rw s

skip_digits-append :
    {ds : Bytes} (rest : Bytes) → IsDigits ds → Stops rest → skip_digits (ds ++ rest) ≡ rest
unfolding skip_digits
skip_digits-append rest (one h) s = rw h (skip_digits-Stops rest s)
skip_digits-append rest (more h ds) s = rw h (skip_digits-append rest ds s)

-- What is skipped is digits.
skip_digits_split :
    (b : ℕ) (bs : Bytes)
    → is_digit b ≡ true
    → (ds : Bytes) × (b ∷ bs ≡ ds ++ skip_digits bs) × IsDigits ds
unfolding skip_digits
skip_digits_split b [] h = (b ∷ [], refl, one h)
skip_digits_split b (c ∷ cs) h = elim (Bool-cases (is_digit c)) [
  | inl d ↦
      let (ds, e, all) = skip_digits_split c cs d in (b ∷ ds, rw d (ap (λ t. b ∷ t) e), more h all)
  | inr d ↦ (b ∷ [], rw d, one h)
]

digits_then-append :
    (next : Bytes → Bool) {ds : Bytes} (rest : Bytes)
    → IsDigits ds
    → Stops rest
    → digits_then next (ds ++ rest) ≡ next rest
unfolding digits_then
digits_then-append next rest (one h) s = rw (h, skip_digits-Stops rest s)
digits_then-append next rest (more h ds) s = rw (h, skip_digits-append rest ds s)

digits_then_split :
    (next : Bytes → Bool) (bs : Bytes)
    → digits_then next bs ≡ true
    → (ds rest : Bytes) × (bs ≡ ds ++ rest) × IsDigits ds × (next rest ≡ true)
unfolding digits_then
digits_then_split next [] h = cc
digits_then_split next (b ∷ bs) h = elim (Bool-cases (is_digit b)) [
  | inl d ↦ let (ds, e, all) = skip_digits_split b bs d in (ds, skip_digits bs, e, all, rw d at h)
  | inr d ↦ absurd (ground arith)
]

-- Each stage from the last one on: what it accepts, and that it accepts what the grammar derives.
exponent_syntax-IsExponent : (bs : Bytes) → exponent_syntax bs ≡ true → IsExponent bs
unfolding exponent_syntax skip_sign is_end
exponent_syntax-IsExponent [] h = absent
exponent_syntax-IsExponent (e ∷ bs) h = elim (Bool-cases (e == b'e' || e == b'E')) [
  | inl m ↦ marked bs (rw m at h) m
  | inr m ↦ absurd (ground arith)
]
  where
    at_end : {ds : Bytes} (rest : Bytes) → is_end rest ≡ true → IsDigits ds → IsDigits (ds ++ rest)
    at_end [] h d = rw append-nil d
    at_end (r ∷ rest) h d = cc

    marked :
        (bs : Bytes)
        → digits_then is_end (skip_sign bs) ≡ true
        → (e == b'e' || e == b'E') ≡ true
        → IsExponent (e ∷ bs)
    marked [] h m = absurd (unfold digits_then in cc)
    marked (s ∷ bs) h m = elim (Bool-cases (s == b'+' || s == b'-')) [
      | inl p ↦
          let (ds, rest, split, d, stop) = digits_then_split is_end bs (rw p at h) in
          signed m p (rw split (at_end rest stop d))
      | inr p ↦
          let (ds, rest, split, d, stop) = digits_then_split is_end (s ∷ bs) (rw p at h) in
          unsigned m (rw split (at_end rest stop d))
    ]

digit_no_sign : (b : ℕ) → is_digit b ≡ true → (b == b'+' || b == b'-') ≡ false
unfolding is_digit
digit_no_sign b h = ground arith

skip_sign-IsDigits : {bs : Bytes} → IsDigits bs → skip_sign bs ≡ bs
unfolding skip_sign
skip_sign-IsDigits (one h) = rw (digit_no_sign _ h)
skip_sign-IsDigits (more h d) = rw (digit_no_sign _ h)

digits_to_end : {bs : Bytes} → IsDigits bs → digits_then is_end bs ≡ true
unfolding is_end
digits_to_end {bs} d = rw append-nil at (digits_then-append is_end [] d tt)

exponent_complete : {bs : Bytes} → IsExponent bs → exponent_syntax bs ≡ true
unfolding exponent_syntax skip_sign
exponent_complete absent = refl
exponent_complete (unsigned m d) = rw (m, skip_sign-IsDigits d) (digits_to_end d)
exponent_complete (signed m s d) = rw (m, s) (digits_to_end d)

exponent-Stops : {bs : Bytes} → IsExponent bs → Stops bs
unfolding is_digit
exponent-Stops absent = tt
exponent-Stops (unsigned m d) = ground arith
exponent-Stops (signed m s d) = ground arith

fraction_syntax_split :
    (bs : Bytes)
    → fraction_syntax bs ≡ true
    → (f e : Bytes) × (bs ≡ f ++ e) × IsFraction f × IsExponent e
unfolding fraction_syntax
fraction_syntax_split [] h = ([], [], refl, absent, absent)
fraction_syntax_split (b ∷ bs) h = elim (Bool-cases (b == b'.')) [
  | inl p ↦
      let (ds, rest, split, d, stop) = digits_then_split exponent_syntax bs (rw p at h) in
      (
        b'.' ∷ ds,
        rest,
        rw ((==_iff b b'.').0 p, split),
        point d,
        exponent_syntax-IsExponent rest stop,
      )
  | inr p ↦ ([], b ∷ bs, refl, absent, exponent_syntax-IsExponent (b ∷ bs) (rw p at h))
]

fraction_complete : {f e : Bytes} → IsFraction f → IsExponent e → fraction_syntax (f ++ e) ≡ true
unfolding fraction_syntax
fraction_complete absent x = no_point x
  where
    no_point : {e : Bytes} → IsExponent e → fraction_syntax e ≡ true
    no_point absent = refl
    no_point (unsigned {e} m d) = ground (arith, exponent_complete (unsigned {e = e} m d))
    no_point (signed {e} {s = s'} m s d) =
        ground (arith, exponent_complete (signed {e = e} {s = s'} m s d))
fraction_complete (point d) x =
    digits_then-append exponent_syntax _ d (exponent-Stops x) ∙ exponent_complete x

fraction-Stops : {f e : Bytes} → IsFraction f → IsExponent e → Stops (f ++ e)
unfolding is_digit
fraction-Stops absent x = exponent-Stops x
fraction-Stops (point d) x = refl

-- A number without its sign.
record IsUnsigned (bs : Bytes) : Type 0 where
  integer : Bytes
  fraction : Bytes
  exponent : Bytes
  splits : bs ≡ integer ++ (fraction ++ exponent)
  integer_is : IsInteger integer
  fraction_is : IsFraction fraction
  exponent_is : IsExponent exponent

IsInteger-IsDigits :
    (b : ℕ) (bs rest : Bytes) {ds : Bytes}
    → within b'1' b'9' b ≡ true
    → b ∷ bs ≡ ds ++ rest
    → IsDigits ds
    → IsInteger ds
IsInteger-IsDigits b bs rest w e (one {b = c} h) =
    let same : b ≡ c = cc in digits (rw same at w) (one h)
IsInteger-IsDigits b bs rest w e (more {b = c} h d) =
    let same : b ≡ c = cc in digits (rw same at w) (more h d)

integer_sound : (bs : Bytes) → integer_syntax bs ≡ true → IsUnsigned bs
unfolding integer_syntax
integer_sound [] h = cc
integer_sound (b ∷ bs) h = elim (Bool-cases (b == b'0')) [
  | inl z ↦
      let (f, e, split, fi, ei) = fraction_syntax_split bs (rw z at h) in
      record {
        integer = b'0' ∷ [];
        fraction = f;
        exponent = e;
        splits = cc ((==_iff b b'0').0 z);
        integer_is = zero_digit;
        fraction_is = fi;
        exponent_is = ei;
      }
  | inr z ↦ elim (Bool-cases (within b'1' b'9' b)) [
    | inl w ↦
        let (ds, split, d) = skip_digits_split b bs (unfold is_digit in ground arith) in
        let (f, e, split', fi, ei) = fraction_syntax_split (skip_digits (b ∷ bs)) (ground arith) in
        let same : skip_digits (b ∷ bs) ≡ skip_digits bs =
          unfold skip_digits is_digit in ground arith in
        record {
          integer = ds;
          fraction = f;
          exponent = e;
          splits = split ∙ ap (λ t. ds ++ t) (sym same ∙ split');
          integer_is = IsInteger-IsDigits b _ _ w split d;
          fraction_is = fi;
          exponent_is = ei;
        }
    | inr w ↦ absurd (ground arith)
  ]
]

integer_complete :
    {i f e : Bytes}
    → IsInteger i
    → IsFraction f
    → IsExponent e
    → integer_syntax (i ++ (f ++ e)) ≡ true
unfolding integer_syntax
integer_complete zero_digit fi ei = fraction_complete fi ei
integer_complete (digits w d) fi ei =
    ground (arith, skip_digits-append _ d (fraction-Stops fi ei), fraction_complete fi ei)

number_complete :
    {s i f e : Bytes}
    → IsSign s
    → IsInteger i
    → IsFraction f
    → IsExponent e
    → number_syntax (s ++ (i ++ (f ++ e))) ≡ true
unfolding number_syntax
number_complete minus ii fi ei = integer_complete ii fi ei
number_complete plain zero_digit fi ei = integer_complete zero_digit fi ei
number_complete plain (digits {b} w d) fi ei =
    ground (arith, integer_complete (digits {b = b} w d) fi ei)

signed_IsNumber : {s bs : Bytes} → IsSign s → IsUnsigned bs → IsNumber (s ++ bs)
signed_IsNumber {s} si u = record {
  sign = s;
  integer = u.integer;
  fraction = u.fraction;
  exponent = u.exponent;
  splits = ap (λ t. s ++ t) u.splits;
  sign_is = si;
  integer_is = u.integer_is;
  fraction_is = u.fraction_is;
  exponent_is = u.exponent_is;
}

number_syntax-IsNumber : (bs : Bytes) → number_syntax bs ≡ true → IsNumber bs
unfolding number_syntax
number_syntax-IsNumber [] h = cc
number_syntax-IsNumber (b ∷ bs) h = elim (Bool-cases (b == b'-')) [
  | inl m ↦
      let same : b'-' ∷ bs ≡ b ∷ bs = cc ((==_iff b b'-').0 m) in
      subst IsNumber same (signed_IsNumber minus (integer_sound bs (rw m at h)))
  | inr m ↦ signed_IsNumber plain (integer_sound (b ∷ bs) (rw m at h))
]

-- The scanner accepts exactly the numbers of the RFC's grammar.
pub number_syntax_iff : (bs : Bytes) → (number_syntax bs ≡ true) ↔ IsNumber bs
number_syntax_iff bs = (
  number_syntax-IsNumber bs,
  λ n. rw n.splits (number_complete n.sign_is n.integer_is n.fraction_is n.exponent_is),
)
