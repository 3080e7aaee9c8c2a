-- ===== src/Canonical/Numbers.antt =====
-- The canonical form of a number, from its lexeme alone; and that src/canonical.c renders it.
use maelys_json.Base.{
  ℕ, ◌+◌, ◌≤◌, ◌≡◌, refl, sym, ap, subst, ◌∙◌, Bool, true, false, ◌&&◌, List, [], ◌∷◌, Option, none,
  some, Bytes, All, get_or, length, leb, ◌==◌, ==_iff, Outcome, ok, err, if◌then◌else◌, arith,
  Bool-cases, inl, inr, zero, suc,
}
use maelys_json.Base.Int.{ℤ, pos, signed}
use maelys_json.Canonical.{is_fractional, starts_negative, rendered_number}
use maelys_json.Common.Decimal.{IsDigit, value, print_u64, print_i64}
use maelys_json.Common.Number.{is_digit}
use maelys_json.Document.{Token, Document}
use maelys_json.Document.Access.{no_token, token_at, text_of, token_of}
use maelys_json.Document.Integers.{value_u64, value_i64}
use maelys_json.Document.Integers.Exact.{Spells, plain, minus, IsI64}
use maelys_json.Document.Integers.Values.{SpellsAt, value_u64_iff, value_i64_iff}
use maelys_json.Types.{Error, number, u64_max, i64_max}

abbrev all_digits : Bytes → Bool
all_digits [] = true
all_digits (b ∷ bs) = is_digit b && all_digits bs

-- Digits whose value is at most a bound.
abbrev is_within : ℕ → Bytes → Bool
is_within maximum ds = all_digits ds && leb (value 0 ds) maximum

abbrev unsigned_form : Bytes → Option Bytes
unsigned_form ds = if is_within u64_max ds then some (print_u64 (value 0 ds)) else none

-- An integer of -2^63 to 2^64 - 1 in decimal; any other number has no canonical form.
unfoldable pub canonical_number : Bytes → Option Bytes
canonical_number [] = unsigned_form []
canonical_number (b ∷ ds) =
    if b == b'-'
    then if is_within (i64_max + 1) ds then some (print_i64 (signed (value 0 ds))) else none
    else unsigned_form (b ∷ ds)

digits_all : (ds : Bytes) → all_digits ds ≡ true → All IsDigit ds
digits_all [] h = tt
digits_all (b ∷ bs) h = (ground (arith, h), digits_all bs (ground (arith, h)))

all_digits_lem : (ds : Bytes) → All IsDigit ds → all_digits ds ≡ true
all_digits_lem [] h = refl
all_digits_lem (b ∷ bs) (h, hs) = ground (arith, h, all_digits_lem bs hs)

digits_whole : (ds : Bytes) → All IsDigit ds → is_fractional ds ≡ false
unfolding is_fractional is_digit
digits_whole [] h = refl
digits_whole (b ∷ bs) (h, hs) = ground (arith, h, digits_whole bs hs)

abbrev rest : Bytes → Bytes
rest [] = []
rest (b ∷ bs) = bs

minus_inv :
    {t : Bytes} {z : ℤ} (ds : Bytes)
    → Spells t z
    → t ≡ b'-' ∷ ds
    → All IsDigit ds × (z ≡ signed (value 0 ds))
unfolding is_digit
minus_inv ds (plain h e) same = absurd (ground (arith, subst (All IsDigit) same h))
minus_inv ds (minus h e) same =
    let tail = ap rest same in (subst (All IsDigit) tail h, e ∙ ap (λ t. signed (value 0 t)) tail)

plain_inv :
    {t : Bytes} {z : ℤ}
    → Spells t z
    → starts_negative t ≡ false
    → All IsDigit t × (z ≡ pos (value 0 t))
plain_inv (plain h e) same = (h, e)
plain_inv (minus h e) same = absurd (ground arith)

get_or-behind : {A : Type 0} (xs : List A) (i : ℕ) (d : A) → length xs ≤ i → get_or xs i d ≡ d
get_or-behind [] i d h = refl
get_or-behind (x ∷ xs) zero d h = absurd (omega arith)
get_or-behind (x ∷ xs) (suc i) d h = get_or-behind xs i d (omega arith)

number_token :
    (d : Document) (v : ℕ) → (token_at d v).kind ≡ number → token_of d v number ≡ ok (token_at d v)
unfolding token_of
number_token d v h = elim (Bool-cases (leb (length d.tokens) v)) [
  | inr e ↦ rw (e, h) refl
  | inl e ↦
      let none' = get_or-behind d.tokens v no_token (ground arith) in
      let kind = ap (λ (t : Token). t.kind) none' in absurd (cc h)
]

module _ (d : Document) (v : ℕ) (h : (token_at d v).kind ≡ number) where
  abbrev text : Bytes
  text = text_of (token_at d v)

  -- What a reader's result is spelled from.
  spelled_text : (z : ℤ) → SpellsAt d v z → Spells text z
  spelled_text z s =
      let same : s.token ≡ token_at d v = cc (s.is_number, number_token d v h) in
      subst (λ (t : Token). Spells (text_of t) z) same s.spells

  unsigned_none :
      (r : Outcome Error ℕ)
      → value_u64 d v ≡ r
      → starts_negative text ≡ false
      → is_within u64_max text ≡ false
      → ◌≡◌ {A = Option Bytes} (elim r [ err _ ↦ none | ok n ↦ some (print_u64 n) ]) none
  unsigned_none (err e) read sign out = refl
  unsigned_none (ok n) read sign out =
      let (spells, fits) = (value_u64_iff d v n).0 read in
      let (digits, exact) = plain_inv (spelled_text (pos n) spells) sign in
      let same : n ≡ value 0 text = cc exact in
      let inside : is_within u64_max text ≡ true =
        ground (arith, all_digits_lem text digits, same, fits) in
      absurd (cc inside)

  signed_none :
      (ds : Bytes) (r : Outcome Error ℤ)
      → value_i64 d v ≡ r
      → text ≡ b'-' ∷ ds
      → is_within (i64_max + 1) ds ≡ false
      → ◌≡◌ {A = Option Bytes} (elim r [ err _ ↦ none | ok n ↦ some (print_i64 n) ]) none
  signed_none ds (err e) read sign out = refl
  signed_none ds (ok z) read sign out =
      let (spells, fits) = (value_i64_iff d v z).0 read in
      let (digits, exact) = minus_inv ds (spelled_text z spells) sign in
      let bound : value 0 ds ≤ i64_max + 1 = ground (arith, subst IsI64 exact fits) in
      let inside : is_within (i64_max + 1) ds ≡ true =
        ground (arith, all_digits_lem ds digits, bound) in
      absurd (cc inside)

  unsigned_lem : starts_negative text ≡ false → rendered_number d v text ≡ unsigned_form text
  unfolding rendered_number
  unsigned_lem sign = elim (Bool-cases (is_within u64_max text)) [
    | inl e ↦
        let digits = digits_all text (ground (arith, e)) in
        let fits : value 0 text ≤ u64_max = ground (arith, e) in
        let read = (value_u64_iff d v (value 0 text)).1 (
          record {
            token = token_at d v;
            is_number = number_token d v h;
            spells = plain digits refl;
          },
          fits,
        ) in
        rw (digits_whole text digits, sign, read, e) refl
    | inr e ↦ elim (Bool-cases (is_fractional text)) [
      | inl f ↦ rw (f, e) refl
      | inr f ↦ rw (f, sign, e) (unsigned_none (value_u64 d v) refl sign e)
    ]
  ]

  IsI64-signed : (n : ℕ) → n ≤ i64_max + 1 → IsI64 (signed n)
  IsI64-signed n h = ground (arith, h)

  signed_lem :
      (ds : Bytes)
      → text ≡ b'-' ∷ ds
      → rendered_number d v text
        ≡ (if is_within (i64_max + 1) ds then some (print_i64 (signed (value 0 ds))) else none)
  unfolding rendered_number is_fractional
  signed_lem ds sign = elim (Bool-cases (is_within (i64_max + 1) ds)) [
    | inl e ↦
        let digits = digits_all ds (ground (arith, e)) in
        let fits : value 0 ds ≤ i64_max + 1 = ground (arith, e) in
        let spells : Spells text (signed (value 0 ds)) =
          subst (λ t. Spells t (signed (value 0 ds))) (sym sign) (minus digits refl) in
        let read = (value_i64_iff d v (signed (value 0 ds))).1 (
          record { token = token_at d v; is_number = number_token d v h; spells = spells },
          IsI64-signed (value 0 ds) fits,
        ) in
        rw (sign, digits_whole ds digits, read, e) refl
    | inr e ↦ elim (Bool-cases (is_fractional ds)) [
      | inl f ↦ rw (sign, f, e) refl
      | inr f ↦ rw (sign, f, e) (signed_none ds (value_i64 d v) refl sign e)
    ]
  ]

  rendered_at : (t : Bytes) → text ≡ t → rendered_number d v text ≡ canonical_number t
  unfolding canonical_number
  rendered_at [] e = unsigned_lem (ap starts_negative e) ∙ ap unsigned_form e
  rendered_at (b ∷ ds) e = elim (Bool-cases (b == b'-')) [
    | inl m ↦
        let minus_sign : b ≡ b'-' = (==_iff b b'-').0 m in
        rw m (signed_lem ds (e ∙ ap (λ c. c ∷ ds) minus_sign))
    | inr m ↦ rw m (unsigned_lem (ap starts_negative e ∙ m) ∙ ap unsigned_form e)
  ]

  -- On a number, the digits that the check renders are the canonical form of the lexeme.
  pub rendered_number_lem : rendered_number d v text ≡ canonical_number text
  rendered_number_lem = rendered_at text refl
