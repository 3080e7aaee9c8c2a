-- ===== src/Common/Decimal.antt =====
-- The decimal print of `snprintf` with PRIu64 and PRId64, which serialize.c and canonical.c use,
-- and the value that digits spell.
use maelys_json.Base.{
  ℕ, zero, suc, ◌+◌, ◌-◌, ◌*◌, ◌/◌, ◌%◌, ◌<◌, ◌≡◌, inl, inr, refl, ◌∙◌, ap, true, false, [], ◌∷◌,
  ◌++◌, Bytes, All, ◌==◌, arith, Bool-cases,
}
use maelys_json.Base.Int.{ℤ, pos, negsuc}
use maelys_json.Common.Number.{is_digit}

-- The last digits first; a number has fewer digits than its value and one more.
decimal_loop : ℕ → ℕ → Bytes → Bytes
decimal_loop zero n out = out
decimal_loop (suc fuel) n out = elim (n / 10 == 0) [
  | true ↦ (b'0' + n % 10) ∷ out
  | false ↦ decimal_loop fuel (n / 10) ((b'0' + n % 10) ∷ out)
]

-- "%" PRIu64
unfoldable pub print_u64 : ℕ → Bytes
unfolding decimal_loop
print_u64 n = decimal_loop (suc n) n []

-- "%" PRId64
unfoldable pub print_i64 : ℤ → Bytes
print_i64 (pos n) = print_u64 n
print_i64 (negsuc n) = b'-' ∷ print_u64 (n + 1)

-- The number that digits spell behind `m`.
abbrev pub value : ℕ → Bytes → ℕ
value m [] = m
value m (b ∷ bs) = value (m * 10 + (b - b'0')) bs

pub value-append : (m : ℕ) (xs ys : Bytes) → value m (xs ++ ys) ≡ value (value m xs) ys
value-append m [] ys = refl
value-append m (x ∷ xs) ys = value-append (m * 10 + (x - b'0')) xs ys

abbrev pub IsDigit : ℕ → Type 0
IsDigit b = is_digit b ≡ true

IsDigit-ascii : (n : ℕ) → IsDigit (b'0' + n % 10)
unfolding is_digit
IsDigit-ascii n = ground arith

loop-IsDigit : (fuel n : ℕ) (out : Bytes) → All IsDigit out → All IsDigit (decimal_loop fuel n out)
unfolding decimal_loop
loop-IsDigit zero n out h = h
loop-IsDigit (suc fuel) n out h = elim (Bool-cases (n / 10 == 0)) [
  | inl e ↦ rw (e, decimal_loop) (IsDigit-ascii n, h)
  | inr e ↦ rw (e, decimal_loop) (loop-IsDigit fuel (n / 10) _ (IsDigit-ascii n, h))
]

pub print_u64-IsDigit : (n : ℕ) → All IsDigit (print_u64 n)
unfolding print_u64
print_u64-IsDigit n = loop-IsDigit (suc n) n [] tt

loop-value : (fuel n : ℕ) (out : Bytes) → n < fuel → value 0 (decimal_loop fuel n out) ≡ value n out
unfolding decimal_loop
loop-value zero n out lt = absurd (omega arith)
loop-value (suc fuel) n out lt = elim (Bool-cases (n / 10 == 0)) [
  | inl e ↦ rw (e, decimal_loop) (ap (λ m. value m out) (ground arith))
  | inr e ↦
      rw (e, decimal_loop)
        (loop-value fuel (n / 10) ((b'0' + n % 10) ∷ out) (ground arith)
          ∙ ap (λ m. value m out) (omega arith))
]

-- The print spells the number.
pub value-print_u64 : (n : ℕ) → value 0 (print_u64 n) ≡ n
unfolding print_u64
value-print_u64 n = loop-value (suc n) n [] (omega arith)

-- No zero stands in front, but for the number 0.
abbrev pub LeadsWell : ℕ → Bytes → Type 0
LeadsWell n [] = ⊥
LeadsWell n (b ∷ bs) = IsDigit b × ((b ≡ b'0') → (n ≡ 0) × (bs ≡ []))

LeadsWell-tenth :
    (n : ℕ) (xs : Bytes) → (n / 10 == 0) ≡ false → LeadsWell (n / 10) xs → LeadsWell n xs
LeadsWell-tenth n [] e h = h
LeadsWell-tenth n (x ∷ xs) e (digit, lead) =
    (digit, λ z. let z' : n / 10 ≡ 0 = (lead z).0 in absurd (ground arith))

loop-LeadsWell :
    (fuel n : ℕ) (out : Bytes)
    → n < fuel
    → (n ≡ 0 → out ≡ [])
    → LeadsWell n (decimal_loop fuel n out)
unfolding decimal_loop
loop-LeadsWell zero n out lt h = absurd (omega arith)
loop-LeadsWell (suc fuel) n out lt h = elim (Bool-cases (n / 10 == 0)) [
  | inl e ↦ rw (e, decimal_loop) (IsDigit-ascii n, λ z. let n0 : n ≡ 0 = ground arith in (n0, h n0))
  | inr e ↦
      rw (e, decimal_loop)
        (LeadsWell-tenth n _ e (
          loop-LeadsWell fuel (n / 10) ((b'0' + n % 10) ∷ out) (ground arith)
            (λ z. absurd (ground arith))))
]

pub print_u64-LeadsWell : (n : ℕ) → LeadsWell n (print_u64 n)
unfolding print_u64
print_u64-LeadsWell n = loop-LeadsWell (suc n) n [] (omega arith) (λ z. refl)
