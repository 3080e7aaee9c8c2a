-- ===== src/Utf8/Literal/Escapes.antt =====
-- What an escape of a literal gives: text, from bytes enough to hold it.
use maelys_json.Base.{
  ℕ, zero, suc, ◌+◌, ◌*◌, ◌≤◌, ◌<◌, ◌≡◌, ◌⊎◌, inl, inr, true, [], ◌∷◌, some, Bytes, All, length,
  within, ◌==◌, ==_iff, arith, Bool-cases, Option-cases,
}
use maelys_json.Utf8.Points.{encode_utf8}
use maelys_json.Utf8.Points.Arithmetic.{encode_utf8-encoded}
use maelys_json.Utf8.Scalars.{scalar-lt}
use maelys_json.Utf8.Sequence.{IsScalar}
use maelys_json.Utf8.Literal.{
  hex_value, hex_digits, read_u16, low_surrogate, read_escape_point, simple_escape, point_escape,
  letter_escape, escape,
}
use maelys_json.Utf8.Literal.Text.{IsContent, IsText, IsText-one, encode_utf8_ascii}

-- The unread rest holds bytes of the literal.
abbrev pub Keeps : Bytes → Bytes → Type 0
Keeps bs rest = All IsContent bs → All IsContent rest

hex_digits-Keeps :
    (n : ℕ) (bs : Bytes) (v : ℕ) {p : ℕ} {rest : Bytes}
    → hex_digits n bs v ≡ some (p, rest)
    → Keeps bs rest
unfolding hex_digits
hex_digits-Keeps zero bs v {rest} h = λ k. let e : rest ≡ bs = cc in rw e k
hex_digits-Keeps (suc n) [] v h = cc
hex_digits-Keeps (suc n) (b ∷ bs) v h = elim (Option-cases (hex_value b)) [
  | inl e ↦ absurd (cc (rw (e, hex_digits) at h))
  | inr (d, e) ↦ λ k. hex_digits-Keeps n bs (v * 16 + d) (rw (e, hex_digits) at h) k.1
]

read_u16-Keeps : (bs : Bytes) {p : ℕ} {r : Bytes} → read_u16 bs ≡ some (p, r) → Keeps bs r
unfolding read_u16
read_u16-Keeps bs h = hex_digits-Keeps 4 bs 0 h

low_surrogate-Keeps :
    (point : ℕ) (bs : Bytes) {p : ℕ} {r : Bytes} → low_surrogate point bs ≡ some (p, r) → Keeps bs r
unfolding low_surrogate
low_surrogate-Keeps point [] h = cc
low_surrogate-Keeps point (a ∷ []) h = cc
low_surrogate-Keeps point (a ∷ b ∷ bs) {r} h = elim (Option-cases (read_u16 bs)) [
  | inl n ↦ absurd (ground arith)
  | inr (q, n) ↦ let e : r ≡ q.1 = ground arith in λ k. rw e (read_u16-Keeps bs n k.1.1)
]

read_escape_point-Keeps :
    (bs : Bytes) {p : ℕ} {r : Bytes} → read_escape_point bs ≡ some (p, r) → Keeps bs r
unfolding read_escape_point
read_escape_point-Keeps bs {p} {r} h = elim (Option-cases (read_u16 bs)) [
  | inl n ↦ absurd (ground arith)
  | inr (q, n) ↦ elim (Bool-cases (within 0xd800 0xdbff q.0)) [
    | inl w ↦ λ k. low_surrogate-Keeps q.0 q.1 {p = p} (ground arith) (read_u16-Keeps bs n k)
    | inr w ↦ let e : r ≡ q.1 = ground arith in λ k. rw e (read_u16-Keeps bs n k)
  ]
]

point_escape-Keeps : (bs : Bytes) {t r : Bytes} → point_escape bs ≡ some (t, r) → Keeps bs r
unfolding point_escape
point_escape-Keeps bs {r} h = elim (Option-cases (read_escape_point bs)) [
  | inl n ↦ absurd (ground arith)
  | inr (q, n) ↦ let e : r ≡ q.1 = ground arith in λ k. rw e (read_escape_point-Keeps bs n k)
]

letter_escape-Keeps :
    (letter : ℕ) (bs : Bytes) {t r : Bytes} → letter_escape letter bs ≡ some (t, r) → Keeps bs r
unfolding letter_escape
letter_escape-Keeps letter bs {r} h = elim (Option-cases (simple_escape letter)) [
  | inl n ↦ absurd (ground arith)
  | inr (q, n) ↦ let e : r ≡ bs = ground arith in λ k. rw e k
]

pub escape-Keeps : (bs : Bytes) {t r : Bytes} → escape bs ≡ some (t, r) → Keeps bs r
unfolding escape
escape-Keeps [] h = cc
escape-Keeps (letter ∷ bs) h = elim (Bool-cases (letter == b'u')) [
  | inl u ↦ λ k. point_escape-Keeps bs (rw u at h) k.1
  | inr u ↦ λ k. letter_escape-Keeps letter bs (rw u at h) k.1
]

length-encode_utf8 :
    (p : ℕ)
    → p < 0x11_0000
    → (length (encode_utf8 p) ≤ 4) × (p < 0x1_0000 → length (encode_utf8 p) ≤ 3)
length-encode_utf8 p h = rw (encode_utf8-encoded p h) (ground arith, ground arith)

hex_value-lt : (b : ℕ) {d : ℕ} → hex_value b ≡ some d → d < 16
unfolding hex_value
hex_value-lt b h = ground arith

hex_digits_size :
    (n : ℕ) (bs : Bytes) (v : ℕ) {p : ℕ} {rest : Bytes}
    → hex_digits n bs v ≡ some (p, rest)
    → length bs ≡ n + length rest
unfolding hex_digits
hex_digits_size zero bs v h = ground arith
hex_digits_size (suc n) [] v h = cc
hex_digits_size (suc n) (b ∷ bs) v h = elim (Option-cases (hex_value b)) [
  | inl e ↦ absurd (cc (rw (e, hex_digits) at h))
  | inr (d, e) ↦ omega (arith, hex_digits_size n bs (v * 16 + d) (rw (e, hex_digits) at h))
]

-- The greatest value that `n` more digits make of `v`.
abbrev last_value : ℕ → ℕ → ℕ
last_value zero v = v
last_value (suc n) v = last_value n (v * 16 + 15)

last_value_mono : (n v w : ℕ) → v ≤ w → last_value n v ≤ last_value n w
last_value_mono zero v w h = h
last_value_mono (suc n) v w h = last_value_mono n (v * 16 + 15) (w * 16 + 15) (omega arith)

hex_digits-le :
    (n : ℕ) (bs : Bytes) (v : ℕ) {p : ℕ} {rest : Bytes}
    → hex_digits n bs v ≡ some (p, rest)
    → p ≤ last_value n v
unfolding hex_digits
hex_digits-le zero bs v h = ground arith
hex_digits-le (suc n) [] v h = cc
hex_digits-le (suc n) (b ∷ bs) v h = elim (Option-cases (hex_value b)) [
  | inl e ↦ absurd (cc (rw (e, hex_digits) at h))
  | inr (d, e) ↦
      let le = hex_digits-le n bs (v * 16 + d) (rw (e, hex_digits) at h) in
      let top = last_value_mono n (v * 16 + d) (v * 16 + 15) (omega (arith, hex_value-lt b e)) in
      omega (arith, le, top)
]

-- Four hexadecimal digits: a value below 2^16.
read_u16_lem :
    (bs : Bytes) {p : ℕ} {rest : Bytes}
    → read_u16 bs ≡ some (p, rest)
    → (length bs ≡ 4 + length rest) × (p < 0x1_0000)
unfolding read_u16
read_u16_lem bs h = (hex_digits_size 4 bs 0 h, omega (arith, hex_digits-le 4 bs 0 h))

low_surrogate_lem :
    (point : ℕ) (bs : Bytes) {p : ℕ} {rest : Bytes}
    → within 0xd800 0xdbff point ≡ true
    → low_surrogate point bs ≡ some (p, rest)
    → (0x1_0000 ≤ p) × (p < 0x11_0000) × (6 + length rest ≡ length bs)
unfolding low_surrogate
low_surrogate_lem point [] w h = cc
low_surrogate_lem point (a ∷ []) w h = cc
low_surrogate_lem point (a ∷ b ∷ bs) w h = elim (Option-cases (read_u16 bs)) [
  | inl n ↦ absurd (ground arith)
  | inr (r, n) ↦ ground (arith, read_u16_lem bs n)
]

-- What a `\u` escape gives: a scalar value, from enough input for its encoding.
read_escape_point_lem :
    (bs : Bytes) {p : ℕ} {rest : Bytes}
    → read_escape_point bs ≡ some (p, rest)
    → IsScalar p × (4 + length rest ≤ length bs) × (p < 0x1_0000 ⊎ (10 + length rest ≤ length bs))
unfolding read_escape_point
read_escape_point_lem bs h = elim (Option-cases (read_u16 bs)) [
  | inl n ↦ absurd (ground arith)
  | inr (r, n) ↦ elim (Bool-cases (within 0xd800 0xdbff r.0)) [
    | inl w ↦ ground (arith, read_u16_lem bs n, low_surrogate_lem r.0 r.1 w)
    | inr w ↦ ground (arith, read_u16_lem bs n)
  ]
]

simple_escape-lt : (e : ℕ) {b : ℕ} → simple_escape e ≡ some b → (0 < b) × (b < 0x80)
unfolding simple_escape
simple_escape-lt e h = ground arith

-- What an escape writes is text, and no longer than the escape.
pub record IsWritten (bs written rest : Bytes) : Type 0 where
  pub is_text : IsText written
  pub fits : length written + length rest ≤ 1 + length bs
  pub left : length rest ≤ length bs

point_escape-IsWritten :
    (bs : Bytes) {t r : Bytes} → point_escape bs ≡ some (t, r) → IsWritten (b'u' ∷ bs) t r
unfolding point_escape
point_escape-IsWritten bs {t} {r} h = elim (Option-cases (read_escape_point bs)) [
  | inl n ↦ absurd (ground arith)
  | inr (q, n) ↦
      let (scalar, some_left, pair_left) = read_escape_point_lem bs n in
      let e : (t ≡ encode_utf8 q.0) × (r ≡ q.1) × (0 < q.0) = ground arith in
      let size = length-encode_utf8 q.0 (scalar-lt q.0 scalar) in
      record {
        is_text = rw e.0 (IsText-one q.0 (scalar, e.2));
        fits = rw (e.0, e.1) (omega (arith, size.0, size.1));
        left = rw e.1 (omega arith);
      }
]

letter_escape-IsWritten :
    (letter : ℕ) (bs : Bytes) {t r : Bytes}
    → letter_escape letter bs ≡ some (t, r)
    → IsWritten (letter ∷ bs) t r
unfolding letter_escape
letter_escape-IsWritten letter bs {t} {r} h = elim (Option-cases (simple_escape letter)) [
  | inl n ↦ absurd (ground arith)
  | inr (b, n) ↦
      let e : (t ≡ b ∷ []) × (r ≡ bs) = ground arith in
      let (pos, lt) = simple_escape-lt letter n in
      record {
        is_text = rw (e.0, ← encode_utf8_ascii b lt) (IsText-one b (omega arith, pos));
        fits = rw (e.0, e.1) (omega arith);
        left = rw e.1 (omega arith);
      }
]

pub escape-IsWritten : (bs : Bytes) {t r : Bytes} → escape bs ≡ some (t, r) → IsWritten bs t r
unfolding escape
escape-IsWritten [] h = cc
escape-IsWritten (letter ∷ bs) h = elim (Bool-cases (letter == b'u')) [
  | inl u ↦ rw ((==_iff letter b'u').0 u) (point_escape-IsWritten bs (rw u at h))
  | inr u ↦ letter_escape-IsWritten letter bs (rw u at h)
]
