-- ===== src/Utf8/Sequence.antt =====
-- The well-formed byte sequences of the Unicode standard (its table 3-7), each with the scalar
-- value that it encodes; and that the code's three readings of a sequence agree with it.
use maelys_json.Base.{
  ℕ, ◌+◌, ◌-◌, ◌*◌, ◌≤◌, ◌<◌, ◌≡◌, ◌≢◌, ◌⊎◌, inl, inr, refl, ◌∙◌, sym, ap, subst, [], ◌∷◌, ◌++◌,
  bit_and, not, true, Bytes, leb, within, ◌==◌, length, arith, if◌then◌else◌, Option, some, none,
  IsByte, All, Bool-cases,
}
use maelys_json.Base.Bits.{every_below, every_below_sound}
use maelys_json.Utf8.Points.{utf8_decode}
use maelys_json.Utf8.Points.Arithmetic.{encoded, decode_one, decode_two, decode_three, decode_four}
use maelys_json.Utf8.Validate.{continuation, two_bytes, three_bytes, four_bytes, sized, sequence}

-- A Unicode scalar value: a code point that is no surrogate.
abbrev pub IsScalar : ℕ → Type 0
IsScalar p = (p < 0xd800) ⊎ ((0xe000 ≤ p) × (p < 0x11_0000))

abbrev pub IsTail : ℕ → Type 0
IsTail b = (0x80 ≤ b) × (b < 0xc0)

pub data IsSequence (p : ℕ) : Bytes → Type 0 where
  one : {a : ℕ} → a < 0x80 → p ≡ a → IsSequence p (a ∷ [])
  two :
      {a b : ℕ}
      → 0xc2 ≤ a
      → a ≤ 0xdf
      → IsTail b
      → p ≡ (a - 0xc0) * 64 + (b - 0x80)
      → IsSequence p (a ∷ b ∷ [])
  three :
      {a b c : ℕ}
      → 0xe0 ≤ a
      → a ≤ 0xef
      → IsTail b
      → IsTail c
      → (0xe0 < a) ⊎ (0xa0 ≤ b)
      → (a ≢ 0xed) ⊎ (b < 0xa0)
      → p ≡ (a - 0xe0) * 4096 + (b - 0x80) * 64 + (c - 0x80)
      → IsSequence p (a ∷ b ∷ c ∷ [])
  four :
      {a b c d : ℕ}
      → 0xf0 ≤ a
      → a ≤ 0xf4
      → IsTail b
      → IsTail c
      → IsTail d
      → (0xf0 < a) ⊎ (0x90 ≤ b)
      → (a < 0xf4) ⊎ (b < 0x90)
      → p ≡ (a - 0xf0) * 262144 + (b - 0x80) * 4096 + (c - 0x80) * 64 + (d - 0x80)
      → IsSequence p (a ∷ b ∷ c ∷ d ∷ [])

continuation_table :
    every_below
      (λ b. if bit_and b 0xc0 == 0x80 then within 0x80 0xbf b else not (within 0x80 0xbf b))
      256
    ≡ true
unfolding every_below
continuation_table = refl

pub continuation-within : (b : ℕ) → IsByte b → continuation b ≡ within 0x80 0xbf b
unfolding continuation
continuation-within b h = ground (arith, every_below_sound _ 256 b h continuation_table)

pub continuation-IsTail : (b : ℕ) → IsTail b → continuation b ≡ true
continuation-IsTail b (lo, hi) = rw (continuation-within b (omega arith)) (ground arith)

-- The validator's round takes a whole sequence.
pub sequence-IsSequence :
    {p : ℕ} (a : ℕ) {s : Bytes} (rest : Bytes)
    → IsSequence p (a ∷ s)
    → sequence a (s ++ rest) ≡ some (length (a ∷ s), rest)
unfolding sequence
sequence-IsSequence a rest (one h e) = ground arith
sequence-IsSequence a rest (two {b} l h t e) = ground (arith, continuation-IsTail b t)
sequence-IsSequence a rest (three {b} {c} l h t u v w e) =
    ground (arith, continuation-IsTail b t, continuation-IsTail c u)
sequence-IsSequence a rest (four {b} {c} {d} l h t u v w x e) =
    ground (arith, continuation-IsTail b t, continuation-IsTail c u, continuation-IsTail d v)

-- What the validator's round takes from bytes is a sequence.
pub record Takes (a : ℕ) (bs : Bytes) (n : ℕ) (rest : Bytes) : Type 0 where
  pub point : ℕ
  pub taken : Bytes
  pub is_sequence : IsSequence point taken
  pub splits : a ∷ bs ≡ taken ++ rest
  pub size : n ≡ length taken

two_Takes :
    (a : ℕ) (bs : Bytes) {rest : Bytes}
    → within 0xc2 0xdf a ≡ true
    → All IsByte bs
    → two_bytes bs ≡ some rest
    → Takes a bs 2 rest
unfolding two_bytes
two_Takes a [] w h e = cc
two_Takes a (b ∷ bs) w (hb, h) e = record {
  point = (a - 0xc0) * 64 + (b - 0x80);
  taken = a ∷ b ∷ [];
  is_sequence = two (ground arith) (ground arith) (ground (arith, continuation-within b hb)) refl;
  splits = ground arith;
  size = refl;
}

three_Takes :
    (a : ℕ) (bs : Bytes) {rest : Bytes}
    → within 0xe0 0xef a ≡ true
    → All IsByte bs
    → three_bytes a bs ≡ some rest
    → Takes a bs 3 rest
unfolding three_bytes
three_Takes a [] w h e = cc
three_Takes a (b ∷ []) w h e = cc
three_Takes a (b ∷ c ∷ bs) w (hb, (hc, h)) e =
    let tb : continuation b ≡ within 0x80 0xbf b = continuation-within b hb in
    let tc : continuation c ≡ within 0x80 0xbf c = continuation-within c hc in
    record {
      point = (a - 0xe0) * 4096 + (b - 0x80) * 64 + (c - 0x80);
      taken = a ∷ b ∷ c ∷ [];
      is_sequence =
          three (ground arith) (ground arith) (ground arith) (ground arith) (ground arith)
            (ground arith) refl;
      splits = ground arith;
      size = refl;
    }

four_Takes :
    (a : ℕ) (bs : Bytes) {rest : Bytes}
    → within 0xf0 0xf4 a ≡ true
    → All IsByte bs
    → four_bytes a bs ≡ some rest
    → Takes a bs 4 rest
unfolding four_bytes
four_Takes a [] w h e = cc
four_Takes a (b ∷ []) w h e = cc
four_Takes a (b ∷ c ∷ []) w h e = cc
four_Takes a (b ∷ c ∷ d ∷ bs) w (hb, (hc, (hd, h))) e =
    let tb : continuation b ≡ within 0x80 0xbf b = continuation-within b hb in
    let tc : continuation c ≡ within 0x80 0xbf c = continuation-within c hc in
    let td : continuation d ≡ within 0x80 0xbf d = continuation-within d hd in
    record {
      point = (a - 0xf0) * 262144 + (b - 0x80) * 4096 + (c - 0x80) * 64 + (d - 0x80);
      taken = a ∷ b ∷ c ∷ d ∷ [];
      is_sequence =
          four (ground arith) (ground arith) (ground arith) (ground arith) (ground arith)
            (ground arith) (ground arith) refl;
      splits = ground arith;
      size = refl;
    }

sized_inv :
    (n : ℕ) (o : Option Bytes) {m : ℕ} {rest : Bytes}
    → sized n o ≡ some (m, rest)
    → (o ≡ some rest) × (m ≡ n)
sized_inv n none h = cc
sized_inv n (some r) h = (cc, cc)

sequence_cases :
    (a : ℕ) (bs : Bytes) {n : ℕ} {rest : Bytes}
    → sequence a bs ≡ some (n, rest)
    → ((a < 0x80) × (n ≡ 1) × (bs ≡ rest))
      ⊎ ((within 0xc2 0xdf a ≡ true) × (sized 2 (two_bytes bs) ≡ some (n, rest)))
      ⊎ ((within 0xe0 0xef a ≡ true) × (sized 3 (three_bytes a bs) ≡ some (n, rest)))
      ⊎ ((within 0xf0 0xf4 a ≡ true) × (sized 4 (four_bytes a bs) ≡ some (n, rest)))
unfolding sequence
sequence_cases a bs h = elim (Bool-cases (leb a 0x7f)) [
  | inl t ↦ let h' = rw t at h in inl (ground arith, cc h', cc h')
  | inr t ↦ elim (Bool-cases (within 0xc2 0xdf a)) [
    | inl u ↦ inr (inl (u, rw (t, u) at h))
    | inr u ↦ elim (Bool-cases (within 0xe0 0xef a)) [
      | inl v ↦ inr (inr (inl (v, rw (t, u, v) at h)))
      | inr v ↦ elim (Bool-cases (within 0xf0 0xf4 a)) [
        | inl w ↦ inr (inr (inr (w, rw (t, u, v, w) at h)))
        | inr w ↦ absurd (cc (rw (t, u, v, w) at h))
      ]
    ]
  ]
]

pub sequence-Takes :
    (a : ℕ) (bs : Bytes) {n : ℕ} {rest : Bytes}
    → All IsByte bs
    → sequence a bs ≡ some (n, rest)
    → Takes a bs n rest
sequence-Takes a bs {n} {rest} h e = elim (sequence_cases a bs e) [
  | inl (lt, size, same) ↦ record {
    point = a;
    taken = a ∷ [];
    is_sequence = one lt refl;
    splits = ap (λ t. a ∷ t) same;
    size = size;
  }
  | inr (inl (w, r)) ↦
      let (r', m) = sized_inv 2 (two_bytes bs) r in
      subst (λ k. Takes a bs k rest) (sym m) (two_Takes a bs w h r')
  | inr (inr (inl (w, r))) ↦
      let (r', m) = sized_inv 3 (three_bytes a bs) r in
      subst (λ k. Takes a bs k rest) (sym m) (three_Takes a bs w h r')
  | inr (inr (inr (w, r))) ↦
      let (r', m) = sized_inv 4 (four_bytes a bs) r in
      subst (λ k. Takes a bs k rest) (sym m) (four_Takes a bs w h r')
]

-- A sequence is exactly what `encode_utf8` writes for its scalar value.
pub encoded-IsSequence : (p : ℕ) → IsScalar p → IsSequence p (encoded p)
encoded-IsSequence p h = elim (Bool-cases (leb p 0x7f)) [
  | inl u ↦ rw u (one (ground arith) refl)
  | inr u ↦ elim (Bool-cases (leb p 0x7ff)) [
    | inl v ↦ rw (u, v) (two (ground arith) (ground arith) (omega arith) (ground arith))
    | inr v ↦ elim (Bool-cases (leb p 0xffff)) [
      | inl w ↦
          rw (u, v, w)
            (three (ground arith) (ground arith) (omega arith) (omega arith) (ground arith)
              (ground arith) (ground arith))
      | inr w ↦
          rw (u, v, w)
            (four (ground arith) (ground arith) (omega arith) (omega arith) (omega arith)
              (ground arith) (ground arith) (ground arith))
    ]
  ]
]

pub IsSequence-IsScalar : {p : ℕ} {s : Bytes} → IsSequence p s → IsScalar p
IsSequence-IsScalar (one h e) = inl (omega arith)
IsSequence-IsScalar (two l h t e) = inl (omega arith)
IsSequence-IsScalar (three l h t u v w e) = ground arith
IsSequence-IsScalar (four l h t u v w x e) = inr (ground arith)

pub IsSequence-encoded : {p : ℕ} {s : Bytes} → IsSequence p s → encoded p ≡ s
IsSequence-encoded (one h e) = ground arith
IsSequence-encoded (two l h t e) = ground arith
IsSequence-encoded (three l h t u v w e) = ground arith
IsSequence-encoded (four l h t u v w x e) = ground arith

-- Reading a sequence gives the value and the length.
pub decode-IsSequence :
    {p : ℕ} {s : Bytes} (rest : Bytes) → IsSequence p s → utf8_decode (s ++ rest) ≡ (p, length s)
decode-IsSequence rest (one {a} h e) = decode_one a rest h ∙ ground arith
decode-IsSequence rest (two {a} {b} l h t e) = decode_two a b rest (omega arith) h ∙ ground arith
decode-IsSequence rest (three {a} {b} {c} l h t u v w e) =
    decode_three a b c rest l h ∙ ground arith
decode-IsSequence rest (four {a} {b} {c} {d} l h t u v w x e) =
    decode_four a b c d rest l ∙ ground arith
