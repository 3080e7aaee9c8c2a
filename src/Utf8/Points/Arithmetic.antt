-- ===== src/Utf8/Points/Arithmetic.antt =====
-- What `encode_utf8` and `utf8_decode` compute, with the masks, shifts and joins as arithmetic.
use maelys_json.Base.{
  ℕ, ◌+◌, ◌*◌, ◌/◌, ◌%◌, ◌≤◌, ◌<◌, ◌≡◌, ◌∙◌, [], ◌∷◌, bit_and, bit_or, Bytes, leb, arith,
  if◌then◌else◌,
}
use maelys_json.Base.Bits.{
  mask_3, mask_4, mask_5, mask_6, Joins-8, Joins-16, Joins-64, Joins-4096, Joins-2_18,
}
use maelys_json.Utf8.Points.{utf8_decode, encode_utf8}

-- What `encode_utf8` writes, as arithmetic.
abbrev pub encoded : ℕ → Bytes
encoded p =
    if leb p 0x7f
    then p ∷ []
    else if leb p 0x7ff
    then (0xc0 + p / 0x40) ∷ (0x80 + p % 0x40) ∷ []
    else if leb p 0xffff
    then (0xe0 + p / 0x1000) ∷ (0x80 + p / 0x40 % 0x40) ∷ (0x80 + p % 0x40) ∷ []
    else (0xf0 + p / 0x4_0000)
      ∷ (0x80 + p / 0x1000 % 0x40)
      ∷ (0x80 + p / 0x40 % 0x40)
      ∷ (0x80 + p % 0x40)
      ∷ []

or_c0 : (y : ℕ) → y < 0x40 → bit_or 0xc0 y ≡ 0xc0 + y
or_c0 y h = Joins-64 3 y h

or_80 : (y : ℕ) → bit_or 0x80 (bit_and y 0x3f) ≡ 0x80 + y % 0x40
or_80 y = rw mask_6 (Joins-64 2 (y % 0x40) (omega arith))

or_e0 : (y : ℕ) → y < 0x10 → bit_or 0xe0 y ≡ 0xe0 + y
or_e0 y h = Joins-16 14 y h

or_f0 : (y : ℕ) → y < 0x8 → bit_or 0xf0 y ≡ 0xf0 + y
or_f0 y h = Joins-8 30 y h

pub encode_utf8-encoded : (p : ℕ) → p < 0x11_0000 → encode_utf8 p ≡ encoded p
unfolding encode_utf8
encode_utf8-encoded p h = ground (
  arith,
  or_80 p,
  or_80 (p / 0x40),
  or_80 (p / 0x1000),
  or_c0 (p / 0x40),
  or_e0 (p / 0x1000),
  or_f0 (p / 0x4_0000),
)

-- What `utf8_decode` reads for each length, as arithmetic.
pub joined_two :
    (a b : ℕ)
    → bit_or (bit_and a 0x1f * 0x40 % 0x1_0000_0000) (bit_and b 0x3f) ≡ a % 32 * 64 + b % 64
joined_two a b =
    rw (mask_5, mask_6)
      (let e : a % 32 * 64 % 0x1_0000_0000 ≡ a % 32 * 64 = omega arith in
        rw e (Joins-64 (a % 32) (b % 64) (omega arith)))

pub joined_three :
    (a b c : ℕ)
    → bit_or
        (bit_or (bit_and a 0x0f * 0x1000 % 0x1_0000_0000) (bit_and b 0x3f * 0x40 % 0x1_0000_0000))
        (bit_and c 0x3f)
      ≡ a % 16 * 4096 + b % 64 * 64 + c % 64
joined_three a b c =
    let e : a % 16 * 0x1000 % 0x1_0000_0000 ≡ a % 16 * 4096 = omega arith in
    let f : b % 64 * 0x40 % 0x1_0000_0000 ≡ b % 64 * 64 = omega arith in
    let g : a % 16 * 4096 + b % 64 * 64 ≡ (a % 16 * 64 + b % 64) * 64 = omega arith in
    rw (mask_4, mask_6 b, mask_6 c, e, f, Joins-4096 (a % 16) (b % 64 * 64) (omega arith), g)
      (Joins-64 (a % 16 * 64 + b % 64) (c % 64) (omega arith))

pub joined_four :
    (a b c d : ℕ)
    → bit_or
        (bit_or
          (bit_or
            (bit_and a 0x07 * 0x4_0000 % 0x1_0000_0000)
            (bit_and b 0x3f * 0x1000 % 0x1_0000_0000))
          (bit_and c 0x3f * 0x40 % 0x1_0000_0000))
        (bit_and d 0x3f)
      ≡ a % 8 * 262144 + b % 64 * 4096 + c % 64 * 64 + d % 64
joined_four a b c d =
    let e : a % 8 * 0x4_0000 % 0x1_0000_0000 ≡ a % 8 * 262144 = omega arith in
    let f : b % 64 * 0x1000 % 0x1_0000_0000 ≡ b % 64 * 4096 = omega arith in
    let g : c % 64 * 0x40 % 0x1_0000_0000 ≡ c % 64 * 64 = omega arith in
    let u : a % 8 * 262144 + b % 64 * 4096 ≡ (a % 8 * 64 + b % 64) * 4096 = omega arith in
    let v : (a % 8 * 64 + b % 64) * 4096 + c % 64 * 64
        ≡ (a % 8 * 4096 + b % 64 * 64 + c % 64) * 64 =
      omega arith in
    rw
      (
        mask_3,
        mask_6 b,
        mask_6 c,
        mask_6 d,
        e,
        f,
        g,
        Joins-2_18 (a % 8) (b % 64 * 4096) (omega arith),
        u,
      )
      (rw (Joins-4096 (a % 8 * 64 + b % 64) (c % 64 * 64) (omega arith), v)
        (Joins-64 (a % 8 * 4096 + b % 64 * 64 + c % 64) (d % 64) (omega arith) ∙ omega arith))

pub decode_one : (a : ℕ) (rest : Bytes) → a < 0x80 → utf8_decode (a ∷ rest) ≡ (a, 1)
unfolding utf8_decode
decode_one a rest h = ground arith

pub decode_two :
    (a b : ℕ) (rest : Bytes)
    → 0x80 ≤ a
    → a ≤ 0xdf
    → utf8_decode (a ∷ b ∷ rest) ≡ (a % 32 * 64 + b % 64, 2)
unfolding utf8_decode
decode_two a b rest h k = ground (arith, joined_two a b)

pub decode_three :
    (a b c : ℕ) (rest : Bytes)
    → 0xe0 ≤ a
    → a ≤ 0xef
    → utf8_decode (a ∷ b ∷ c ∷ rest) ≡ (a % 16 * 4096 + b % 64 * 64 + c % 64, 3)
unfolding utf8_decode
decode_three a b c rest h k = ground (arith, joined_three a b c)

pub decode_four :
    (a b c d : ℕ) (rest : Bytes)
    → 0xf0 ≤ a
    → utf8_decode (a ∷ b ∷ c ∷ d ∷ rest)
      ≡ (a % 8 * 262144 + b % 64 * 4096 + c % 64 * 64 + d % 64, 4)
unfolding utf8_decode
decode_four a b c d rest h = ground (arith, joined_four a b c d)
