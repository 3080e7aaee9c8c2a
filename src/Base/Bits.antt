-- ===== src/Base/Bits.antt =====
-- Masks and shifted fields as arithmetic: `a & (2^k - 1)` is `a % 2^k`, and joining a field below
-- 2^k to a multiple of 2^k by `|` is addition.
use Prim.Native.Nat.{
  ℕ, zero, suc, ◌+◌, ◌*◌, ◌/◌, ◌%◌, ◌≤◌, ◌<◌, min, max, bit_and, bit_or, digits, bit_and-bitwise,
  bit_or-bitwise,
}
use mathlib.Core.Path.{◌≡◌, refl, sym, ap, ◌∙◌}
use mathlib.Core.Bool.{Bool, true, ◌&&◌}
use native.Mathlib.Omega.{arith}

-- A test of all numbers below a bound, for tables.
unfoldable pub every_below : (ℕ → Bool) → ℕ → Bool
every_below test zero = true
every_below test (suc bound) = every_below test bound && test bound

pub every_below_sound :
    (test : ℕ → Bool) (bound i : ℕ) → i < bound → every_below test bound ≡ true → test i ≡ true
unfolding every_below
every_below_sound test (suc bound) i below table = ground (arith, every_below_sound test bound i)
every_below_sound test zero i below table = absurd (omega arith)

-- The digit recursion that the bit operations stand for, for any operation on two bits.
module _ (rest : ℕ → ℕ) (on_bits : ℕ → ℕ → ℕ) where
  digits-zero : (fuel b : ℕ) → digits rest on_bits fuel zero b ≡ rest b
  digits-zero zero b = refl
  digits-zero (suc fuel) b = refl

  -- Any two amounts of fuel that are enough give the same number.
  digits_stable :
      (a b fuel more : ℕ)
      → a ≤ fuel
      → a ≤ more
      → digits rest on_bits fuel a b ≡ digits rest on_bits more a b
  digits_stable a b zero zero h k = refl
  digits_stable zero b fuel more h k = digits-zero fuel b ∙ sym (digits-zero more b)
  digits_stable (suc a) b (suc fuel) (suc more) h k =
      let half = digits_stable (suc a / 2) (b / 2) fuel more (omega arith) (omega arith) in
      omega (arith, half)
  digits_stable (suc a) b zero more h k = absurd (omega arith)
  digits_stable (suc a) b fuel zero h k = absurd (omega arith)

and_halves : (a b : ℕ) → bit_and a b ≡ bit_and (a / 2) (b / 2) * 2 + min (a % 2) (b % 2)
and_halves zero b =
    let whole = bit_and-bitwise zero b in
    let half = bit_and-bitwise zero (b / 2) in omega (arith, whole, half)
and_halves (suc a) b =
    let whole = bit_and-bitwise (suc a) b in
    let half = bit_and-bitwise (suc a / 2) (b / 2) in
    let same =
      digits_stable (λ _. zero) min (suc a / 2) (b / 2) a (suc a / 2) (omega arith) (omega arith) in
    omega (arith, whole, half, same)

and_nothing : (bound a : ℕ) → a < bound → bit_and a 0 ≡ 0
and_nothing zero a h = absurd (omega arith)
and_nothing (suc bound) zero h = refl
and_nothing (suc bound) (suc a) h =
    let half = and_nothing bound (suc a / 2) (omega arith) in
    omega (arith, half, and_halves (suc a) 0)

-- The masks, one bit at a time.
mask_1 : (a : ℕ) → bit_and a 0x1 ≡ a % 2
mask_1 a = omega (arith, and_halves a 1, and_nothing (suc (a / 2)) (a / 2) (omega arith))

mask_2 : (a : ℕ) → bit_and a 0x3 ≡ a % 4
mask_2 a = omega (arith, and_halves a 3, mask_1 (a / 2))

pub mask_3 : (a : ℕ) → bit_and a 0x7 ≡ a % 8
mask_3 a = omega (arith, and_halves a 7, mask_2 (a / 2))

pub mask_4 : (a : ℕ) → bit_and a 0xf ≡ a % 16
mask_4 a = omega (arith, and_halves a 0xf, mask_3 (a / 2))

pub mask_5 : (a : ℕ) → bit_and a 0x1f ≡ a % 32
mask_5 a = omega (arith, and_halves a 0x1f, mask_4 (a / 2))

pub mask_6 : (a : ℕ) → bit_and a 0x3f ≡ a % 64
mask_6 a = omega (arith, and_halves a 0x3f, mask_5 (a / 2))

mask_7 : (a : ℕ) → bit_and a 0x7f ≡ a % 128
mask_7 a = omega (arith, and_halves a 0x7f, mask_6 (a / 2))

mask_8 : (a : ℕ) → bit_and a 0xff ≡ a % 256
mask_8 a = omega (arith, and_halves a 0xff, mask_7 (a / 2))

mask_9 : (a : ℕ) → bit_and a 0x1ff ≡ a % 512
mask_9 a = omega (arith, and_halves a 0x1ff, mask_8 (a / 2))

pub mask_10 : (a : ℕ) → bit_and a 0x3ff ≡ a % 1024
mask_10 a = omega (arith, and_halves a 0x3ff, mask_9 (a / 2))

or_halves : (a b : ℕ) → bit_or a b ≡ bit_or (a / 2) (b / 2) * 2 + max (a % 2) (b % 2)
or_halves zero b =
    let whole = bit_or-bitwise zero b in
    let half = bit_or-bitwise zero (b / 2) in omega (arith, whole, half)
or_halves (suc a) b =
    let whole = bit_or-bitwise (suc a) b in
    let half = bit_or-bitwise (suc a / 2) (b / 2) in
    let same =
      digits_stable (λ b. b) max (suc a / 2) (b / 2) a (suc a / 2) (omega arith) (omega arith) in
    omega (arith, whole, half, same)

or_nothing : (bound a : ℕ) → a < bound → bit_or a 0 ≡ a
or_nothing zero a h = absurd (omega arith)
or_nothing (suc bound) zero h = refl
or_nothing (suc bound) (suc a) h =
    let half = or_nothing bound (suc a / 2) (omega arith) in
    omega (arith, half, or_halves (suc a) 0)

-- Joining two numbers with no one bit in common, a bit at a time.
abbrev Joins : ℕ → Type 0
Joins p = (x y : ℕ) → y < p → bit_or (x * p) y ≡ x * p + y

Joins-1 : Joins 1
Joins-1 x zero h =
    let e : x * 1 ≡ x = omega arith in
    omega (arith, e, or_nothing (suc (x * 1)) (x * 1) (omega arith))
Joins-1 x (suc y) h = absurd (omega arith)

Joins-double : (p : ℕ) → Joins p → Joins (p * 2)
Joins-double p j x y h =
    let half : x * (p * 2) / 2 ≡ x * p = omega arith in
    let low : x * (p * 2) % 2 ≡ 0 = omega arith in
    omega
      (arith, or_halves (x * (p * 2)) y, ap (λ t. bit_or t (y / 2)) half, j x (y / 2) (omega arith))

pub Joins-8 : Joins 8
Joins-8 = Joins-double 4 (Joins-double 2 (Joins-double 1 Joins-1))

pub Joins-16 : Joins 16
Joins-16 = Joins-double 8 Joins-8

pub Joins-64 : Joins 64
Joins-64 = Joins-double 32 (Joins-double 16 Joins-16)

pub Joins-4096 : Joins 4096
Joins-4096 = six 64 Joins-64
  where
    six : (p : ℕ) → Joins p → Joins (p * 2 * 2 * 2 * 2 * 2 * 2)
    six p j =
        Joins-double _
          (Joins-double _ (Joins-double _ (Joins-double _ (Joins-double _ (Joins-double p j)))))

pub Joins-2_18 : Joins 262144
Joins-2_18 = Joins-double _ (
    Joins-double _
      (Joins-double _ (Joins-double _ (Joins-double _ (Joins-double 4096 Joins-4096)))))
