-- ===== src/Utf8/Order/Units.antt =====
-- The comparison is the lexicographic order of the UTF-16 code units.
use Prim.Native.Nat.{compare, Ordering}
use maelys_json.Base.{
  ℕ, zero, suc, ◌+◌, ◌-◌, ◌/◌, ◌%◌, ◌≤◌, ◌<◌, ◌≡◌, inl, inr, refl, sym, ap, ap₂, ◌∙◌, List, [], ◌∷◌,
  ◌++◌, none, some, Bytes, All, length, length-append, drop, leb, if◌then◌else◌, arith, Bool-cases,
}
use maelys_json.Base.Bits.{mask_10}
use maelys_json.Utf8.Order.{Cursor, next_point, utf16_next, compare_loop, utf16_compare}
use maelys_json.Utf8.Points.{encode_utf8}
use maelys_json.Utf8.Scalars.{
  encode_all, encode_all-cons, encode_utf8-IsSequence, IsSequence-ne-nil, scalar-lt,
}
use maelys_json.Utf8.Points.Arithmetic.{encode_utf8-encoded}
use maelys_json.Utf8.Sequence.{IsScalar, IsSequence, decode-IsSequence}

-- The code units of one scalar value, and of a text.
abbrev pub units_of : ℕ → List ℕ
units_of p =
    if leb 0x1_0000 p
    then (0xd800 + (p - 0x1_0000) / 0x400) ∷ (0xdc00 + (p - 0x1_0000) % 0x400) ∷ []
    else p ∷ []

abbrev pub units : List ℕ → List ℕ
units [] = []
units (p ∷ ps) = units_of p ++ units ps

-- The lexicographic order of number lists.
unfoldable pub lex : List ℕ → List ℕ → Ordering
lex [] [] = Ordering.eq
lex [] (y ∷ ys) = Ordering.lt
lex (x ∷ xs) [] = Ordering.gt
lex (x ∷ xs) (y ∷ ys) = elim (compare x y) [
  | Ordering.lt ↦ Ordering.lt
  | Ordering.gt ↦ Ordering.gt
  | Ordering.eq ↦ lex xs ys
]

drop-append : (xs ys : Bytes) → drop (length xs) (xs ++ ys) ≡ ys
drop-append [] ys = refl
drop-append (x ∷ xs) ys = drop-append xs ys

-- What is left to read: the surrogate that is due, and the units of the points behind it.
abbrev stream : ℕ → List ℕ → List ℕ
stream zero ps = units ps
stream (suc low) ps = suc low ∷ units ps

-- One step reads the first unit of the stream.
record Reads (c : Cursor) (u : ℕ) (us : List ℕ) : Type 0 where
  after : Cursor
  points : List ℕ
  scalars : All IsScalar points
  read : utf16_next c ≡ some (u, after)
  bytes : after.rest ≡ encode_all points
  left : us ≡ stream after.pending points

next_point-cons :
    (p : ℕ) (ps : List ℕ)
    → IsScalar p
    → next_point (encode_all (p ∷ ps)) ≡ (
        if leb 0x1_0000 p
        then some (
          0xd800 + (p - 0x1_0000) / 0x400,
          record { rest = encode_all ps; pending = 0xdc00 + (p - 0x1_0000) % 0x400 },
        )
        else some (p, record { rest = encode_all ps; pending = 0 }))
next_point-cons p ps h =
    let i = encode_utf8-IsSequence p h in
    rw (encode_all-cons p ps) (go (encode_utf8 p) i (IsSequence-ne-nil i))
  where
    go :
        (s : Bytes)
        → IsSequence p s
        → 1 ≤ length s
        → next_point (s ++ encode_all ps) ≡ (
            if leb 0x1_0000 p
            then some (
              0xd800 + (p - 0x1_0000) / 0x400,
              record { rest = encode_all ps; pending = 0xdc00 + (p - 0x1_0000) % 0x400 },
            )
            else some (p, record { rest = encode_all ps; pending = 0 }))
    go [] i pos = absurd (omega arith)
    go (b ∷ s) i pos =
        unfold next_point in
        rw (decode-IsSequence (encode_all ps) i, drop-append (b ∷ s) (encode_all ps), mask_10)

next-Reads :
    (pending : ℕ) (ps : List ℕ) (u : ℕ) (us : List ℕ)
    → All IsScalar ps
    → stream pending ps ≡ u ∷ us
    → Reads (record { rest = encode_all ps; pending = pending }) u us
next-Reads zero [] u us h e = cc
next-Reads zero (p ∷ ps) u us (hp, h) e = elim (Bool-cases (leb 0x1_0000 p)) [
  | inl big ↦
      let low = 0xdc00 + (p - 0x1_0000) % 0x400 in
      let whole : (0xd800 + (p - 0x1_0000) / 0x400) ∷ low ∷ units ps ≡ u ∷ us = rw big at e in
      let first : 0xd800 + (p - 0x1_0000) / 0x400 ≡ u = cc whole in
      let due : low ≡ suc (0xdbff + (p - 0x1_0000) % 0x400) = omega arith in
      record {
        after = record { rest = encode_all ps; pending = low };
        points = ps;
        scalars = h;
        read = unfold utf16_next in rw (next_point-cons p ps hp, big) (cc first);
        bytes = refl;
        left = rw due (cc (whole, due));
      }
  | inr small ↦
      let whole : p ∷ units ps ≡ u ∷ us = rw small at e in
      let first : p ≡ u = cc whole in
      record {
        after = record { rest = encode_all ps; pending = 0 };
        points = ps;
        scalars = h;
        read = unfold utf16_next in rw (next_point-cons p ps hp, small) (cc first);
        bytes = refl;
        left = cc whole;
      }
]
next-Reads (suc low) ps u us h e = record {
  after = record { rest = encode_all ps; pending = 0 };
  points = ps;
  scalars = h;
  read = unfold utf16_next in ground arith;
  bytes = refl;
  left = cc;
}

next-none :
    (pending : ℕ) (ps : List ℕ)
    → stream pending ps ≡ []
    → utf16_next (record { rest = encode_all ps; pending = pending }) ≡ none
unfolding utf16_next encode_all next_point
next-none zero [] e = refl
next-none zero (p ∷ ps) e = absurd (ground arith)
next-none (suc low) ps e = absurd (cc e)

Cursor-eta : (c : Cursor) {bs : Bytes} → c.rest ≡ bs → c ≡ record { rest = bs; pending = c.pending }
Cursor-eta c e = λ i. record { rest = e i; pending = c.pending }

units_of-le : (p : ℕ) → IsScalar p → length (units_of p) ≤ length (encode_utf8 p)
units_of-le p h = rw (encode_utf8-encoded p (scalar-lt p h)) (ground arith)

compare_loop-lex :
    (fuel pa pb : ℕ) (ps qs us vs : List ℕ)
    → All IsScalar ps
    → All IsScalar qs
    → stream pa ps ≡ us
    → stream pb qs ≡ vs
    → length us < fuel
    → compare_loop fuel
        (record { rest = encode_all ps; pending = pa })
        (record { rest = encode_all qs; pending = pb })
      ≡ lex us vs
unfolding compare_loop lex
compare_loop-lex zero pa pb ps qs us vs hp hq eu ev lt = absurd (omega arith)
compare_loop-lex (suc fuel) pa pb ps qs [] [] hp hq eu ev lt =
    rw (next-none pa ps eu, compare_loop, next-none pb qs ev, compare_loop)
compare_loop-lex (suc fuel) pa pb ps qs [] (v ∷ vs) hp hq eu ev lt =
    let b = next-Reads pb qs v vs hq ev in
    rw (next-none pa ps eu, compare_loop, b.read, compare_loop)
compare_loop-lex (suc fuel) pa pb ps qs (u ∷ us) [] hp hq eu ev lt =
    let a = next-Reads pa ps u us hp eu in
    rw (a.read, compare_loop, next-none pb qs ev, compare_loop)
compare_loop-lex (suc fuel) pa pb ps qs (u ∷ us) (v ∷ vs) hp hq eu ev lt =
    let a = next-Reads pa ps u us hp eu in
    let b = next-Reads pb qs v vs hq ev in
    let again =
      compare_loop-lex fuel a.after.pending b.after.pending a.points b.points us vs a.scalars
        b.scalars (sym a.left) (sym b.left) (omega arith) in
    let step = ap₂ (compare_loop fuel) (Cursor-eta a.after a.bytes) (Cursor-eta b.after b.bytes) in
    rw (a.read, compare_loop, b.read, compare_loop)
      (ap {B = Ordering}
        (λ t. elim (compare u v) as (λ x. Ordering) [
          | Ordering.lt ↦ Ordering.lt
          | Ordering.gt ↦ Ordering.gt
          | Ordering.eq ↦ t
        ])
        (step ∙ again))

units-le : (ps : List ℕ) → All IsScalar ps → length (units ps) ≤ length (encode_all ps)
units-le [] h = omega arith
units-le (p ∷ ps) (hp, h) =
    let bytes = length-append (encode_utf8 p) (encode_all ps) in
    let two = length-append (units_of p) (units ps) in
    omega (arith, ap length (encode_all-cons p ps), bytes, two, units-le ps h, units_of-le p hp)

-- Comparing two texts compares their UTF-16 code units, lexicographically.
pub utf16_compare-lex :
    (ps qs : List ℕ)
    → All IsScalar ps
    → All IsScalar qs
    → utf16_compare (encode_all ps) (encode_all qs) ≡ lex (units ps) (units qs)
unfolding utf16_compare
utf16_compare-lex ps qs hp hq =
    compare_loop-lex (length (encode_all ps) + 1) 0 0 ps qs (units ps) (units qs) hp hq refl refl
      (omega (arith, units-le ps hp))
