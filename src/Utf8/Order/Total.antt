-- ===== src/Utf8/Order/Total.antt =====
-- The key order is a total order on texts.
use Prim.Native.Nat.{compare, Ordering}
use maelys_json.Base.{
  ℕ, ◌+◌, ◌≡◌, ◌↔◌, refl, sym, ap, ◌∙◌, List, [], ◌∷◌, ◌++◌, All, leb, if◌then◌else◌, arith,
  append_assoc, All-append_right, ltb, ◌≢◌,
}
use maelys_json.Utf8.Order.{utf16_compare}
use maelys_json.Utf8.Order.Units.{units_of, units, lex, utf16_compare-lex}
use maelys_json.Utf8.Scalars.{encode_all}
use maelys_json.Utf8.Sequence.{IsScalar}

unfoldable pub reversed : Ordering → Ordering
reversed Ordering.lt = Ordering.gt
reversed Ordering.gt = Ordering.lt
reversed Ordering.eq = Ordering.eq

lex_swap : (us vs : List ℕ) → lex us vs ≡ reversed (lex vs us)
unfolding lex reversed
lex_swap [] [] = refl
lex_swap [] (v ∷ vs) = refl
lex_swap (u ∷ us) [] = refl
lex_swap (u ∷ us) (v ∷ vs) = ground (arith, lex_swap us vs)

lex-eq : (us vs : List ℕ) → lex us vs ≡ Ordering.eq → us ≡ vs
unfolding lex
lex-eq [] [] h = refl
lex-eq [] (v ∷ vs) h = cc
lex-eq (u ∷ us) [] h = cc
lex-eq (u ∷ us) (v ∷ vs) h = ground (arith, lex-eq us vs)

lex_self : (us : List ℕ) → lex us us ≡ Ordering.eq
unfolding lex
lex_self [] = refl
lex_self (u ∷ us) = ground (arith, lex_self us)

lex_trans :
    (us vs ws : List ℕ)
    → lex us vs ≡ Ordering.lt
    → lex vs ws ≡ Ordering.lt
    → lex us ws ≡ Ordering.lt
unfolding lex
lex_trans [] [] ws h k = cc
lex_trans [] (v ∷ vs) [] h k = cc
lex_trans [] (v ∷ vs) (w ∷ ws) h k = refl
lex_trans (u ∷ us) [] ws h k = cc
lex_trans (u ∷ us) (v ∷ vs) [] h k = cc
lex_trans (u ∷ us) (v ∷ vs) (w ∷ ws) h k = ground (arith, lex_trans us vs ws)

-- The first units tell the points apart.
units-injective :
    (ps qs : List ℕ) → All IsScalar ps → All IsScalar qs → units ps ≡ units qs → ps ≡ qs
units-injective [] [] hp hq e = refl
units-injective [] (q ∷ qs) hp hq e = absurd (ground arith)
units-injective (p ∷ ps) [] hp hq e = absurd (ground arith)
units-injective (p ∷ ps) (q ∷ qs) (sp, hp) (sq, hq) e = ground (arith, units-injective ps qs hp hq)

-- What an order on texts promises: swapping the sides turns the result round, equal means the same
-- bytes, and `lt` is transitive.
pub record IsTotal (ps qs rs : List ℕ) : Type 0 where
  pub swaps :
      utf16_compare (encode_all ps) (encode_all qs)
      ≡ reversed (utf16_compare (encode_all qs) (encode_all ps))
  pub equal_iff :
      (utf16_compare (encode_all ps) (encode_all qs) ≡ Ordering.eq)
      ↔ (encode_all ps ≡ encode_all qs)
  pub trans :
      utf16_compare (encode_all ps) (encode_all qs) ≡ Ordering.lt
      → utf16_compare (encode_all qs) (encode_all rs) ≡ Ordering.lt
      → utf16_compare (encode_all ps) (encode_all rs) ≡ Ordering.lt

-- The comparison is a total order on UTF-8 texts.
pub utf16_compare-IsTotal :
    (ps qs rs : List ℕ) → All IsScalar ps → All IsScalar qs → All IsScalar rs → IsTotal ps qs rs
utf16_compare-IsTotal ps qs rs hp hq hr = record {
  swaps = rw (pq, qp) (lex_swap (units ps) (units qs));
  equal_iff = (
    λ e. ap encode_all (units-injective ps qs hp hq (lex-eq (units ps) (units qs) (sym pq ∙ e))),
    λ e. rw e (utf16_compare-lex qs qs hq hq ∙ lex_self (units qs)),
  );
  trans = λ h k. pr ∙ lex_trans (units ps) (units qs) (units rs) (sym pq ∙ h) (sym qr ∙ k);
}
  where
    pq : utf16_compare (encode_all ps) (encode_all qs) ≡ lex (units ps) (units qs)
    pq = utf16_compare-lex ps qs hp hq

    qp : utf16_compare (encode_all qs) (encode_all ps) ≡ lex (units qs) (units ps)
    qp = utf16_compare-lex qs ps hq hp

    qr : utf16_compare (encode_all qs) (encode_all rs) ≡ lex (units qs) (units rs)
    qr = utf16_compare-lex qs rs hq hr

    pr : utf16_compare (encode_all ps) (encode_all rs) ≡ lex (units ps) (units rs)
    pr = utf16_compare-lex ps rs hp hr

-- Code points in the order of the comparison: U+E000 to U+FFFF come last.
abbrev pub rank : ℕ → ℕ
rank p = if ltb p 0xe000 then p else if leb 0x1_0000 p then p else p + 0x11_0000

lex_prefix : (cs us vs : List ℕ) → lex (cs ++ us) (cs ++ vs) ≡ lex us vs
unfolding lex
lex_prefix [] us vs = refl
lex_prefix (c ∷ cs) us vs = ground (arith, lex_prefix cs us vs)

units-append : (ps qs : List ℕ) → units (ps ++ qs) ≡ units ps ++ units qs
units-append [] qs = refl
units-append (p ∷ ps) qs = rw (units-append ps qs, append_assoc)

lex-units_of :
    (p q : ℕ) (us vs : List ℕ)
    → IsScalar p
    → IsScalar q
    → p ≢ q
    → lex (units_of p ++ us) (units_of q ++ vs) ≡ compare (rank p) (rank q)
unfolding lex
lex-units_of p q us vs hp hq ne = ground arith

-- The first two code points that differ decide, in code point order, except that those above U+FFFF
-- come before U+E000 to U+FFFF.
pub utf16_compare-rank :
    (cs ps qs : List ℕ) (p q : ℕ)
    → All IsScalar (cs ++ p ∷ ps)
    → All IsScalar (cs ++ q ∷ qs)
    → p ≢ q
    → utf16_compare (encode_all (cs ++ p ∷ ps)) (encode_all (cs ++ q ∷ qs))
      ≡ compare (rank p) (rank q)
utf16_compare-rank cs ps qs p q hp hq ne =
    utf16_compare-lex (cs ++ p ∷ ps) (cs ++ q ∷ qs) hp hq
    ∙ rw (units-append cs (p ∷ ps), units-append cs (q ∷ qs), lex_prefix)
        (lex-units_of p q (units ps) (units qs) (All-append_right IsScalar cs (p ∷ ps) hp).0
          (All-append_right IsScalar cs (q ∷ qs) hq).0 ne)
