-- ===== src/Utf8/Scalars.antt =====
-- The validator against the encodings of lists of scalar values.
use maelys_json.Base.{
  ℕ, zero, suc, ◌+◌, ◌≤◌, ◌<◌, ◌≡◌, ◌≢◌, ◌↔◌, inl, inr, refl, sym, ap, ◌∙◌, subst, List, [], ◌∷◌,
  ◌++◌, append_assoc, true, some, none, Bytes, IsByte, All, All-append_right, length, length-append,
  arith, ◌==◌, ==_iff, Option-cases,
}
use maelys_json.Utf8.Points.{encode_utf8, utf8_decode}
use maelys_json.Utf8.Points.Arithmetic.{encode_utf8-encoded}
use maelys_json.Utf8.Sequence.{
  IsScalar, IsSequence, one, two, three, four, sequence-Takes, sequence-IsSequence,
  decode-IsSequence, encoded-IsSequence, IsSequence-encoded, IsSequence-IsScalar,
}
use maelys_json.Utf8.Validate.{sequence, prefix_loop, utf8_valid_prefix, utf8_validate}

-- The encoding of a list of scalar values.
unfoldable pub encode_all : List ℕ → Bytes
encode_all [] = []
encode_all (p ∷ ps) = encode_utf8 p ++ encode_all ps

pub scalar-lt : (p : ℕ) → IsScalar p → p < 0x11_0000
scalar-lt p h = omega arith

pub IsSequence-ne-nil : {p : ℕ} {s : Bytes} → IsSequence p s → 1 ≤ length s
IsSequence-ne-nil (one h e) = omega arith
IsSequence-ne-nil (two l h t e) = omega arith
IsSequence-ne-nil (three l h t u v w e) = omega arith
IsSequence-ne-nil (four l h t u v w x e) = omega arith

pub encode_utf8-IsSequence : (p : ℕ) → IsScalar p → IsSequence p (encode_utf8 p)
encode_utf8-IsSequence p h = rw (encode_utf8-encoded p (scalar-lt p h)) (encoded-IsSequence p h)

pub IsSequence-encode_utf8 : {p : ℕ} {s : Bytes} → IsSequence p s → encode_utf8 p ≡ s
IsSequence-encode_utf8 {p} i =
    encode_utf8-encoded p (scalar-lt p (IsSequence-IsScalar i)) ∙ IsSequence-encoded i

pub encode_all-cons : (p : ℕ) (ps : List ℕ) → encode_all (p ∷ ps) ≡ encode_utf8 p ++ encode_all ps
unfolding encode_all
encode_all-cons p ps = refl

pub encode_all-append : (ps qs : List ℕ) → encode_all (ps ++ qs) ≡ encode_all ps ++ encode_all qs
unfolding encode_all
encode_all-append [] qs = refl
encode_all-append (p ∷ ps) qs = simp (encode_all-append ps, append_assoc)

-- `n` is the size of the longest prefix of `bs` that encodes scalar values: the prefix encodes
-- `points`, and no well-formed sequence begins behind it.
pub record IsLongest (bs : Bytes) (n : ℕ) : Type 0 where
  pub points : List ℕ
  pub rest : Bytes
  pub scalars : All IsScalar points
  pub splits : bs ≡ encode_all points ++ rest
  pub size : n ≡ length (encode_all points)
  pub stops : (p : ℕ) (s tail : Bytes) → IsSequence p s → rest ≢ s ++ tail

nothing-starts : (p : ℕ) (s tail : Bytes) → IsSequence p s → [] ≢ s ++ tail
nothing-starts p s tail (one h e) = cc
nothing-starts p s tail (two l h t e) = cc
nothing-starts p s tail (three l h t u v w e) = cc
nothing-starts p s tail (four l h t u v w x e) = cc

-- A sequence at the front is one that the round takes.
sequence_front :
    (a : ℕ) (bs : Bytes) {p : ℕ} {s : Bytes} (tail : Bytes)
    → IsSequence p s
    → a ∷ bs ≡ s ++ tail
    → sequence a bs ≡ some (length s, tail)
sequence_front a bs {p} {s = []} tail i e = absurd (omega (arith, IsSequence-ne-nil i))
sequence_front a bs {p} {s = b ∷ s} tail i e =
    let same : b ≡ a = cc in
    let rest : bs ≡ s ++ tail = cc in rw (rest, ← same) (sequence-IsSequence b tail i)

loop_stop : (f a : ℕ) (bs : Bytes) → sequence a bs ≡ none → prefix_loop (suc f) (a ∷ bs) ≡ 0
unfolding prefix_loop
loop_stop f a bs e = rw (e, prefix_loop)

loop_step :
    (f a : ℕ) (bs : Bytes) {n : ℕ} {rest : Bytes}
    → sequence a bs ≡ some (n, rest)
    → prefix_loop (suc f) (a ∷ bs) ≡ n + prefix_loop f rest
unfolding prefix_loop
loop_step f a bs e = rw (e, prefix_loop)

prefix_loop-IsLongest :
    (fuel : ℕ) (bs : Bytes) → length bs ≤ fuel → All IsByte bs → IsLongest bs (prefix_loop fuel bs)
unfolding encode_all
prefix_loop-IsLongest fuel [] le h = record {
  points = [];
  rest = [];
  scalars = tt;
  splits = refl;
  size = unfold prefix_loop in refl;
  stops = nothing-starts;
}
prefix_loop-IsLongest zero (a ∷ bs) le h = absurd (omega arith)
prefix_loop-IsLongest (suc fuel) (a ∷ bs) le h = elim (Option-cases (sequence a bs)) [
  | inl e ↦ rw (loop_stop fuel a bs e) (record {
    points = [];
    rest = a ∷ bs;
    scalars = tt;
    splits = refl;
    size = refl;
    stops = λ p s tail i eq. cc (e, sequence_front a bs tail i eq);
  })
  | inr (r, e) ↦
      let t = sequence-Takes a bs h.1 e in
      let bytes = All-append_right IsByte t.taken r.1 (subst (All IsByte) t.splits h) in
      let shorter : length r.1 ≤ fuel =
        omega
          (arith, ap length t.splits, length-append t.taken r.1, IsSequence-ne-nil t.is_sequence) in
      let ih = prefix_loop-IsLongest fuel r.1 shorter bytes in
      rw (loop_step fuel a bs e) (record {
        points = t.point ∷ ih.points;
        rest = ih.rest;
        scalars = (IsSequence-IsScalar t.is_sequence, ih.scalars);
        splits =
            t.splits
            ∙ rw (IsSequence-encode_utf8 t.is_sequence, append_assoc)
                (ap (λ u. t.taken ++ u) ih.splits);
        size =
            rw (IsSequence-encode_utf8 t.is_sequence, length-append)
              (omega (arith, t.size, ih.size));
        stops = ih.stops;
      })
]

-- The prefix that the validator measures is the longest one that encodes scalar values.
pub utf8_valid_prefix-IsLongest : (bs : Bytes) → All IsByte bs → IsLongest bs (utf8_valid_prefix bs)
unfolding utf8_valid_prefix
utf8_valid_prefix-IsLongest bs h = prefix_loop-IsLongest (length bs) bs (omega arith) h

loop_sequence :
    (fuel : ℕ) {p : ℕ} (s rest : Bytes)
    → IsSequence p s
    → prefix_loop (suc fuel) (s ++ rest) ≡ length s + prefix_loop fuel rest
loop_sequence fuel [] rest i = absurd (omega (arith, IsSequence-ne-nil i))
loop_sequence fuel (b ∷ s) rest i = loop_step fuel b (s ++ rest) (sequence-IsSequence b rest i)

encode_loop :
    (fuel : ℕ) (ps : List ℕ)
    → length (encode_all ps) ≤ fuel
    → All IsScalar ps
    → prefix_loop fuel (encode_all ps) ≡ length (encode_all ps)
encode_loop fuel [] le h = unfold encode_all prefix_loop in refl
encode_loop zero (p ∷ ps) le (hp, h) =
    let i = encode_utf8-IsSequence p hp in
    absurd (
      unfold encode_all in
      omega (arith, IsSequence-ne-nil i, length-append (encode_utf8 p) (encode_all ps)))
encode_loop (suc fuel) (p ∷ ps) le (hp, h) =
    let i = encode_utf8-IsSequence p hp in
    let size = length-append (encode_utf8 p) (encode_all ps) in
    let shorter : length (encode_all ps) ≤ fuel =
      omega (arith, ap length (encode_all-cons p ps), size, IsSequence-ne-nil i) in
    rw (encode_all-cons p ps, loop_sequence fuel (encode_utf8 p) (encode_all ps) i, size)
      (ap (λ t. length (encode_utf8 p) + t) (encode_loop fuel ps shorter h))

no_more : (xs rest : Bytes) → length (xs ++ rest) ≡ length xs → xs ++ rest ≡ xs
no_more [] [] e = refl
no_more [] (r ∷ rest) e = absurd (omega arith)
no_more (x ∷ xs) rest e = ap (λ t. x ∷ t) (no_more xs rest (omega arith))

-- The validator accepts exactly the encodings of Unicode scalar values: no surrogate, no overlong
-- form, nothing above U+10FFFF.
pub utf8_validate_iff :
    (bs : Bytes)
    → All IsByte bs
    → (utf8_validate bs ≡ true) ↔ ((ps : List ℕ) × All IsScalar ps × (bs ≡ encode_all ps))
unfolding utf8_validate
utf8_validate_iff bs h = (sound, complete)
  where
    l : IsLongest bs (utf8_valid_prefix bs)
    l = utf8_valid_prefix-IsLongest bs h

    sound :
        (utf8_valid_prefix bs == length bs) ≡ true
        → (ps : List ℕ) × All IsScalar ps × (bs ≡ encode_all ps)
    sound e = (
      l.points,
      l.scalars,
      l.splits
          ∙ no_more (encode_all l.points) l.rest
              (sym (ap length l.splits) ∙ sym ((==_iff _ _).0 e) ∙ l.size),
    )

    complete :
        (ps : List ℕ) × All IsScalar ps × (bs ≡ encode_all ps)
        → (utf8_valid_prefix bs == length bs) ≡ true
    complete (ps, scalars, e) =
        rw e (unfold utf8_valid_prefix in (==_iff _ _).1 (encode_loop _ ps (omega arith) scalars))

-- Decoding reads back the point that was encoded, whatever follows, and takes just its bytes.
pub utf8_decode-encode_utf8 :
    (p : ℕ) (rest : Bytes)
    → IsScalar p
    → utf8_decode (encode_utf8 p ++ rest) ≡ (p, length (encode_utf8 p))
utf8_decode-encode_utf8 p rest h = decode-IsSequence rest (encode_utf8-IsSequence p h)
