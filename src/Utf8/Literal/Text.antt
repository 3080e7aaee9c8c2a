-- ===== src/Utf8/Literal/Text.antt =====
-- UTF-8 text with no NUL, which is what a decoded literal holds.
use maelys_json.Base.{
  ℕ, zero, suc, ◌≤◌, ◌<◌, ◌≡◌, refl, sym, ap, ◌∙◌, subst, true, false, List, [], ◌∷◌, ◌++◌,
  append-nil, Bytes, IsByte, All, All-append, All-append_left, All-append_right, All-mono, length,
  length-append, arith,
}
use maelys_json.Utf8.Points.{encode_utf8}
use maelys_json.Utf8.Points.Arithmetic.{encoded, encode_utf8-encoded}
use maelys_json.Utf8.Scalars.{
  encode_all, encode_all-append, encode_all-cons, scalar-lt, utf8_validate_iff,
  utf8_valid_prefix-IsLongest,
}
use maelys_json.Utf8.Sequence.{IsScalar}
use maelys_json.Utf8.Validate.{utf8_valid_prefix, utf8_validate}

-- A byte of a literal: the parser's scan lets no control character through.
abbrev pub IsContent : ℕ → Type 0
IsContent b = (0 < b) × (b < 256)

-- A character of a text: a scalar value that is not U+0000.
abbrev pub IsCharacter : ℕ → Type 0
IsCharacter p = IsScalar p × (0 < p)

-- UTF-8 text with no NUL.
pub record IsText (bs : Bytes) : Type 0 where
  pub points : List ℕ
  pub characters : All IsCharacter points
  pub spells : bs ≡ encode_all points

pub IsText-nil : IsText []
IsText-nil = record { points = []; characters = tt; spells = unfold encode_all in refl }

pub IsText-append : {xs ys : Bytes} → IsText xs → IsText ys → IsText (xs ++ ys)
IsText-append t u = record {
  points = t.points ++ u.points;
  characters = All-append IsCharacter t.points u.points t.characters u.characters;
  spells = rw (encode_all-append, ← t.spells, ← u.spells);
}

pub IsText-one : (p : ℕ) → IsCharacter p → IsText (encode_utf8 p)
IsText-one p h = record {
  points = p ∷ [];
  characters = (h, tt);
  spells = unfold encode_all in sym (append-nil (encode_utf8 p));
}

-- An ASCII byte is the encoding of its own value.
pub encode_utf8_ascii : (b : ℕ) → b < 0x80 → encode_utf8 b ≡ b ∷ []
encode_utf8_ascii b h = encode_utf8-encoded b (omega arith) ∙ ground arith

-- Validated bytes with no NUL are a text.
front : (p : ℕ) → IsScalar p → All IsContent (encode_utf8 p) → 0 < p
front p s h = go p (rw (encode_utf8-encoded p (scalar-lt p s)) at h)
  where
    go : (p : ℕ) → All IsContent (encoded p) → 0 < p
    go zero h = h.0.0
    go (suc p) h = omega arith

positive : (ps : List ℕ) → All IsScalar ps → All IsContent (encode_all ps) → All IsCharacter ps
positive [] s h = tt
positive (p ∷ ps) (sp, s) h =
    let h' = rw encode_all-cons at h in
    (
      (sp, front p sp (All-append_left IsContent (encode_utf8 p) (encode_all ps) h')),
      positive ps s (All-append_right IsContent (encode_utf8 p) (encode_all ps) h'),
    )

prefix-le : (bs : Bytes) → All IsByte bs → utf8_valid_prefix bs ≤ length bs
prefix-le bs h =
    let l = utf8_valid_prefix-IsLongest bs h in
    omega (arith, l.size, ap length l.splits, length-append (encode_all l.points) l.rest)

pub prefix-lt :
    (bs : Bytes) → All IsContent bs → utf8_validate bs ≡ false → utf8_valid_prefix bs < length bs
unfolding utf8_validate
prefix-lt bs h v = ground (arith, prefix-le bs (All-mono IsContent IsByte bs (λ b c. c.1) h))

pub run-IsText : (run : Bytes) → All IsContent run → utf8_validate run ≡ true → IsText run
run-IsText run h v =
    let (ps, scalars, e) =
      (utf8_validate_iff run (All-mono IsContent IsByte run (λ b c. c.1) h)).0 v in
    record { points = ps; characters = positive ps scalars (subst (All IsContent) e h); spells = e }
