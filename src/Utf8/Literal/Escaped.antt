-- ===== src/Utf8/Literal/Escaped.antt =====
-- Decoding the canonical spelling of a text gives the text back.
use maelys_json.Base.{
  ℕ, zero, suc, ◌+◌, ◌≤◌, ◌<◌, ◌≡◌, inl, inr, refl, ap, ◌∙◌, subst, true, false, List, [], ◌∷◌,
  ◌++◌, append_assoc, append-nil, Bytes, IsByte, All, All-append, All-append_left, All-append_right,
  All-mono, length, length-append, arith, Bool-cases,
}
use maelys_json.Common.Escape.{canonical_escape, length-canonical_escape}
use maelys_json.Types.{rfc8259, rfc8259_last_wins}
use maelys_json.Utf8.Literal.{plain_run, text, decode_loop, decode_string}
use maelys_json.Utf8.Literal.Rounds.{loop_escape, loop_run}
use maelys_json.Utf8.Literal.Text.{IsCharacter, IsText, encode_utf8_ascii}
use maelys_json.Utf8.Points.{encode_utf8}
use maelys_json.Utf8.Points.Arithmetic.{encode_utf8-encoded}
use maelys_json.Utf8.Scalars.{
  encode_all, encode_all-append, encode_all-cons, scalar-lt, utf8_validate_iff, IsSequence-ne-nil,
  encode_utf8-IsSequence,
}
use maelys_json.Utf8.Sequence.{IsScalar}
use maelys_json.Utf8.Validate.{utf8_validate}
use maelys_json.Utf8.Literal.Spelling.{
  escaped, escaped-append, is_plain, IsPlain, escaped_plain, encode_all-IsPlain, IsReadBack,
  canonical_escape-IsReadBack,
}

-- Where a run ends: at the end, or at a reverse solidus.
abbrev Ends : Bytes → Type 0
Ends [] = Unit
Ends (b ∷ bs) = b ≡ b'\\'

plain_run-plain : (xs ys : Bytes) → All IsPlain xs → Ends ys → plain_run (xs ++ ys) ≡ (xs, ys)
unfolding plain_run
plain_run-plain [] [] h e = refl
plain_run-plain [] (y ∷ ys) h e = ground arith
plain_run-plain (x ∷ xs) ys (hx, h) e = ground (arith, plain_run-plain xs ys h e)

-- A text up to its first code point that is escaped.
record Front (ps : List ℕ) : Type 0 where
  front : List ℕ
  back : List ℕ
  splits : ps ≡ front ++ back
  plain : All IsPlain front
  ends : Ends (escaped (encode_all back))

escaped-Ends :
    (p : ℕ) (ps : List ℕ) → 0 < p → is_plain p ≡ false → Ends (escaped (encode_all (p ∷ ps)))
escaped-Ends p ps pos h =
    let r = canonical_escape-IsReadBack p [] pos h in
    let ascii : p < 0x80 = ground arith in
    rw (encode_all-cons, encode_utf8_ascii p ascii) (unfold escaped in rw r.spelled refl)

cons_front : (p : ℕ) {ps : List ℕ} → IsPlain p → Front ps → Front (p ∷ ps)
cons_front p e f = record {
  front = p ∷ f.front;
  back = f.back;
  splits = ap (λ t. p ∷ t) f.splits;
  plain = (e, f.plain);
  ends = f.ends;
}

front_of : (ps : List ℕ) → All IsCharacter ps → Front ps
front_of [] h = record {
  front = [];
  back = [];
  splits = refl;
  plain = tt;
  ends = unfold encode_all escaped in tt;
}
front_of (p ∷ ps) (hp, h) = elim (Bool-cases (is_plain p)) [
  | inl e ↦ cons_front p e (front_of ps h)
  | inr e ↦ record {
    front = [];
    back = p ∷ ps;
    splits = refl;
    plain = tt;
    ends = escaped-Ends p ps hp.1 e;
  }
]

run_step :
    (fuel : ℕ) (run rest : Bytes) (at : ℕ) (out : Bytes)
    → 1 ≤ length run
    → All IsPlain run
    → Ends rest
    → utf8_validate run ≡ true
    → decode_loop (suc fuel) (run ++ rest) at out
      ≡ decode_loop fuel rest (at + length run) (out ++ run)
run_step fuel [] rest at out pos h e v = absurd (omega arith)
run_step fuel (x ∷ xs) rest at out pos (hx, h) e v =
    let run : plain_run (x ∷ (xs ++ rest)) ≡ (x ∷ xs, rest) =
      plain_run-plain (x ∷ xs) rest (hx, h) e in
    let step = loop_run fuel x (xs ++ rest) at out (ground arith) (rw run v) in rw run at step

encode_utf8-IsByte : (p : ℕ) → IsScalar p → All IsByte (encode_utf8 p)
encode_utf8-IsByte p s = rw (encode_utf8-encoded p (scalar-lt p s)) (ground arith)

encode_all-IsByte : (ps : List ℕ) → All IsCharacter ps → All IsByte (encode_all ps)
unfolding encode_all
encode_all-IsByte [] h = tt
encode_all-IsByte (p ∷ ps) (hp, h) =
    All-append IsByte (encode_utf8 p) (encode_all ps) (encode_utf8-IsByte p hp.0)
      (encode_all-IsByte ps h)

validate_front : (ps : List ℕ) → All IsCharacter ps → utf8_validate (encode_all ps) ≡ true
validate_front ps h =
    (utf8_validate_iff (encode_all ps) (encode_all-IsByte ps h)).1
      (ps, All-mono IsCharacter IsScalar ps (λ p c. c.0) h, refl)

-- The spelling of an escaped code point, and of a run, at the front of a text.
spelled_escape :
    (p : ℕ) (ps : List ℕ) (r : IsReadBack p (escaped (encode_all ps)))
    → 0 < p
    → is_plain p ≡ false
    → escaped (encode_all (p ∷ ps)) ≡ b'\\' ∷ (r.tail ++ escaped (encode_all ps))
spelled_escape p ps r pos h =
    let ascii : p < 0x80 = ground arith in
    rw (encode_all-cons, encode_utf8_ascii p ascii) (unfold escaped in rw r.spelled)

spelled_run :
    (ps : List ℕ) (f : Front ps)
    → All IsCharacter ps
    → escaped (encode_all ps) ≡ encode_all f.front ++ escaped (encode_all f.back)
spelled_run ps f h =
    let h' = All-append_left IsCharacter f.front f.back (subst (All IsCharacter) f.splits h) in
    ap (λ t. escaped (encode_all t)) f.splits
    ∙ rw
        (encode_all-append, escaped-append, escaped_plain _ (encode_all-IsPlain f.front h' f.plain))

escape_pos : (b : ℕ) (bs : Bytes) → 1 ≤ length (escaped (b ∷ bs))
unfolding escaped
escape_pos b bs =
    omega (arith, length-append (canonical_escape b) (escaped bs), length-canonical_escape b)

escaped-ne-nil : (p : ℕ) (ps : List ℕ) → IsCharacter p → 1 ≤ length (escaped (encode_all (p ∷ ps)))
escaped-ne-nil p ps h =
    rw (encode_all-cons) (go (encode_utf8 p) (IsSequence-ne-nil (encode_utf8-IsSequence p h.0)))
  where
    go : (s : Bytes) → 1 ≤ length s → 1 ≤ length (escaped (s ++ encode_all ps))
    go [] h = absurd (omega arith)
    go (b ∷ s) h = escape_pos b (s ++ encode_all ps)

encode_all_pos : (p : ℕ) (ps : List ℕ) → IsCharacter p → 1 ≤ length (encode_all (p ∷ ps))
encode_all_pos p ps h = rw encode_all-cons (
    omega (
      arith,
      length-append (encode_utf8 p) (encode_all ps),
      IsSequence-ne-nil (encode_utf8-IsSequence p h.0),
    ))

decode_escaped :
    (fuel : ℕ) (ps : List ℕ) (at : ℕ) (out : Bytes)
    → length (escaped (encode_all ps)) ≤ fuel
    → All IsCharacter ps
    → decode_loop fuel (escaped (encode_all ps)) at out ≡ text (out ++ encode_all ps)
unfolding cons_front
decode_escaped fuel [] at out le h = unfold encode_all escaped decode_loop in rw append-nil
decode_escaped zero (p ∷ ps) at out le (hp, h) = absurd (omega (arith, le, escaped-ne-nil p ps hp))
decode_escaped (suc fuel) (p ∷ ps) at out le (hp, h) = elim (Bool-cases (is_plain p)) [
  | inr e ↦
      let r = canonical_escape-IsReadBack p (escaped (encode_all ps)) hp.1 e in
      let spelled = spelled_escape p ps r hp.1 e in
      let size = length-append r.tail (escaped (encode_all ps)) in
      let one : encode_all (p ∷ ps) ≡ p ∷ encode_all ps =
        encode_all-cons p ps ∙ rw (encode_utf8_ascii p (ground arith)) in
      rw spelled (
        loop_escape fuel b'\\' (r.tail ++ escaped (encode_all ps)) at out refl r.read
        ∙ decode_escaped fuel ps _ (out ++ p ∷ []) (omega (arith, ap length spelled, size)) h
        ∙ rw (one, append_assoc))
  | inl e ↦
      let t = front_of ps h in
      let f : Front (p ∷ ps) = cons_front p e t in
      let spelled = spelled_run (p ∷ ps) f (hp, h) in
      let run = encode_all f.front in
      let rest = escaped (encode_all f.back) in
      let parts = subst (All IsCharacter) f.splits (hp, h) in
      let in_front = All-append_left IsCharacter f.front f.back parts in
      let in_back = All-append_right IsCharacter f.front f.back parts in
      let size = length-append run rest in
      let pos : 1 ≤ length run = encode_all_pos p t.front hp in
      let left : length rest ≤ fuel = omega (arith, ap length spelled, size) in
      rw spelled (
        run_step fuel run rest at out pos (encode_all-IsPlain f.front in_front f.plain) f.ends
          (validate_front f.front in_front)
        ∙ decode_escaped fuel f.back (at + length run) (out ++ run) left in_back
        ∙ rw (f.splits, encode_all-append, append_assoc))
]

-- Decoding the canonical spelling of a text gives the text back, in both profiles with escapes.
pub decode_string-escaped :
    {s : Bytes}
    → IsText s
    → (decode_string rfc8259 (escaped s) ≡ text s)
      × (decode_string rfc8259_last_wins (escaped s) ≡ text s)
unfolding decode_string
decode_string-escaped {s} t = (whole, whole)
  where
    whole : decode_loop (length (escaped s)) (escaped s) 0 [] ≡ text s
    whole = rw t.spells (decode_escaped _ t.points 0 [] (omega arith) t.characters)
