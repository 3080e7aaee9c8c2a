-- ===== src/Utf8/Literal/Decoding.antt =====
-- `maelys_json_decode_string` gives text within the bounds that the parser's arena relies on.
use maelys_json.Base.{
  ℕ, zero, suc, ◌+◌, ◌-◌, ◌≤◌, ◌<◌, ◌≡◌, ◌⊎◌, inl, inr, refl, sym, ap, ◌∙◌, subst, false, ◌||◌, [],
  ◌∷◌, ◌++◌, Bytes, All, All-append_left, All-append_right, length, length-append, ltb, ◌==◌, arith,
  Bool-cases, Option-cases,
}
use maelys_json.Types.{syntax, utf8, Profile, rfc8259, contract_ascii, rfc8259_last_wins}
use maelys_json.Utf8.Validate.{utf8_validate}
use maelys_json.Utf8.Literal.{
  escape, plain_run, Decoded, text, bad, stuck, decode_loop, decode_ascii, decode_string,
}
use maelys_json.Utf8.Literal.Text.{
  IsContent, IsText, IsText-nil, IsText-append, IsText-one, run-IsText, prefix-lt,
  encode_utf8_ascii,
}
use maelys_json.Utf8.Literal.Escapes.{escape-IsWritten, escape-Keeps}
use maelys_json.Utf8.Literal.Rounds.{
  plain_run-append, plain_run_pos, loop_escape, loop_bad_escape, loop_run, loop_bad_run,
}

-- What holds of a result: a text of at most `size` bytes, or an error at an offset before `end`.
abbrev pub Ensures : ℕ → ℕ → Decoded → Type 0
Ensures size end (text t) = IsText t × (length t ≤ size)
Ensures size end (bad e offset) = ((e ≡ syntax) ⊎ (e ≡ utf8)) × (offset < end)
Ensures size end stuck = ⊥

Ensures-mono :
    (d : Decoded) {n m end end' : ℕ} → n ≤ m → end ≡ end' → Ensures n end d → Ensures m end' d
Ensures-mono (text t) le e (h, k) = (h, omega arith)
Ensures-mono (bad x o) le e (h, k) = (h, omega arith)
Ensures-mono stuck le e h = h

decode_loop-Ensures :
    (fuel : ℕ) (bs : Bytes) (at : ℕ) (out : Bytes)
    → length bs ≤ fuel
    → All IsContent bs
    → IsText out
    → Ensures (length out + length bs) (at + length bs) (decode_loop fuel bs at out)
decode_loop-Ensures fuel [] at out le h t = unfold decode_loop in (t, omega arith)
decode_loop-Ensures zero (b ∷ bs) at out le h t = absurd (omega arith)
decode_loop-Ensures (suc fuel) (b ∷ bs) at out le h t = elim (Bool-cases (b == b'\\')) [
  | inl e ↦ elim (Option-cases (escape bs)) [
    | inl n ↦ rw (loop_bad_escape fuel b bs at out e n) (inl refl, omega arith)
    | inr ((w, r), n) ↦
        let i = escape-IsWritten bs n in
        rw (loop_escape fuel b bs at out e n) (
          Ensures-mono (decode_loop fuel r (at + 1 + (length bs - length r)) (out ++ w))
            (omega (arith, i.fits, length-append out w)) (omega (arith, i.left))
            (decode_loop-Ensures fuel r (at + 1 + (length bs - length r)) (out ++ w)
              (omega (arith, i.left)) (escape-Keeps bs n h.1) (IsText-append t i.is_text)))
  ]
  | inr e ↦
      let run = (plain_run (b ∷ bs)).0 in
      let rest = (plain_run (b ∷ bs)).1 in
      let whole : run ++ rest ≡ b ∷ bs = plain_run-append (b ∷ bs) in
      let size : length run + length rest ≡ suc (length bs) =
        sym (length-append run rest) ∙ ap length whole in
      let content = subst (All IsContent) (sym whole) h in
      let content_run = All-append_left IsContent run rest content in
      elim (Bool-cases (utf8_validate run)) [
        | inl v ↦ rw (loop_run fuel b bs at out e v) (
            Ensures-mono (decode_loop fuel rest (at + length run) (out ++ run))
              (omega (arith, size, length-append out run)) (omega (arith, size))
              (decode_loop-Ensures fuel rest (at + length run) (out ++ run)
                (omega (arith, size, plain_run_pos b bs e))
                (All-append_right IsContent run rest content)
                (IsText-append t (run-IsText run content_run v))))
        | inr v ↦
            rw (loop_bad_run fuel b bs at out e v)
              (inr refl, omega (arith, size, prefix-lt run content_run v))
      ]
]

ascii_step :
    (b : ℕ) (bs : Bytes) (at : ℕ) (out : Bytes)
    → (ltb b 0x20 || ltb 0x7e b || b == b'\\') ≡ false
    → decode_ascii (b ∷ bs) at out ≡ decode_ascii bs (at + 1) (out ++ b ∷ [])
unfolding decode_ascii
ascii_step b bs at out e = rw e

ascii-Ensures :
    (bs : Bytes) (at : ℕ) (out : Bytes)
    → IsText out
    → Ensures (length out + length bs) (at + length bs) (decode_ascii bs at out)
ascii-Ensures [] at out t = unfold decode_ascii in (t, omega arith)
ascii-Ensures (b ∷ bs) at out t = elim (Bool-cases (ltb b 0x20 || ltb 0x7e b || b == b'\\')) [
  | inl e ↦ unfold decode_ascii in rw e (inl refl, omega arith)
  | inr e ↦
      let printable : (0x20 ≤ b) × (b < 0x7f) = ground arith in
      let text_b =
        rw (encode_utf8_ascii b (omega arith)) at (IsText-one b (omega arith, omega arith)) in
      rw (ascii_step b bs at out e) (
        Ensures-mono (decode_ascii bs (at + 1) (out ++ b ∷ []))
          (omega (arith, length-append out (b ∷ []))) (omega arith)
          (ascii-Ensures bs (at + 1) (out ++ b ∷ []) (IsText-append t text_b)))
]

-- Decoding a literal with no control characters always ends: with UTF-8 text that holds no NUL and
-- is no longer than the literal, or with SYNTAX or UTF8 at an offset inside the literal.
pub decode_string-Ensures :
    (profile : Profile) (bs : Bytes)
    → All IsContent bs
    → Ensures (length bs) (length bs) (decode_string profile bs)
unfolding decode_string
decode_string-Ensures contract_ascii bs h =
    Ensures-mono (decode_ascii bs 0 []) (omega arith) (omega arith)
      (ascii-Ensures bs 0 [] IsText-nil)
decode_string-Ensures rfc8259 bs h =
    Ensures-mono (decode_loop (length bs) bs 0 []) (omega arith) (omega arith)
      (decode_loop-Ensures (length bs) bs 0 [] (omega arith) h IsText-nil)
decode_string-Ensures rfc8259_last_wins bs h =
    Ensures-mono (decode_loop (length bs) bs 0 []) (omega arith) (omega arith)
      (decode_loop-Ensures (length bs) bs 0 [] (omega arith) h IsText-nil)
