-- ===== src/Utf8/Literal/Sizes.antt =====
-- `maelys_json_decode_string` on any bytes: the parser's scan lets through a control character
-- behind a backslash, which the decoder then refuses.
use maelys_json.Base.{
  ℕ, zero, suc, ◌+◌, ◌-◌, ◌≤◌, ◌≡◌, inl, inr, sym, ap, ◌∙◌, Bool-cases, Option-cases, ◌||◌, [], ◌∷◌,
  ◌++◌, Bytes, length, length-append, ltb, ◌==◌, arith,
}
use maelys_json.Types.{Profile, rfc8259, contract_ascii, rfc8259_last_wins}
use maelys_json.Utf8.Validate.{utf8_validate}
use maelys_json.Utf8.Literal.{
  escape, plain_run, Decoded, text, bad, stuck, decode_loop, decode_ascii, decode_string,
}
use maelys_json.Utf8.Literal.Escapes.{escape-IsWritten}
use maelys_json.Utf8.Literal.Rounds.{
  plain_run-append, plain_run_pos, loop_escape, loop_bad_escape, loop_run, loop_bad_run,
}

-- A text of at most `size` bytes, or an error.
abbrev pub Fits : ℕ → Decoded → Type 0
Fits size (text t) = length t ≤ size
Fits size (bad e offset) = Unit
Fits size stuck = ⊥

pub Fits-mono : (d : Decoded) {n m : ℕ} → n ≤ m → Fits n d → Fits m d
Fits-mono (text t) le h = omega arith
Fits-mono (bad x o) le h = tt
Fits-mono stuck le h = h

decode_loop-Fits :
    (fuel : ℕ) (bs : Bytes) (at : ℕ) (out : Bytes)
    → length bs ≤ fuel
    → Fits (length out + length bs) (decode_loop fuel bs at out)
decode_loop-Fits fuel [] at out le = unfold decode_loop in omega arith
decode_loop-Fits zero (b ∷ bs) at out le = absurd (omega arith)
decode_loop-Fits (suc fuel) (b ∷ bs) at out le = elim (Bool-cases (b == b'\\')) [
  | inl e ↦ elim (Option-cases (escape bs)) [
    | inl n ↦ rw (loop_bad_escape fuel b bs at out e n) tt
    | inr ((w, r), n) ↦
        let i = escape-IsWritten bs n in
        rw (loop_escape fuel b bs at out e n) (
          Fits-mono (decode_loop fuel r (at + 1 + (length bs - length r)) (out ++ w))
            (omega (arith, i.fits, length-append out w))
            (decode_loop-Fits fuel r (at + 1 + (length bs - length r)) (out ++ w)
              (omega (arith, i.left))))
  ]
  | inr e ↦
      let run = (plain_run (b ∷ bs)).0 in
      let rest = (plain_run (b ∷ bs)).1 in
      let whole : run ++ rest ≡ b ∷ bs = plain_run-append (b ∷ bs) in
      let size : length run + length rest ≡ suc (length bs) =
        sym (length-append run rest) ∙ ap length whole in
      elim (Bool-cases (utf8_validate run)) [
        | inl v ↦ rw (loop_run fuel b bs at out e v) (
            Fits-mono (decode_loop fuel rest (at + length run) (out ++ run))
              (omega (arith, size, length-append out run))
              (decode_loop-Fits fuel rest (at + length run) (out ++ run)
                (omega (arith, size, plain_run_pos b bs e))))
        | inr v ↦ rw (loop_bad_run fuel b bs at out e v) tt
      ]
]

ascii-Fits :
    (bs : Bytes) (at : ℕ) (out : Bytes) → Fits (length out + length bs) (decode_ascii bs at out)
unfolding decode_ascii
ascii-Fits [] at out = omega arith
ascii-Fits (b ∷ bs) at out = elim (Bool-cases (ltb b 0x20 || ltb 0x7e b || b == b'\\')) [
  | inl e ↦ rw e tt
  | inr e ↦ rw e (
      Fits-mono (decode_ascii bs (at + 1) (out ++ b ∷ []))
        (omega (arith, length-append out (b ∷ []))) (ascii-Fits bs (at + 1) (out ++ b ∷ [])))
]

-- Decoding any bytes ends, and a text is never longer than the literal.
pub decode_string-Fits :
    (profile : Profile) (bs : Bytes) → Fits (length bs) (decode_string profile bs)
unfolding decode_string
decode_string-Fits contract_ascii bs =
    Fits-mono (decode_ascii bs 0 []) (omega arith) (ascii-Fits bs 0 [])
decode_string-Fits rfc8259 bs =
    Fits-mono (decode_loop (length bs) bs 0 []) (omega arith)
      (decode_loop-Fits (length bs) bs 0 [] (omega arith))
decode_string-Fits rfc8259_last_wins bs =
    Fits-mono (decode_loop (length bs) bs 0 []) (omega arith)
      (decode_loop-Fits (length bs) bs 0 [] (omega arith))
