-- ===== src/Writer/Calls/Numbers.antt =====
-- Which lexemes `write_number_lexeme` of src/writer.c takes.
use maelys_json.Base.{
  ℕ, ◌≤◌, ◌≡◌, ◌⊎◌, inl, inr, refl, Bool, true, not, ◌||◌, Bytes, length, arith, ltb, Outcome, err,
  Bool-cases,
}
use maelys_json.Common.Number.{number_syntax}
use maelys_json.Common.Number.Grammar.{IsNumber, number_syntax_iff}
use maelys_json.Types.{Error, argument, number}
use maelys_json.Writer.Calls.{write_number_lexeme}
use maelys_json.Writer.Calls.Runs.{Done, Refused}
use maelys_json.Writer.Calls.Values.{write_text-Runs}
use maelys_json.Writer.State.{Writer}
use maelys_json.Writer.State.Runs.{IsValid, IsReady, Runs, Fails}
use maelys_json.Writer.State.Shape.{value_step}

-- A number of the grammar, no longer than the bound.
abbrev pub IsLexeme : Bytes → ℕ → Type 0
IsLexeme lexeme maximum = IsNumber lexeme × (length lexeme ≤ maximum)

-- A lexeme is written as a value; anything else is refused, and nothing changes.
abbrev pub Decides : Bytes → ℕ → Writer → Outcome Error (Unit {0}) × Writer → Type 0
Decides lexeme maximum w r =
    (IsLexeme lexeme maximum × Runs (Done value_step w) (Fails (Refused value_step w)) r)
    ⊎ ((¬ IsLexeme lexeme maximum) × (r ≡ (err argument, w)))

-- On a well-formed ready writer, ARGUMENT with no change for exactly what is no number of the grammar or is too
-- long; otherwise the step of a value, or an error that is recorded and is STATE only where a value
-- is out of order.
pub write_number_lexeme-Decides :
    (granted : ℕ → Bool) (lexeme : Bytes) (maximum : ℕ) (w : Writer)
    → IsValid w
    → IsReady w
    → Decides lexeme maximum w (write_number_lexeme granted lexeme maximum w)
unfolding write_number_lexeme
write_number_lexeme-Decides granted lexeme maximum w valid ready =
    elim (Bool-cases (number_syntax lexeme)) [
      | inr e ↦
          let no_number : ¬ IsLexeme lexeme maximum =
            λ p. cc (e, (number_syntax_iff lexeme).1 p.0) in
          let refused : (ltb maximum (length lexeme) || not (number_syntax lexeme)) ≡ true =
            ground (arith, e) in
          rw refused (inr (no_number, refl))
      | inl e ↦ elim (Bool-cases (ltb maximum (length lexeme))) [
        | inl long ↦
            let too_long : ¬ IsLexeme lexeme maximum = λ p. ground (arith, long, p.1) in
            rw long (inr (too_long, refl))
        | inr short ↦
            let fits : length lexeme ≤ maximum = ground arith in
            rw (short, e)
              (inl (
                ((number_syntax_iff lexeme).0 e, fits),
                write_text-Runs granted number lexeme w valid ready,
              ))
      ]
    ]
