-- ===== src/Writer/History/Sound.antt =====
-- What one call of src/writer.c does to a writer that is ready, and to one that is not.
use maelys_json.Base.{
  ℕ, ◌≤◌, ◌≡◌, ◌⊎◌, inl, inr, refl, sym, ap, ◌∙◌, Bool, true, false, Option, none, some, Bytes,
  Outcome, ok, err, if◌then◌else◌, arith, subst,
}
use maelys_json.Types.{Error, argument, Kind, Limits, size_max, maximum_number_text}
use maelys_json.Writer.Calls.{
  writer_number_text, writer_u64, writer_i64, writer_boolean, writer_null,
}
use maelys_json.Writer.Calls.Runs.{Done, Refused, container_begin-Runs, container_end-Runs}
use maelys_json.Writer.Calls.Values.{
  Rejects, writer_key-Answers, writer_string-Answers, write_number_lexeme-Answers,
  attach_scalar-Runs,
}
use maelys_json.Writer.Copy.Values.{Spoils, writer_value-Copies}
use maelys_json.Writer.Copy.Except.{object_begin_except-Begins}
use maelys_json.Writer.Finish.{is_complete, Closes, Records, writer_finish-Closes}
use maelys_json.Writer.History.{Call, Answer, done, text, error, answer, text_answer, perform}
use maelys_json.Writer.State.{Writer, is_some}
use maelys_json.Writer.State.Runs.{shape, IsValid, IsReady, Runs, Fails}
use maelys_json.Writer.State.Shape.{Shape, value_step, begin_step, end_step, key_step}

-- Building, or closed by `finish`.
pub data Phase : Type 0 where
  building : Shape → Phase
  closed : Phase

abbrev pub phase : Writer → Phase
phase w = if w.finished then closed else building (shape w)

abbrev resume : Option Shape → Option Phase
resume none = none
resume (some s) = some (building s)

-- The state machine of a writer: which call is in order, and what comes of it.
unfoldable pub next_phase : Call → Phase → Option Phase
next_phase c closed = none
next_phase Call.object_begin (building s) = resume (begin_step Kind.object s)
next_phase Call.object_end (building s) = resume (end_step Kind.object s)
next_phase Call.array_begin (building s) = resume (begin_step Kind.array s)
next_phase Call.array_end (building s) = resume (end_step Kind.array s)
next_phase (Call.key bytes) (building s) = resume (key_step s)
next_phase (Call.string bytes) (building s) = resume (value_step s)
next_phase (Call.number_text lexeme) (building s) = resume (value_step s)
next_phase (Call.u64 n) (building s) = resume (value_step s)
next_phase (Call.i64 n) (building s) = resume (value_step s)
next_phase (Call.boolean enabled) (building s) = resume (value_step s)
next_phase Call.null (building s) = resume (value_step s)
next_phase (Call.value d index) (building s) = resume (value_step s)
next_phase (Call.object_begin_except d o excluded) (building s) = resume (begin_step Kind.object s)
next_phase Call.finish (building s) = if is_complete s then some closed else none

abbrev pub IsOpen : Writer → Type 0
IsOpen w = IsReady w × (w.limits.maximum_bytes ≤ size_max)

abbrev pub IsFailed : Writer → Type 0
IsFailed w = (w.finished ≡ false) × (is_some w.failure ≡ true)

abbrev pub IsClosed : Writer → Type 0
IsClosed w = (w.finished ≡ true) × (w.failure ≡ none)

-- Well formed, and open, failed or closed.
abbrev pub IsSound : Writer → Type 0
IsSound w = IsValid w × (IsOpen w ⊎ (IsFailed w ⊎ IsClosed w))

abbrev pub Succeeds : Call → Writer → Writer → Type 0
Succeeds c w v = (next_phase c (phase w) ≡ some (phase v)) × IsSound v

abbrev pub Errs : Writer → Error → Writer → Type 0
Errs w e v = ((e ≡ argument) × (v ≡ w)) ⊎ (IsValid v × IsFailed v)

-- A call that succeeds takes the step of the machine. One that fails changes nothing, or leaves an
-- error that is recorded.
abbrev pub Lawful : Call → Writer → Answer × Writer → Type 0
Lawful c w (done, v) = Succeeds c w v
Lawful c w (text bytes, v) = Succeeds c w v
Lawful c w (error e, v) = Errs w e v

phase_open : (w : Writer) → w.finished ≡ false → phase w ≡ building (shape w)
phase_open w e = rw e refl

Fails-Errs : (w : Writer) (R : Type 0) (e : Error) (v : Writer) → Fails R e v → Errs w e v
Fails-Errs w R e v (valid, open', failure, refused) = inr (valid, (open', ap is_some failure))

Spoils-Errs :
    (w : Writer) (e : Error) (v : Writer) → ((e ≡ argument) × (v ≡ w)) ⊎ Spoils e v → Errs w e v
Spoils-Errs w e v (inl h) = inl h
Spoils-Errs w e v (inr (valid, open', inl failure)) = inr (valid, (open', ap is_some failure))
Spoils-Errs w e v (inr (valid, open', inr (arg, failure))) =
    inr (valid, (open', ap is_some failure))

Rejects-Errs :
    (step : Shape → Option Shape) (w : Writer) (e : Error) (v : Writer)
    → Rejects step w e v
    → Errs w e v
Rejects-Errs step w e v (inl h) = inl h
Rejects-Errs step w e v (inr h) = Fails-Errs w (Refused step w) e v h

module _ (c : Call) (step : Shape → Option Shape) (w : Writer) (o : IsOpen w) where
  step-Lawful :
      (F : Error → Writer → Type 0) (r : Outcome Error (Unit {0}) × Writer)
      → next_phase c (building (shape w)) ≡ resume (step (shape w))
      → ((e : Error) (v : Writer) → F e v → Errs w e v)
      → Runs (Done step w) F r
      → Lawful c w (answer r)
  step-Lawful F (err e, v) same f h = f e v h
  step-Lawful F (ok u, v) same f (taken, valid, ready, limits) = (
    ap (next_phase c) (phase_open w o.0.0)
        ∙ (same ∙ (ap resume taken ∙ ap some (sym (phase_open v ready.0)))),
    (valid, inl (ready, omega (arith, o.1, ap (λ (l : Limits). l.maximum_bytes) limits))),
  )

finish-Lawful :
    (w : Writer) (r : Outcome Error Bytes × Writer)
    → IsValid w
    → IsOpen w
    → Runs (Closes w) (Records w) r
    → Lawful Call.finish w (text_answer r)
unfolding next_phase
finish-Lawful w (ok bytes, v) valid o (complete, closes) = (
  ap (next_phase Call.finish) (phase_open w o.0.0)
      ∙ (rw complete refl ∙ ap some (sym (ap phase closes))),
  subst IsSound (sym closes) (valid, inr (inr (refl, o.0.1))),
)
finish-Lawful w (err e, v) valid o fails =
    inr (subst (λ u. IsValid u × IsFailed u) (sym fails) (valid, (o.0.0, refl)))

pub perform-Lawful :
    (granted : ℕ → Bool) (c : Call) (w : Writer)
    → IsValid w
    → IsOpen w
    → Lawful c w (perform granted c w)
unfolding perform next_phase writer_number_text writer_u64 writer_i64 writer_boolean writer_null
perform-Lawful granted Call.object_begin w valid o =
    step-Lawful Call.object_begin (begin_step Kind.object) w o _ _ refl (Fails-Errs w _)
      (container_begin-Runs granted Kind.object w valid o.0)
perform-Lawful granted Call.object_end w valid o =
    step-Lawful Call.object_end (end_step Kind.object) w o _ _ refl (Fails-Errs w _)
      (container_end-Runs Kind.object w valid o.0)
perform-Lawful granted Call.array_begin w valid o =
    step-Lawful Call.array_begin (begin_step Kind.array) w o _ _ refl (Fails-Errs w _)
      (container_begin-Runs granted Kind.array w valid o.0)
perform-Lawful granted Call.array_end w valid o =
    step-Lawful Call.array_end (end_step Kind.array) w o _ _ refl (Fails-Errs w _)
      (container_end-Runs Kind.array w valid o.0)
perform-Lawful granted (Call.key bytes) w valid o =
    step-Lawful (Call.key bytes) key_step w o _ _ refl (Rejects-Errs key_step w)
      (writer_key-Answers granted bytes w valid o.0)
perform-Lawful granted (Call.string bytes) w valid o =
    step-Lawful (Call.string bytes) value_step w o _ _ refl (Rejects-Errs value_step w)
      (writer_string-Answers granted bytes w valid o.0)
perform-Lawful granted (Call.number_text lexeme) w valid o =
    step-Lawful (Call.number_text lexeme) value_step w o _ _ refl (Rejects-Errs value_step w)
      (write_number_lexeme-Answers granted lexeme maximum_number_text w valid o.0)
perform-Lawful granted (Call.u64 n) w valid o =
    step-Lawful (Call.u64 n) value_step w o _ _ refl (Fails-Errs w _)
      (attach_scalar-Runs granted Kind.number _ w (λ m. refl) valid o.0)
perform-Lawful granted (Call.i64 n) w valid o =
    step-Lawful (Call.i64 n) value_step w o _ _ refl (Fails-Errs w _)
      (attach_scalar-Runs granted Kind.number _ w (λ m. refl) valid o.0)
perform-Lawful granted (Call.boolean enabled) w valid o =
    step-Lawful (Call.boolean enabled) value_step w o _ _ refl (Fails-Errs w _)
      (attach_scalar-Runs granted Kind.boolean _ w (λ m. refl) valid o.0)
perform-Lawful granted Call.null w valid o =
    step-Lawful Call.null value_step w o _ _ refl (Fails-Errs w _)
      (attach_scalar-Runs granted Kind.null _ w (λ m. refl) valid o.0)
perform-Lawful granted (Call.value d index) w valid o =
    step-Lawful (Call.value d index) value_step w o _ _ refl (Spoils-Errs w)
      (writer_value-Copies granted d index w valid o.0)
perform-Lawful granted (Call.object_begin_except d index excluded) w valid o =
    step-Lawful (Call.object_begin_except d index excluded) (begin_step Kind.object) w o _ _ refl
      (Spoils-Errs w) (object_begin_except-Begins granted d index excluded w valid o.0)
perform-Lawful granted Call.finish w valid o =
    finish-Lawful w _ valid o (writer_finish-Closes granted w o.0)
