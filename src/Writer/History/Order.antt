-- ===== src/Writer/History/Order.antt =====
-- A list of calls on a writer of src/writer.c, from its creation on.
use maelys_json.Base.{
  ℕ, ◌≡◌, ◌⊎◌, inl, inr, refl, sym, Bool, true, false, not, ◌||◌, length, Outcome, err,
  if◌then◌else◌, ltb, subst,
}
use maelys_json.Common.Number.{number_syntax}
use maelys_json.Document.Access.{value_type, same_kind}
use maelys_json.Types.{Error, state, argument, none_kind, object, maximum_number_text}
use maelys_json.Writer.Calls.{
  container_begin, container_end, writer_key, write_text, writer_string, write_number_lexeme,
  writer_number_text, attach_scalar, writer_u64, writer_i64, writer_boolean, writer_null,
}
use maelys_json.Writer.Copy.{writer_value, writer_object_begin_except}
use maelys_json.Writer.Finish.{writer_finish}
use maelys_json.Writer.History.{Call, Answer, done, text, error, answer, text_answer, perform}
use maelys_json.Writer.State.{Writer, Act, chain, writer_ready, is_some, valid_text}

-- The writer is failed or closed.
abbrev pub IsEnded : Writer → Type 0
IsEnded w = w.finished || is_some w.failure ≡ true

-- Refused with STATE or ARGUMENT, and nothing changes.
abbrev pub IsRefused : Writer → Answer × Writer → Type 0
IsRefused w (done, v) = ⊥
IsRefused w (text bytes, v) = ⊥
IsRefused w (error e, v) = ((e ≡ state) ⊎ (e ≡ argument)) × (v ≡ w)

ended_chain :
    {A : Type 0} (f : Unit {0} → Act A) (w : Writer)
    → IsEnded w
    → chain (writer_ready w) f ≡ (err state, w)
unfolding writer_ready
ended_chain f w h = rw h refl

state_refusal :
    (w : Writer) (r : Outcome Error (Unit {0}) × Writer)
    → r ≡ (err state, w)
    → IsRefused w (answer r)
state_refusal w r e = subst (λ x. IsRefused w (answer x)) (sym e) (inl refl, refl)

-- An argument is tested first.
if_refusal :
    (b : Bool) (w : Writer) (r : Outcome Error (Unit {0}) × Writer)
    → r ≡ (err state, w)
    → IsRefused w (answer (if b then r else (err argument, w)))
if_refusal true w r e = state_refusal w r e
if_refusal false w r e = (inr refl, refl)

unless_refusal :
    (b : Bool) (w : Writer) (r : Outcome Error (Unit {0}) × Writer)
    → r ≡ (err state, w)
    → IsRefused w (answer (if b then (err argument, w) else r))
unless_refusal true w r e = (inr refl, refl)
unless_refusal false w r e = state_refusal w r e

pub perform-IsRefused :
    (granted : ℕ → Bool) (c : Call) (w : Writer) → IsEnded w → IsRefused w (perform granted c w)
unfolding perform container_begin container_end writer_key write_text writer_string
    write_number_lexeme writer_number_text attach_scalar writer_u64 writer_i64 writer_boolean
    writer_null writer_value writer_object_begin_except writer_finish
perform-IsRefused granted Call.object_begin w h = state_refusal w _ (ended_chain _ w h)
perform-IsRefused granted Call.object_end w h = state_refusal w _ (ended_chain _ w h)
perform-IsRefused granted Call.array_begin w h = state_refusal w _ (ended_chain _ w h)
perform-IsRefused granted Call.array_end w h = state_refusal w _ (ended_chain _ w h)
perform-IsRefused granted (Call.key bytes) w h =
    if_refusal (valid_text w.profile bytes) w _ (ended_chain _ w h)
perform-IsRefused granted (Call.string bytes) w h =
    if_refusal (valid_text w.profile bytes) w _ (ended_chain _ w h)
perform-IsRefused granted (Call.number_text lexeme) w h =
    unless_refusal (ltb maximum_number_text (length lexeme) || not (number_syntax lexeme)) w _
      (ended_chain _ w h)
perform-IsRefused granted (Call.u64 n) w h = state_refusal w _ (ended_chain _ w h)
perform-IsRefused granted (Call.i64 n) w h = state_refusal w _ (ended_chain _ w h)
perform-IsRefused granted (Call.boolean enabled) w h = state_refusal w _ (ended_chain _ w h)
perform-IsRefused granted Call.null w h = state_refusal w _ (ended_chain _ w h)
perform-IsRefused granted (Call.value d index) w h =
    unless_refusal (same_kind (value_type d index) none_kind) w _ (ended_chain _ w h)
perform-IsRefused granted (Call.object_begin_except d o excluded) w h =
    if_refusal (same_kind (value_type d o) object) w _ (ended_chain _ w h)
perform-IsRefused granted Call.finish w h =
    subst (λ x. IsRefused w (text_answer x)) (sym (ended_chain _ w h)) (inl refl, refl)
