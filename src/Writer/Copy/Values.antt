-- ===== src/Writer/Copy/Values.antt =====
-- `copy_value`, `maelys_json_writer_value` and the errors that they record.
use maelys_json.Base.{
  ℕ, zero, suc, ◌≡◌, ◌⊎◌, inl, inr, refl, Bool, false, Option, none, some, Outcome, ok, err,
}
use maelys_json.Document.{Document}
use maelys_json.Document.Access.{
  value_type, same_kind, object_size, array_size, value_string, value_number_text, value_boolean,
}
use maelys_json.Document.Integers.{value_u64, value_i64}
use maelys_json.Types.{
  Error, argument, memory, limit, syntax, utf8, duplicate_key, type, range, state, not_found,
  not_integer, io, Kind, none_kind, object, array, string, number, boolean, null,
}
use maelys_json.Writer.Calls.{writer_u64, writer_i64, writer_boolean, writer_null}
use maelys_json.Writer.Calls.Runs.{Done, ready-Runs}
use maelys_json.Writer.Calls.Values.{
  writer_string-Answers, write_number_lexeme-Answers, attach_scalar-Runs,
}
use maelys_json.Writer.Copy.{
  integer_or, is_negative, copy_number, copy_object, copy_array, copy_members, copy_elements,
  copy_kind, copy_value, copy_failed, copied, copy_fuel, writer_value,
}
use maelys_json.Writer.Copy.Runs.{
  Stops, Copies, IsCopy, stopping, stopping_answer, lift-Runs, container-Copies, copy_members-Stays,
  copy_elements-Stays,
}
use maelys_json.Writer.State.{Writer, Act, writer_fail, record_failure}
use maelys_json.Writer.State.Runs.{IsValid, IsReady, Runs, Runs-if, Runs-mono}
use maelys_json.Writer.State.Shape.{value_step}

integer_or-Copies :
    {A : Type 0} (o : Outcome Error A) (write : A → Act (Unit {0})) (other : Act (Unit {0}))
    (w : Writer)
    → IsValid w
    → IsReady w
    → ((a : A) → Copies w (write a w))
    → Copies w (other w)
    → Copies w (integer_or o write other w)
unfolding integer_or
integer_or-Copies (ok a) write other w valid ready h k = h a
integer_or-Copies (err not_integer) write other w valid ready h k = k
integer_or-Copies (err argument) write other w valid ready h k = (valid, ready.0, inl ready.1)
integer_or-Copies (err memory) write other w valid ready h k = (valid, ready.0, inl ready.1)
integer_or-Copies (err limit) write other w valid ready h k = (valid, ready.0, inl ready.1)
integer_or-Copies (err syntax) write other w valid ready h k = (valid, ready.0, inl ready.1)
integer_or-Copies (err utf8) write other w valid ready h k = (valid, ready.0, inl ready.1)
integer_or-Copies (err duplicate_key) write other w valid ready h k = (valid, ready.0, inl ready.1)
integer_or-Copies (err type) write other w valid ready h k = (valid, ready.0, inl ready.1)
integer_or-Copies (err range) write other w valid ready h k = (valid, ready.0, inl ready.1)
integer_or-Copies (err state) write other w valid ready h k = (valid, ready.0, inl ready.1)
integer_or-Copies (err not_found) write other w valid ready h k = (valid, ready.0, inl ready.1)
integer_or-Copies (err io) write other w valid ready h k = (valid, ready.0, inl ready.1)

copy_number-Copies :
    (granted : ℕ → Bool) (d : Document) (value : ℕ) (w : Writer)
    → IsValid w
    → IsReady w
    → Copies w (copy_number granted d value w)
unfolding copy_number writer_i64 writer_u64
copy_number-Copies granted d value w valid ready =
    lift-Runs (Done value_step w) (value_number_text d value) _ w valid ready (λ text.
      let lexeme =
        stopping_answer value_step w _ valid ready
          (write_number_lexeme-Answers granted text w.limits.maximum_bytes w valid ready) in
      Runs-if Stops (Done value_step w) (is_negative text) _ _
        (λ _.
          integer_or-Copies (value_i64 d value) (writer_i64 granted) _ w valid ready
            (λ n.
              stopping value_step w _
                (attach_scalar-Runs granted number _ w (λ m. refl) valid ready))
            lexeme)
        (λ _.
          integer_or-Copies (value_u64 d value) (writer_u64 granted) _ w valid ready
            (λ n.
              stopping value_step w _
                (attach_scalar-Runs granted number _ w (λ m. refl) valid ready))
            lexeme))

copy_kind-Copies :
    (granted : ℕ → Bool) (copy : ℕ → Act (Unit {0})) (d : Document) (value : ℕ) (kind : Kind)
    → IsCopy copy
    → (w : Writer) → IsValid w
    → IsReady w
    → Copies w (copy_kind granted copy d value kind w)
unfolding copy_kind copy_object copy_array writer_boolean writer_null
copy_kind-Copies granted copy d value object c w valid ready =
    lift-Runs (Done value_step w) (object_size d value) _ w valid ready (λ count.
      container-Copies granted object (copy_members granted copy d value 0 count) w refl
        (λ v valid' ready' inside.
          copy_members-Stays granted copy d value 0 count v c valid' ready' inside)
        valid ready)
copy_kind-Copies granted copy d value array c w valid ready =
    lift-Runs (Done value_step w) (array_size d value) _ w valid ready (λ count.
      container-Copies granted array (copy_elements copy d value 0 count) w refl
        (λ v valid' ready' inside.
          copy_elements-Stays copy d value 0 count v c valid' ready' inside)
        valid ready)
copy_kind-Copies granted copy d value string c w valid ready =
    lift-Runs (Done value_step w) (value_string d value) _ w valid ready (λ text.
      stopping_answer value_step w _ valid ready (writer_string-Answers granted text w valid ready))
copy_kind-Copies granted copy d value number c w valid ready =
    copy_number-Copies granted d value w valid ready
copy_kind-Copies granted copy d value boolean c w valid ready =
    lift-Runs (Done value_step w) (value_boolean d value) _ w valid ready (λ enabled.
      stopping value_step w _ (attach_scalar-Runs granted boolean _ w (λ m. refl) valid ready))
copy_kind-Copies granted copy d value null c w valid ready =
    stopping value_step w _ (attach_scalar-Runs granted null _ w (λ m. refl) valid ready)
copy_kind-Copies granted copy d value none_kind c w valid ready = (valid, ready.0, inl ready.1)

pub copy_value-IsCopy :
    (fuel : ℕ) (granted : ℕ → Bool) (d : Document) → IsCopy (copy_value fuel granted d)
unfolding copy_value
copy_value-IsCopy zero granted d value w valid ready = (valid, ready.0, inl ready.1)
copy_value-IsCopy (suc fuel) granted d value w valid ready =
    copy_kind-Copies granted (copy_value fuel granted d) d value (value_type d value)
      (copy_value-IsCopy fuel granted d) w valid ready

-- What an error of a copy leaves: ARGUMENT is recorded as STATE, any other error as itself.
abbrev pub Spoils : Error → Writer → Type 0
Spoils e v =
    IsValid v
    × (v.finished ≡ false)
    × ((v.failure ≡ some e) ⊎ ((e ≡ argument) × (v.failure ≡ some state)))

recorded : (e : Error) (f : Option Error) → (f ≡ none) ⊎ (f ≡ some e) → record_failure e f ≡ some e
unfolding record_failure
recorded e none h = refl
recorded e (some x) (inl h) = cc
recorded e (some x) (inr h) = h

recorded_state :
    (f : Option Error)
    → (f ≡ none) ⊎ (f ≡ some argument)
    → (record_failure state f ≡ some argument) ⊎ (record_failure state f ≡ some state)
unfolding record_failure
recorded_state none h = inr refl
recorded_state (some x) (inl h) = cc
recorded_state (some x) (inr h) = inl h

copy_failed-Spoils : (e : Error) (v : Writer) → Stops e v → Runs (λ u x. ⊥) Spoils (copy_failed e v)
unfolding copy_failed writer_fail
copy_failed-Spoils argument v (valid, open', h) = elim (recorded_state v.failure h) [
  | inl same ↦ (valid, open', inl same)
  | inr same ↦ (valid, open', inr (refl, same))
]
copy_failed-Spoils e v (valid, open', h) = (valid, open', inl (recorded e v.failure h))

pub copied-Spoils :
    (G : Unit {0} → Writer → Type 0) (r : Outcome Error (Unit {0}) × Writer)
    → Runs G Stops r
    → Runs G Spoils (copied r)
unfolding copied
copied-Spoils G (ok u, v) h = h
copied-Spoils G (err e, v) h =
    Runs-mono (λ u x. ⊥) G Spoils Spoils (copy_failed e v) (λ u x f. absurd f) (λ x y s. s)
      (copy_failed-Spoils e v h)

-- Writing a value of any document on a ready writer: on success the shape takes one value, however
-- deep the copy is; a value that does not exist changes nothing; any other error is recorded.
pub writer_value-Copies :
    (granted : ℕ → Bool) (d : Document) (value : ℕ) (w : Writer)
    → IsValid w
    → IsReady w
    → Runs
        (Done value_step w)
        (λ e v. ((e ≡ argument) × (v ≡ w)) ⊎ Spoils e v)
        (writer_value granted d value w)
unfolding writer_value
writer_value-Copies granted d value w valid ready =
    let G = Done value_step w in
    let F = λ (e : Error) (v : Writer). ((e ≡ argument) × (v ≡ w)) ⊎ Spoils e v in
    Runs-if F G (same_kind (value_type d value) none_kind) _ _ (λ _. inl (refl, refl))
      (λ _.
        Runs-mono G G Spoils F _ (λ u v h. h) (λ e v h. inr h)
          (ready-Runs G Spoils _ w ready (
            copied-Spoils G (copy_value (copy_fuel d) granted d value w)
              (copy_value-IsCopy (copy_fuel d) granted d value w valid ready))))
