-- ===== src/Writer/Copy/Except.antt =====
-- `maelys_json_writer_object_begin_except` of src/writer.c: what the loop over the members leaves.
use maelys_json.Base.{
  ℕ, zero, suc, ◌+◌, ◌≡◌, ◌⊎◌, inl, inr, refl, sym, subst, ◌∙◌, Bool, true, false, List, some,
  Bytes, if◌then◌else◌, ap,
}
use maelys_json.Document.{Document}
use maelys_json.Document.Access.{value_type, same_kind, object_size, object_member_at}
use maelys_json.Types.{Error, argument, object}
use maelys_json.Writer.Calls.{container_begin, writer_key}
use maelys_json.Writer.Calls.Runs.{Done, Refused, ready-Runs, container_begin-Runs}
use maelys_json.Writer.Calls.Values.{writer_key-Answers}
use maelys_json.Writer.Copy.{
  copy_value, copy_fuel, key_excluded, copy_others, writer_object_begin_except,
}
use maelys_json.Writer.Copy.Runs.{Stops, Stays, stopping_answer, lift-Runs}
use maelys_json.Writer.Copy.Values.{copy_value-IsCopy, Spoils, copied-Spoils}
use maelys_json.Writer.State.{Writer, Act, ◌>>◌, done}
use maelys_json.Writer.State.Runs.{
  shape, IsValid, IsReady, Runs, Runs-chain, Runs-if, Runs-mono, Fails,
}
use maelys_json.Writer.State.Shape.{value_step, begin_step, key_step}
use maelys_json.Writer.State.Shape.Laws.{IsInside, begin-IsInside, member_lem}

branch-Runs :
    {A : Type 0} (G : A → Writer → Type 0) (F : Error → Writer → Type 0) (b : Bool) (m m' : Act A)
    (w : Writer)
    → Runs G F (m w)
    → Runs G F (m' w)
    → Runs G F ((if b then m else m') w)
branch-Runs G F true m m' w h k = h
branch-Runs G F false m m' w h k = k

-- A key and a copied value inside an object.
member-Stays :
    (granted : ℕ → Bool) (d : Document) (key : Bytes) (member : ℕ) (w : Writer)
    → IsValid w
    → IsReady w
    → IsInside object (shape w)
    → Runs (Stays w) Stops ((writer_key granted key >> copy_value (copy_fuel d) granted d member) w)
member-Stays granted d key member w valid ready inside =
    Runs-chain Stops (Done key_step w) (Stays w) (writer_key granted key w) _
      (stopping_answer key_step w _ valid ready (writer_key-Answers granted key w valid ready))
      (λ _ v keyed.
        Runs-mono (Done value_step v) (Stays w) Stops Stops
          (copy_value (copy_fuel d) granted d member v)
          (λ _ x valued. (
            member_lem (shape w) (shape v) (shape x) inside keyed.0 valued.0,
            valued.1,
            valued.2,
            valued.3 ∙ keyed.3,
          ))
          (λ e y s. s) (copy_value-IsCopy (copy_fuel d) granted d member v keyed.1 keyed.2))

copy_others-Stays :
    (granted : ℕ → Bool) (d : Document) (o : ℕ) (excluded : List Bytes) (i left : ℕ) (w : Writer)
    → IsValid w
    → IsReady w
    → IsInside object (shape w)
    → Runs (Stays w) Stops (copy_others granted d o excluded i left w)
unfolding copy_others
copy_others-Stays granted d o excluded i zero w valid ready inside = (refl, valid, ready, refl)
copy_others-Stays granted d o excluded i (suc left) w valid ready inside =
    lift-Runs (Stays w) (object_member_at d o i) _ w valid ready (λ member.
      Runs-chain Stops (Stays w) (Stays w) _ _
        (branch-Runs (Stays w) Stops (key_excluded member.0 excluded) (done tt)
          (writer_key granted member.0 >> copy_value (copy_fuel d) granted d member.1) w
          (refl, valid, ready, refl)
          (member-Stays granted d member.0 member.1 w valid ready inside))
        (λ _ x stays.
          Runs-mono (Stays x) (Stays w) Stops Stops _
            (λ _ y s. (s.0 ∙ stays.0, s.1, s.2, s.3 ∙ stays.3)) (λ e y s. s)
            (copy_others-Stays granted d o excluded (i + 1) left x stays.1 stays.2
              (subst (IsInside object) (sym stays.0) inside))))

-- The object is begun and stays the current container, with no key pending; or the value is no
-- object and nothing changes; or an error is recorded.
pub object_begin_except-Begins :
    (granted : ℕ → Bool) (d : Document) (o : ℕ) (excluded : List Bytes) (w : Writer)
    → IsValid w
    → IsReady w
    → Runs
        (Done (begin_step object) w)
        (λ e v. ((e ≡ argument) × (v ≡ w)) ⊎ Spoils e v)
        (writer_object_begin_except granted d o excluded w)
unfolding writer_object_begin_except
object_begin_except-Begins granted d o excluded w valid ready =
    let step = begin_step object in
    let G = Done step w in
    let F = λ (e : Error) (v : Writer). ((e ≡ argument) × (v ≡ w)) ⊎ Spoils e v in
    Runs-if F G (same_kind (value_type d o) object) _ _
      (λ _.
        Runs-mono G G Spoils F _ (λ u v h. h) (λ e v h. inr h)
          (ready-Runs G Spoils _ w ready (
            Runs-chain Spoils (Done step w) G (container_begin granted object w) _
              (Runs-mono (Done step w) (Done step w) (Fails (Refused step w)) Spoils _ (λ u v h. h)
                (λ e v f. (f.0, f.1, inl f.2)) (container_begin-Runs granted object w valid ready))
              (λ _ v begun. copied-Spoils G _ (
                lift-Runs G (object_size d o) _ v begun.1 begun.2 (λ count.
                  Runs-mono (Stays v) G Stops Stops _
                    (λ _ x s. (begun.0 ∙ ap some (sym s.0), s.1, s.2, s.3 ∙ begun.3)) (λ e y s. s)
                    (copy_others-Stays granted d o excluded 0 count v begun.1 begun.2
                      (begin-IsInside object (shape w) (shape v) refl begun.0))))))))
      (λ _. inl (refl, refl))
