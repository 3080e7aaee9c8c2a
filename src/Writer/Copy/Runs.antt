-- ===== src/Writer/Copy/Runs.antt =====
-- A copied value is one value: `copy_value` of src/writer.c takes the step of a value, or stops
-- with the writer well formed.
use maelys_json.Base.{
  ℕ, zero, suc, ◌+◌, ◌≡◌, ◌⊎◌, inl, inr, refl, sym, subst, ◌∙◌, Bool, true, false, Option, none,
  some, Outcome, ok, err, ap,
}
use maelys_json.Document.{Document}
use maelys_json.Document.Access.{same_kind, object_member_at, array_get}
use maelys_json.Types.{Error, Kind, object, array}
use maelys_json.Writer.Calls.{container_begin, container_end, writer_key}
use maelys_json.Writer.Calls.Runs.{Done, Refused, container_begin-Runs, container_end-Runs}
use maelys_json.Writer.Calls.Values.{Answers, writer_key-Answers}
use maelys_json.Writer.Copy.{copy_members, copy_elements}
use maelys_json.Writer.State.{Writer, Act, chain, lift}
use maelys_json.Writer.State.Runs.{shape, IsValid, IsReady, Runs, Runs-chain, Runs-mono, Fails}
use maelys_json.Writer.State.Shape.{Shape, value_step, begin_step, end_step, key_step}
use maelys_json.Writer.State.Shape.Laws.{
  IsInside, begin-IsInside, member_lem, element_lem, container_lem,
}

-- A copy that stops: its error is recorded, or none is yet.
abbrev pub Stops : Error → Writer → Type 0
Stops e v = IsValid v × (v.finished ≡ false) × ((v.failure ≡ none) ⊎ (v.failure ≡ some e))

pub Fails-Stops : (R : Type 0) (e : Error) (v : Writer) → Fails R e v → Stops e v
Fails-Stops R e v (valid, open', failure, refused) = (valid, open', inr failure)

-- One value more.
abbrev pub Copies : Writer → Outcome Error (Unit {0}) × Writer → Type 0
Copies w r = Runs (Done value_step w) Stops r

-- The same for a step of another kind.
pub stopping :
    (step : Shape → Option Shape) (w : Writer) (r : Outcome Error (Unit {0}) × Writer)
    → Runs (Done step w) (Fails (Refused step w)) r
    → Runs (Done step w) Stops r
stopping step w r h =
    Runs-mono (Done step w) (Done step w) (Fails (Refused step w)) Stops r (λ u v d. d)
      (Fails-Stops (Refused step w)) h

pub stopping_answer :
    (step : Shape → Option Shape) (w : Writer) (r : Outcome Error (Unit {0}) × Writer)
    → IsValid w
    → IsReady w
    → Answers step w r
    → Runs (Done step w) Stops r
stopping_answer step w (ok u, v) valid ready h = h
stopping_answer step w (err e, v) valid ready (inr f) = Fails-Stops (Refused step w) e v f
stopping_answer step w (err e, v) valid ready (inl (e', same)) =
    subst (Stops e) (sym same) (valid, ready.0, inl ready.1)

-- A reader's result leaves the writer as it is.
pub lift-Runs :
    {A B : Type 0} (G : B → Writer → Type 0) (o : Outcome Error A) (f : A → Act B) (w : Writer)
    → IsValid w
    → IsReady w
    → ((a : A) → Runs G Stops (f a w))
    → Runs G Stops (chain (lift o w) f)
lift-Runs G (ok a) f w valid ready h = h a
lift-Runs G (err e) f w valid ready h = (valid, ready.0, inl ready.1)

-- The shape is as before.
abbrev pub Stays : Writer → Unit {0} → Writer → Type 0
Stays w u v = (shape v ≡ shape w) × IsValid v × IsReady v × (v.limits ≡ w.limits)

-- What the recursive call does.
abbrev pub IsCopy : (ℕ → Act (Unit {0})) → Type 0
IsCopy copy = (value : ℕ) (w : Writer) → IsValid w → IsReady w → Copies w (copy value w)

pub copy_members-Stays :
    (granted : ℕ → Bool) (copy : ℕ → Act (Unit {0})) (d : Document) (o i left : ℕ) (w : Writer)
    → IsCopy copy
    → IsValid w
    → IsReady w
    → IsInside object (shape w)
    → Runs (Stays w) Stops (copy_members granted copy d o i left w)
unfolding copy_members
copy_members-Stays granted copy d o i zero w c valid ready inside = (refl, valid, ready, refl)
copy_members-Stays granted copy d o i (suc left) w c valid ready inside =
    lift-Runs (Stays w) (object_member_at d o i) _ w valid ready (λ member.
      Runs-chain Stops (Done key_step w) (Stays w) (writer_key granted member.0 w) _
        (stopping_answer key_step w _ valid ready
          (writer_key-Answers granted member.0 w valid ready))
        (λ _ v keyed.
          Runs-chain Stops (Done value_step v) (Stays w) (copy member.1 v) _
            (c member.1 v keyed.1 keyed.2)
            (λ _ x valued.
              let same = member_lem (shape w) (shape v) (shape x) inside keyed.0 valued.0 in
              Runs-mono (Stays x) (Stays w) Stops Stops _
                (λ _ y s. (s.0 ∙ same, s.1, s.2, s.3 ∙ (valued.3 ∙ keyed.3))) (λ e y s. s)
                (copy_members-Stays granted copy d o (i + 1) left x c valued.1 valued.2
                  (subst (IsInside object) (sym same) inside)))))

pub copy_elements-Stays :
    (copy : ℕ → Act (Unit {0})) (d : Document) (a i left : ℕ) (w : Writer)
    → IsCopy copy
    → IsValid w
    → IsReady w
    → IsInside array (shape w)
    → Runs (Stays w) Stops (copy_elements copy d a i left w)
unfolding copy_elements
copy_elements-Stays copy d a i zero w c valid ready inside = (refl, valid, ready, refl)
copy_elements-Stays copy d a i (suc left) w c valid ready inside =
    lift-Runs (Stays w) (array_get d a i) _ w valid ready (λ element.
      Runs-chain Stops (Done value_step w) (Stays w) (copy element w) _ (c element w valid ready)
        (λ _ x valued.
          let same = element_lem (shape w) (shape x) inside valued.0 in
          Runs-mono (Stays x) (Stays w) Stops Stops _
            (λ _ y s. (s.0 ∙ same, s.1, s.2, s.3 ∙ valued.3)) (λ e y s. s)
            (copy_elements-Stays copy d a (i + 1) left x c valued.1 valued.2
              (subst (IsInside array) (sym same) inside))))

-- A container around a loop that leaves the shape as it is.
pub container-Copies :
    (granted : ℕ → Bool) (kind : Kind) (loop : Act (Unit {0})) (w : Writer)
    → same_kind kind kind ≡ true
    → ((v : Writer)
        → IsValid v
        → IsReady v
        → IsInside kind (shape v)
        → Runs (Stays v) Stops (loop v))
    → IsValid w
    → IsReady w
    → Copies w
        (chain (container_begin granted kind w) (λ _ v. chain (loop v) (λ _. container_end kind)))
container-Copies granted kind loop w kind' body valid ready =
    Runs-chain Stops (Done (begin_step kind) w) (Done value_step w) (container_begin granted kind w)
      _ (stopping (begin_step kind) w _ (container_begin-Runs granted kind w valid ready))
      (λ _ v begun.
        Runs-chain Stops (Stays v) (Done value_step w) (loop v) _
          (body v begun.1 begun.2 (begin-IsInside kind (shape w) (shape v) kind' begun.0))
          (λ _ x stays.
            Runs-mono (Done (end_step kind) x) (Done value_step w) Stops Stops
              (container_end kind x)
              (λ _ y ended. (
                container_lem kind (shape w) (shape x) (shape y) (begun.0 ∙ ap some (sym stays.0))
                    ended.0,
                ended.1,
                ended.2,
                ended.3 ∙ (stays.3 ∙ begun.3),
              ))
              (λ e y s. s)
              (stopping (end_step kind) x _ (container_end-Runs kind x stays.1 stays.2))))
