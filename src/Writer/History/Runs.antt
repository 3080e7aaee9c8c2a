-- ===== src/Writer/History/Runs.antt =====
-- A list of calls on a writer of src/writer.c, from its creation on.
use maelys_json.Base.{
  ℕ, ◌≡◌, ◌⊎◌, inl, inr, refl, sym, ◌∙◌, Bool, true, false, not, ◌&&◌, List, [], ◌∷◌, Option, none,
  some, Outcome, ok, err, arith, All, subst,
}
use maelys_json.Common.Limits.{limits_resolve, limits_resolve-IsResolved}
use maelys_json.Keyset.{Keyset, keyset_init}
use maelys_json.Types.{Error, Profile, Limits}
use maelys_json.Writer.Calls.{initial_keys, new_writer, create_with, writer_create}
use maelys_json.Writer.History.{Call, Answer, done, text, error, perform, run}
use maelys_json.Writer.History.Order.{IsEnded, IsRefused, perform-IsRefused}
use maelys_json.Writer.History.Sound.{
  Phase, building, phase, next_phase, IsFailed, IsClosed, IsSound, Errs, Lawful, perform-Lawful,
}
use maelys_json.Writer.State.{Flags, Writer}

abbrev pub is_error : Answer → Bool
is_error (error e) = true
is_error _ = false

refused-is_error : (w : Writer) (r : Answer × Writer) → IsRefused w r → is_error r.0 ≡ true
refused-is_error w (done, v) h = absurd h
refused-is_error w (text bytes, v) h = absurd h
refused-is_error w (error e, v) h = refl

refused-same : (w : Writer) (r : Answer × Writer) → IsRefused w r → r.1 ≡ w
refused-same w (done, v) h = absurd h
refused-same w (text bytes, v) h = absurd h
refused-same w (error e, v) h = h.1

-- A failed or closed writer refuses every further call and stays as it is: the first error stays,
-- and no second text comes.
pub run-IsEnded :
    (granted : ℕ → Bool) (calls : List Call) (w : Writer)
    → IsEnded w
    → All (λ a. is_error a ≡ true) (run granted calls w).0 × ((run granted calls w).1 ≡ w)
unfolding run
run-IsEnded granted [] w h = (tt, refl)
run-IsEnded granted (c ∷ calls) w h =
    let r = perform granted c w in
    let refused = perform-IsRefused granted c w h in
    let same = refused-same w r refused in
    let rest = run-IsEnded granted calls r.1 (subst IsEnded (sym same) h) in
    ((refused-is_error w r refused, rest.0), rest.1 ∙ same)

-- The machine over a list of calls.
unfoldable pub walk : List Call → Phase → Option Phase
walk [] p = some p
walk (c ∷ calls) p = elim (next_phase c p) [ none ↦ none | some q ↦ walk calls q ]

abbrev pub all_good : List Answer → Bool
all_good [] = true
all_good (a ∷ answers) = not (is_error a) && all_good answers

IsEnded-failed : (w : Writer) → IsFailed w ⊎ IsClosed w → IsEnded w
IsEnded-failed w (inl h) = ground (arith, h)
IsEnded-failed w (inr h) = ground (arith, h)

Errs-IsSound : (w v : Writer) (e : Error) → IsSound w → Errs w e v → IsSound v
Errs-IsSound w v e h (inl (arg, same)) = subst IsSound (sym same) h
Errs-IsSound w v e h (inr (valid, failed)) = (valid, inr (inl failed))

Lawful-IsSound :
    (c : Call) (w : Writer) (r : Answer × Writer) → IsSound w → Lawful c w r → IsSound r.1
Lawful-IsSound c w (done, v) h l = l.1
Lawful-IsSound c w (text bytes, v) h l = l.1
Lawful-IsSound c w (error e, v) h l = Errs-IsSound w v e h l

perform-IsSound :
    (granted : ℕ → Bool) (c : Call) (w : Writer) → IsSound w → IsSound (perform granted c w).1
perform-IsSound granted c w (valid, inl o) =
    Lawful-IsSound c w (perform granted c w) (valid, inl o) (perform-Lawful granted c w valid o)
perform-IsSound granted c w (valid, inr h) =
    subst IsSound
      (sym
        (refused-same w (perform granted c w) (perform-IsRefused granted c w (IsEnded-failed w h))))
      (valid, inr h)

run-IsSound :
    (granted : ℕ → Bool) (calls : List Call) (w : Writer)
    → IsSound w
    → IsSound (run granted calls w).1
unfolding run
run-IsSound granted [] w h = h
run-IsSound granted (c ∷ calls) w h =
    run-IsSound granted calls (perform granted c w).1 (perform-IsSound granted c w h)

Lawful-step :
    (c : Call) (w : Writer) (r : Answer × Writer)
    → is_error r.0 ≡ false
    → Lawful c w r
    → next_phase c (phase w) ≡ some (phase r.1)
Lawful-step c w (done, v) h l = l.0
Lawful-step c w (text bytes, v) h l = l.0
Lawful-step c w (error e, v) h l = cc

perform-step :
    (granted : ℕ → Bool) (c : Call) (w : Writer)
    → IsSound w
    → is_error (perform granted c w).0 ≡ false
    → next_phase c (phase w) ≡ some (phase (perform granted c w).1)
perform-step granted c w (valid, inl o) h =
    Lawful-step c w (perform granted c w) h (perform-Lawful granted c w valid o)
perform-step granted c w (valid, inr e) h =
    let bad =
      refused-is_error w (perform granted c w)
        (perform-IsRefused granted c w (IsEnded-failed w e)) in
    cc

run-walk :
    (granted : ℕ → Bool) (calls : List Call) (w : Writer)
    → IsSound w
    → all_good (run granted calls w).0 ≡ true
    → walk calls (phase w) ≡ some (phase (run granted calls w).1)
unfolding run walk
run-walk granted [] w h good = refl
run-walk granted (c ∷ calls) w h good =
    let v = (perform granted c w).1 in
    let step = perform-step granted c w h (ground arith) in
    rw (step, walk) (run-walk granted calls v (perform-IsSound granted c w h) (ground arith))

abbrev pub empty_phase : Phase
empty_phase = building (record { containers = []; pending = false; started = false })

created-IsSound :
    (granted : ℕ → Bool) (profile : Profile) (flags : Flags) (limits : Option Limits)
    (l : Outcome Error Limits) (keys : Outcome Error Keyset) (w : Writer)
    → limits_resolve limits ≡ l
    → create_with granted profile flags l keys ≡ ok w
    → IsSound w × (phase w ≡ empty_phase)
unfolding create_with
created-IsSound granted profile flags limits (err e) keys w h k = cc
created-IsSound granted profile flags limits (ok l) (err e) w h k = cc
created-IsSound granted profile flags limits (ok l) (ok keys) w h k =
    let resolved = limits_resolve-IsResolved limits h in
    let made : new_writer profile flags l keys ≡ w = ground (arith, k) in
    subst (λ v. IsSound v × (phase v ≡ empty_phase)) made
      (
        (
          (omega arith, omega arith, omega arith, tt, λ p. cc),
          inl ((refl, refl), omega (arith, resolved.bytes_lt)),
        ),
        refl,
      )

writer_create-IsSound :
    (granted : ℕ → Bool) (profile : Profile) (limits : Option Limits) (flags : Flags) (w : Writer)
    → writer_create granted profile limits flags ≡ ok w
    → IsSound w × (phase w ≡ empty_phase)
unfolding writer_create
writer_create-IsSound granted profile limits flags w h =
    created-IsSound granted profile flags limits (limits_resolve limits)
      (keyset_init (granted 2) initial_keys) w refl (ground arith)

-- A writer is sound behind any calls, whatever they answer.
pub history-IsSound :
    (granted : ℕ → Bool) (profile : Profile) (limits : Option Limits) (flags : Flags) (w : Writer)
    (calls : List Call)
    → writer_create granted profile limits flags ≡ ok w
    → IsSound (run granted calls w).1
history-IsSound granted profile limits flags w calls h =
    run-IsSound granted calls w (writer_create-IsSound granted profile limits flags w h).0

-- Calls that all succeed from the creation on are a walk of the machine, and the writer's phase is
-- where it ends.
pub history-walk :
    (granted : ℕ → Bool) (profile : Profile) (limits : Option Limits) (flags : Flags) (w : Writer)
    (calls : List Call)
    → writer_create granted profile limits flags ≡ ok w
    → all_good (run granted calls w).0 ≡ true
    → walk calls empty_phase ≡ some (phase (run granted calls w).1)
history-walk granted profile limits flags w calls h good =
    let (sound, start) = writer_create-IsSound granted profile limits flags w h in
    subst (λ p. walk calls p ≡ some (phase (run granted calls w).1)) start
      (run-walk granted calls w sound good)
