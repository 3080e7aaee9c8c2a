-- ===== src/Parser/Documents/Bounds.antt =====
-- `maelys_json_document_parse` ends on every input, and its result fits what was allocated.
use maelys_json.Base.{
  ℕ, ◌+◌, ◌/◌, ◌≡◌, refl, subst, Bool, true, false, [], Option, none, some, Bytes, length, arith,
  ◌==◌, Outcome, ok, err, ◌>>=◌, if◌then◌else◌,
}
use maelys_json.Common.Limits.{limits_resolve}
use maelys_json.Document.{Document}
use maelys_json.Keyset.{keyset_init}
use maelys_json.Parser.Compact.{build_children, compact_document}
use maelys_json.Parser.Compact.Sizes.{
  IsSized, LeavesSized, build_children-LeavesSized, compact_document-LeavesSized,
}
use maelys_json.Parser.Documents.{
  Sizes, Memory, parse_text, recorded, recorded_failure, finish, document_parse, allocate_document,
  fuel_for,
}
use maelys_json.Parser.State.{Parser, Failure, failed, out_of_fuel, Parsed, size, skip_space}
use maelys_json.Parser.State.Runs.{
  Runs, Runs-bind, Runs-if, Steps, Reads-Steps, Steps-trans, skip_space-Reads,
}
use maelys_json.Parser.Values.{parse_value}
use maelys_json.Parser.Values.Runs.{parse_value-Runs}
use maelys_json.Types.{Error, size_max, Profile, Limits}

-- A document whose tokens and texts fit what was allocated, or an error with its position.
abbrev pub Ends : Outcome Failure Document → Type 0
Ends (ok d) = IsSized d
Ends (err (failed e none)) = ⊥
Ends (err (failed e (some at))) = Unit
Ends (err out_of_fuel) = ⊥

recorded-Ends :
    {A : Type 0} (bytes : Bytes) (o : Outcome Error A) (f : A → Outcome Failure Document)
    → ((a : A) → o ≡ ok a → Ends (f a))
    → Ends (recorded bytes o >>= f)
unfolding recorded
recorded-Ends bytes (ok a) f h = h a refl
recorded-Ends bytes (err e) f h = tt

recorded_failure-Ends :
    (P : ℕ → Parser → Type 0) (bytes : Bytes) (m : Parsed ℕ)
    (f : ℕ × Parser → Outcome Failure Document)
    → Runs P m
    → ((a : ℕ) (q : Parser) → P a q → Ends (f (a, q)))
    → Ends (recorded_failure bytes m >>= f)
unfolding recorded_failure
recorded_failure-Ends P bytes (ok r) f h k = k r.0 r.1 h
recorded_failure-Ends P bytes (err (failed e none)) f h k = tt
recorded_failure-Ends P bytes (err (failed e (some at))) f h k = tt
recorded_failure-Ends P bytes (err out_of_fuel) f h k = h

-- A new document.
abbrev pub IsFresh : Document → Type 0
IsFresh d =
    (length d.tokens ≡ 0)
    × (d.arena_used ≡ 0)
    × (d.arena_capacity ≡ length d.bytes + d.token_capacity + 1)

allocate_document-IsFresh :
    (granted : Bool) (bytes : Bytes) (profile : Profile) (l : Limits) {d : Document}
    → allocate_document granted bytes profile l ≡ ok d
    → IsFresh d
unfolding allocate_document
allocate_document-IsFresh true bytes profile l h = subst IsFresh (ok-inj h) (refl, refl, refl)
  where
    ok-inj : {a b : Document} → Path (Outcome Error Document) (ok a) (ok b) → a ≡ b
    ok-inj h = cc
allocate_document-IsFresh false bytes profile l h = cc

-- The text of a new document is read to its end.
pub parse_text-Runs :
    (p : Parser)
    → IsFresh p.document
    → p.offset ≡ 0
    → Runs (λ root q. (q.offset ≡ size q) × IsSized q.document) (parse_text p)
unfolding parse_text
parse_text-Runs p fresh start =
    Runs-bind (λ root. Steps 1 p) _ (parse_value (fuel_for p) none 0 p) _
      (parse_value-Runs (fuel_for p) none 0 p (omega arith) (omega arith))
      (λ root q h.
        let r = skip_space q in
        let k = Steps-trans 1 0 p q r h (Reads-Steps 0 q r h.0 (skip_space-Reads q h.0.0)) in
        Runs-if _ (r.offset == size q) _ _ (λ e. ground arith) (λ _. tt))

finish-LeavesSized : (granted : Memory) (d : Document) → IsSized d → LeavesSized (finish granted d)
unfolding finish
finish-LeavesSized granted d h =
    go (if d.duplicate_count == 0 then ok d else compact_document granted.packed d)
      (packed (d.duplicate_count == 0))
  where
    go :
        (o : Outcome Error Document)
        → LeavesSized o
        → LeavesSized (o >>= build_children granted.children)
    go (ok p) k = build_children-LeavesSized granted.children p k
    go (err e) k = tt

    packed : (b : Bool) → LeavesSized (if b then ok d else compact_document granted.packed d)
    packed true = h
    packed false = compact_document-LeavesSized granted.packed d

finished-Ends :
    (bytes : Bytes) (o : Outcome Error Document) → LeavesSized o → Ends (recorded bytes o)
unfolding recorded
finished-Ends bytes (ok d) h = h
finished-Ends bytes (err e) h = tt

Ends-if : (b : Bool) (x y : Outcome Failure Document) → Ends x → Ends y → Ends (if b then x else y)
Ends-if true x y h k = h
Ends-if false x y h k = k

-- Parsing any bytes on any profile, limits and outcome of the allocations ends: with a document
-- whose tokens fit its token array and whose texts, each with its NUL, fit its arena, or with an
-- error that has a position.
pub document_parse-Ends :
    (sizes : Sizes) (granted : Memory) (bytes : Bytes) (profile : Profile)
    (requested : Option Limits)
    → Ends (document_parse sizes granted bytes profile requested)
unfolding document_parse
document_parse-Ends sizes granted bytes profile requested =
    Ends-if (length bytes == size_max) _ _ tt (
      recorded-Ends [] (limits_resolve requested) _ (λ l _. recorded-Ends bytes _ _ (λ bound _.
        recorded-Ends bytes (allocate_document granted.document bytes profile l) _ (λ d new.
          recorded-Ends bytes (keyset_init granted.keys (d.token_capacity / 2 + 1)) _ (λ keys _.
            recorded_failure-Ends _ bytes _ _
              (parse_text-Runs _ (allocate_document-IsFresh granted.document bytes profile l new)
                refl)
              (λ root p h.
                finished-Ends bytes (finish granted p.document)
                  (finish-LeavesSized granted p.document h.1)))))))
