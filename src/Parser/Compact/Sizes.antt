-- ===== src/Parser/Compact/Sizes.antt =====
-- What `build_children` and `compact_document` leave of the sizes of a document.
use maelys_json.Base.{
  ℕ, zero, suc, ◌+◌, ◌≤◌, Bool, true, false, [], Outcome, ok, err, length, arith, if◌then◌else◌,
}
use maelys_json.Document.{Document}
use maelys_json.Document.Access.{token_at}
use maelys_json.Parser.Compact.{children_loop, build_children, compact_document, is_container}
use maelys_json.Parser.State.Runs.{length-set}
use maelys_json.Types.{Error}

-- The tokens and the arena fit what is allocated for them.
abbrev pub IsSized : Document → Type 0
IsSized d = (length d.tokens ≤ d.token_capacity) × (d.arena_used ≤ d.arena_capacity)

-- The property, of a result.
abbrev pub LeavesSized : Outcome Error Document → Type 0
LeavesSized (ok d) = IsSized d
LeavesSized (err e) = Unit

children_loop-IsSized :
    (rounds index : ℕ) (d : Document) → IsSized d → IsSized (children_loop rounds index d)
unfolding children_loop
children_loop-IsSized zero index d h = h
children_loop-IsSized (suc rounds) index d h =
    children_loop-IsSized rounds (index + 1) _
      (kept (is_container (token_at d index)) _ d (omega (arith, length-set d.tokens index _)) h)
  where
    kept : (b : Bool) (x y : Document) → IsSized x → IsSized y → IsSized (if b then x else y)
    kept true x y h k = h
    kept false x y h k = k

pub build_children-LeavesSized :
    (granted : Bool) (d : Document) → IsSized d → LeavesSized (build_children granted d)
unfolding build_children
build_children-LeavesSized true d h =
    children_loop-IsSized (length d.tokens) 0 (record d { children = [] }) h
build_children-LeavesSized false d h = tt

pub compact_document-LeavesSized :
    (granted : Bool) (d : Document) → LeavesSized (compact_document granted d)
unfolding compact_document
compact_document-LeavesSized true d = ground arith
compact_document-LeavesSized false d = tt
