-- ===== src/Writer/Calls/Runs.antt =====
-- Each call of src/writer.c that builds the tree takes the step of the shape that it is for.
use maelys_json.Base.{
  ℕ, ◌≤◌, ◌<◌, ◌≡◌, refl, sym, ap, ◌∙◌, Bool, true, false, not, ◌||◌, List, [], ◌∷◌, Option, none,
  some, length, All, arith, leb, Outcome, ok, err,
}
use maelys_json.Types.{Error, state, limit, Kind, Limits}
use maelys_json.Writer.Attach.{attach_node}
use maelys_json.Writer.Attach.Runs.{Attached, attach_node-Runs}
use maelys_json.Writer.Calls.{push, pop, container_begin, container_end}
use maelys_json.Writer.State.{
  Node, Writer, node_count, depth, Act, chain, is_some, in_container, writer_ready,
}
use maelys_json.Writer.State.Kinds.{kind_at, kinds}
use maelys_json.Writer.State.Runs.{
  shape, IsValid, IsReady, Runs, Runs-chain, Runs-if, Fails, Tells-map, writer_fail-Fails,
  in_container-is_head,
}
use maelys_json.Writer.State.Shape.{Shape, is_head, outer, value_step, begin_step, end_step}

-- The effect of a call on the shape, and the writer stays well formed and ready.
abbrev pub Done : (Shape → Option Shape) → Writer → Unit {0} → Writer → Type 0
Done step w u v = (step (shape w) ≡ some (shape v)) × IsValid v × IsReady v × (v.limits ≡ w.limits)

-- The call was out of order.
abbrev pub Refused : (Shape → Option Shape) → Writer → Type 0
Refused step w = step (shape w) ≡ none

pub writer_ready-ready : (w : Writer) → IsReady w → writer_ready w ≡ (ok tt, w)
unfolding writer_ready
writer_ready-ready w (open', none') = rw (open', none') refl

pub ready-Runs :
    {A : Type 0} (G : A → Writer → Type 0) (F : Error → Writer → Type 0) (f : Unit {0} → Act A)
    (w : Writer)
    → IsReady w
    → Runs G F (f tt w)
    → Runs G F (chain (writer_ready w) f)
ready-Runs G F f w ready h = rw (writer_ready-ready w ready) h

begin_of_value :
    (kind : Kind) (s t : Shape)
    → value_step s ≡ some t
    → begin_step kind s ≡ some (record t { containers = kind ∷ t.containers })
unfolding value_step begin_step
begin_of_value kind s t h = ground arith

begin_refused : (kind : Kind) (s : Shape) → value_step s ≡ none → begin_step kind s ≡ none
unfolding value_step begin_step
begin_refused kind s h = ground arith

heads :
    (k k' : Kind) (s : Shape)
    → k' ≡ k
    → some (record s { containers = k ∷ s.containers })
      ≡ some (record s { containers = k' ∷ s.containers })
heads k k' s e = ap (λ x. some (record s { containers = x ∷ s.containers })) (sym e)

-- The same failure, with another way to say that the call is out of order.
pub failed :
    {A : Type 0} (G : A → Writer → Type 0) (R R' : Type 0) (r : Outcome Error A × Writer)
    → (R → R')
    → Runs G (Fails R) r
    → Runs G (Fails R') r
failed G R R' (ok a, v) f h = h
failed G R R' (err e, v) f (valid, open', failure, refused) =
    (valid, open', failure, Tells-map R R' e f refused)

push-Done :
    (kind : Kind) (w v : Writer) (index : ℕ)
    → depth w < w.limits.maximum_depth
    → Attached kind w index v
    → Runs (Done (begin_step kind) w) (Fails (Refused (begin_step kind) w)) (push index v)
unfolding push
push-Done kind w v index deep (step, valid, ready, stack, limits, key, below, kind') =
    let deeper = ap length stack in
    let none' = ap is_some key in
    let most = ap (λ (l : Limits). l.maximum_depth) limits in
    (
      begin_of_value kind (shape w) (shape v) step
          ∙ heads kind (kind_at v.nodes index) (shape v) kind',
      (valid.0, valid.1, omega arith, (below, valid.3), λ p. cc),
      ready,
      limits,
    )

pub container_begin-Runs :
    (granted : ℕ → Bool) (kind : Kind) (w : Writer)
    → IsValid w
    → IsReady w
    → Runs
        (Done (begin_step kind) w)
        (Fails (Refused (begin_step kind) w))
        (container_begin granted kind w)
unfolding container_begin
container_begin-Runs granted kind w valid ready =
    let F = Fails (Refused (begin_step kind) w) in
    ready-Runs (Done (begin_step kind) w) F _ w ready (
      Runs-if F _ (leb w.limits.maximum_depth (depth w)) _ _
        (λ _. writer_fail-Fails _ _ limit w valid ready (λ p. cc))
        (λ more.
          Runs-chain F (Attached kind w) _ (attach_node granted kind w) push
            (failed (Attached kind w) (value_step (shape w) ≡ none) (Refused (begin_step kind) w)
              (attach_node granted kind w) (begin_refused kind (shape w))
              (attach_node-Runs granted kind w valid ready))
            (λ index v h. push-Done kind w v index (ground arith) h)))

-- The stack without its last entry.
abbrev rest : List ℕ → List ℕ
rest stack = elim stack [ [] ↦ [] | _ ∷ below ↦ below ]

kinds-rest :
    (nodes : List Node) (stack : List ℕ) → kinds nodes (rest stack) ≡ outer (kinds nodes stack)
kinds-rest nodes [] = refl
kinds-rest nodes (i ∷ stack) = refl

depth-rest : (stack : List ℕ) → length (rest stack) ≤ length stack
depth-rest [] = omega arith
depth-rest (i ∷ stack) = omega arith

All-rest : (P : ℕ → Type 0) (stack : List ℕ) → All P stack → All P (rest stack)
All-rest P [] h = tt
All-rest P (i ∷ stack) h = h.1

end_refused :
    (kind : Kind) (s : Shape) (closes : Bool)
    → closes ≡ is_head kind s.containers
    → (not closes || s.pending) ≡ true
    → end_step kind s ≡ none
unfolding end_step
end_refused kind s closes same h = ground arith

end_taken :
    (kind : Kind) (s : Shape) (closes : Bool)
    → closes ≡ is_head kind s.containers
    → (not closes || s.pending) ≡ false
    → (end_step kind s ≡ some (record s { containers = outer s.containers })) × (s.pending ≡ false)
unfolding end_step
end_taken kind s closes same h = (ground arith, ground arith)

pub container_end-Runs :
    (kind : Kind) (w : Writer)
    → IsValid w
    → IsReady w
    → Runs (Done (end_step kind) w) (Fails (Refused (end_step kind) w)) (container_end kind w)
unfolding container_end pop
container_end-Runs kind w valid ready =
    let F = Fails (Refused (end_step kind) w) in
    let same = in_container-is_head kind w in
    ready-Runs (Done (end_step kind) w) F _ w ready (
      Runs-if F _ (not (in_container kind w) || is_some w.pending_key) _ _
        (λ bad.
          writer_fail-Fails _ _ state w valid ready
            (λ _. end_refused kind (shape w) (in_container kind w) same bad))
        (λ good.
          let (step, none') = end_taken kind (shape w) (in_container kind w) same good in
          let fewer = depth-rest w.stack in
          (
            step
                ∙ ap (λ ks. some (record (shape w) { containers = ks }))
                    (sym (kinds-rest w.nodes w.stack)),
            (
              valid.0,
              valid.1,
              omega arith,
              All-rest (λ i. i < node_count w) w.stack valid.3,
              λ p. cc,
            ),
            ready,
            refl,
          )))
