-- ===== src/Writer/Calls/Values.antt =====
-- Keys, texts, numbers, booleans and nulls: what each of these calls of src/writer.c does.
use maelys_json.Base.{
  ℕ, ◌<◌, ◌≡◌, ◌⊎◌, inl, inr, refl, sym, ap, ap₂, subst, ◌∙◌, Bool, true, not, ◌||◌, Option, none,
  some, Bytes, length, set, All-mono, arith, ltb, ◌==◌, Outcome,
}
use maelys_json.Common.Number.{number_syntax}
use maelys_json.Types.{Error, argument, state, limit, memory, Kind, object, string, number}
use maelys_json.Writer.Attach.{requested, attach_node}
use maelys_json.Writer.Attach.Runs.{Attached, attach_node-Runs}
use maelys_json.Writer.Calls.{
  copy_bytes, set_pending_key, key_error, store_key, writer_key, change_node, write_text,
  attach_scalar, writer_string, write_number_lexeme,
}
use maelys_json.Writer.Calls.Runs.{Done, Refused, ready-Runs}
use maelys_json.Writer.State.{
  Node, Writer, node_at, node_count, chain, is_some, in_container, writer_fail, valid_text,
}
use maelys_json.Writer.State.Kinds.{set-SameKinds, kinds-SameKinds}
use maelys_json.Writer.State.Runs.{
  shape, IsValid, IsReady, Runs, Runs-chain, Runs-if, Runs-mono, Fails, writer_fail-Fails,
  in_container-is_head,
}
use maelys_json.Writer.State.Shape.{Shape, is_head, value_step, key_step}

-- The answers of a call: the step is taken; or the arguments are refused and nothing changes; or
-- an error is recorded, which is STATE only if the call is out of order.
abbrev pub Rejects : (Shape → Option Shape) → Writer → Error → Writer → Type 0
Rejects step w e v = ((e ≡ argument) × (v ≡ w)) ⊎ Fails (Refused step w) e v

abbrev pub Answers : (Shape → Option Shape) → Writer → Outcome Error (Unit {0}) × Writer → Type 0
Answers step w r = Runs (Done step w) (Rejects step w) r

pub answered :
    (step : Shape → Option Shape) (w : Writer) (r : Outcome Error (Unit {0}) × Writer)
    → Runs (Done step w) (Fails (Refused step w)) r
    → Answers step w r
answered step w r h =
    Runs-mono (Done step w) (Done step w) (Fails (Refused step w)) (Rejects step w) r (λ u v d. d)
      (λ e v f. inr f) h

-- `copy_bytes` counts a request, and nothing else changes.
copy_bytes-Runs :
    (R : Type 0) (granted : ℕ → Bool) (bytes : Bytes) (w : Writer)
    → IsValid w
    → IsReady w
    → Runs (λ copy v. v ≡ requested w) (Fails R) (copy_bytes granted bytes w)
unfolding copy_bytes
copy_bytes-Runs R granted bytes w valid ready =
    Runs-if (Fails R) (λ copy v. v ≡ requested w) (granted w.requests) _ _ (λ _. refl)
      (λ _.
        writer_fail-Fails R (λ copy v. v ≡ requested w) memory (requested w) valid ready (λ p. cc))

key_taken :
    (key : Bytes) (w : Writer)
    → key_error key w ≡ none
    → in_container object w ≡ is_head object (shape w).containers
    → (key_step (shape w) ≡ some (record (shape w) { pending = true }))
      × (in_container object w ≡ true)
unfolding key_error key_step
key_taken key w h same = (ground arith, ground arith)

key_refused :
    (key : Bytes) (w : Writer)
    → key_error key w ≡ some state
    → in_container object w ≡ is_head object (shape w).containers
    → key_step (shape w) ≡ none
unfolding key_error key_step
key_refused key w h same = ground arith

key-Runs :
    (granted : ℕ → Bool) (key : Bytes) (w : Writer)
    → IsValid w
    → IsReady w
    → (o : Option Error) → key_error key w ≡ o
    → Runs
        (Done key_step w)
        (Fails (Refused key_step w))
        (elim o [ some e ↦ writer_fail e w | none ↦ store_key granted key w ])
unfolding store_key set_pending_key
key-Runs granted key w valid ready (some e) h =
    writer_fail-Fails (Refused key_step w) (Done key_step w) e w valid ready
      (λ p. key_refused key w (h ∙ ap some p) (in_container-is_head object w))
key-Runs granted key w valid ready none h =
    let (step, keyed) = key_taken key w h (in_container-is_head object w) in
    Runs-chain (Fails (Refused key_step w)) (λ copy v. v ≡ requested w) (Done key_step w)
      (copy_bytes granted key w) _ (copy_bytes-Runs (Refused key_step w) granted key w valid ready)
      (λ copy v same.
        subst (λ u. Runs (Done key_step w) (Fails (Refused key_step w)) (set_pending_key copy u))
          (sym same) (step, (valid.0, valid.1, valid.2, valid.3, λ _. keyed), ready, refl))

-- A key is taken in an object that waits for none.
pub writer_key-Answers :
    (granted : ℕ → Bool) (key : Bytes) (w : Writer)
    → IsValid w
    → IsReady w
    → Answers key_step w (writer_key granted key w)
unfolding writer_key
writer_key-Answers granted key w valid ready =
    Runs-if (Rejects key_step w) (Done key_step w) (valid_text w.profile key) _ _
      (λ _. answered key_step w _ (
        ready-Runs (Done key_step w) (Fails (Refused key_step w)) _ w ready
          (key-Runs granted key w valid ready (key_error key w) refl)))
      (λ _. inl (refl, refl))

-- The attached node gets its content, and keeps its kind.
change_node-Done :
    (kind : Kind) (w v : Writer) (index : ℕ) (change : Node → Node)
    → ((n : Node) → (change n).kind ≡ n.kind)
    → Attached kind w index v
    → Runs (Done value_step w) (Fails (Refused value_step w)) (change_node index change v)
unfolding change_node
change_node-Done kind w v index change keeps
      (step, valid, ready, stack, limits, key, below, kind') =
    let nodes = set v.nodes index (change (node_at v index)) in
    let same = set-SameKinds v.nodes index (change (node_at v index)) (keeps (node_at v index)) in
    let none' = ap is_some key in
    (
      step
          ∙ ap₂
              (λ ks n. some (record {
                containers = ks;
                pending = is_some v.pending_key;
                started = not (n == 0);
              }))
              (sym (kinds-SameKinds nodes v.nodes v.stack same)) (sym same.0),
      (
        omega (arith, same.0),
        valid.1,
        valid.2,
        All-mono (λ i. i < node_count v) (λ i. i < length nodes) v.stack
            (λ i h. omega (arith, same.0)) valid.3,
        λ p. cc,
      ),
      ready,
      limits,
    )

-- A scalar: the value's step.
pub attach_scalar-Runs :
    (granted : ℕ → Bool) (kind : Kind) (change : Node → Node) (w : Writer)
    → ((n : Node) → (change n).kind ≡ n.kind)
    → IsValid w
    → IsReady w
    → Runs (Done value_step w) (Fails (Refused value_step w)) (attach_scalar granted kind change w)
unfolding attach_scalar
attach_scalar-Runs granted kind change w keeps valid ready =
    ready-Runs (Done value_step w) (Fails (Refused value_step w)) _ w ready (
      Runs-chain (Fails (Refused value_step w)) (Attached kind w) (Done value_step w)
        (attach_node granted kind w) _ (attach_node-Runs granted kind w valid ready)
        (λ index v h. change_node-Done kind w v index change keeps h))

-- A text: it is copied first.
pub write_text-Runs :
    (granted : ℕ → Bool) (kind : Kind) (bytes : Bytes) (w : Writer)
    → IsValid w
    → IsReady w
    → Runs (Done value_step w) (Fails (Refused value_step w)) (write_text granted kind bytes w)
unfolding write_text
write_text-Runs granted kind bytes w valid ready =
    let F = Fails (Refused value_step w) in
    ready-Runs (Done value_step w) F _ w ready (
      Runs-if F (Done value_step w) (ltb w.limits.maximum_bytes (length bytes)) _ _
        (λ _.
          writer_fail-Fails (Refused value_step w) (Done value_step w) limit w valid ready
            (λ p. cc))
        (λ _.
          Runs-chain F (λ copy v. v ≡ requested w) (Done value_step w) (copy_bytes granted bytes w)
            _ (copy_bytes-Runs (Refused value_step w) granted bytes w valid ready)
            (λ copy v same.
              subst
                (λ u. Runs (Done value_step w) F (
                  chain (attach_node granted kind u)
                    (λ index. change_node index (λ n. record n { string = some copy }))))
                (sym same)
                (Runs-chain F (Attached kind w) (Done value_step w)
                  (attach_node granted kind (requested w)) _
                  (attach_node-Runs granted kind (requested w) valid ready)
                  (λ index u h. change_node-Done kind w u index _ (λ n. refl) h)))))

pub writer_string-Answers :
    (granted : ℕ → Bool) (value : Bytes) (w : Writer)
    → IsValid w
    → IsReady w
    → Answers value_step w (writer_string granted value w)
unfolding writer_string
writer_string-Answers granted value w valid ready =
    Runs-if (Rejects value_step w) (Done value_step w) (valid_text w.profile value) _ _
      (λ _. answered value_step w _ (write_text-Runs granted string value w valid ready))
      (λ _. inl (refl, refl))

pub write_number_lexeme-Answers :
    (granted : ℕ → Bool) (lexeme : Bytes) (maximum : ℕ) (w : Writer)
    → IsValid w
    → IsReady w
    → Answers value_step w (write_number_lexeme granted lexeme maximum w)
unfolding write_number_lexeme
write_number_lexeme-Answers granted lexeme maximum w valid ready =
    Runs-if (Rejects value_step w) (Done value_step w)
      (ltb maximum (length lexeme) || not (number_syntax lexeme)) _ _ (λ _. inl (refl, refl))
      (λ _. answered value_step w _ (write_text-Runs granted number lexeme w valid ready))
