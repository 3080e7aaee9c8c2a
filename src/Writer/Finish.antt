-- ===== src/Writer/Finish.antt =====
-- `maelys_json_writer_finish` of src/writer.c, which gives the text and closes the writer. The
-- pointers for the text and its size are given.
use maelys_json.Base.{
  ℕ, ◌≤◌, ◌<◌, ◌<◌, ◌≡◌, ◌⊎◌, inl, inr, refl, sym, ap, ◌∙◌, Bool, true, false, not, ◌&&◌, ◌||◌,
  List, [], ◌∷◌, some, Bytes, length, ◌==◌, Outcome, ok, err, if◌then◌else◌, arith,
}
use maelys_json.Serializer.Nodes.{serialize}
use maelys_json.Serializer.Nodes.Renders.{render}
use maelys_json.Serializer.Buffer.Emits.{Denied}
use maelys_json.Serializer.Nodes.Trees.{IsTree}
use maelys_json.Serializer.Nodes.Writes.{Delivers, serialize-Delivers}
use maelys_json.Types.{Error, state, memory, limit, size_max}
use maelys_json.Writer.Calls.Runs.{ready-Runs}
use maelys_json.Writer.State.{
  Node, Writer, Act, ◌>>◌, node_count, depth, is_some, record_failure, writer_fail, writer_ready,
}
use maelys_json.Writer.State.Kinds.{kinds}
use maelys_json.Writer.State.Runs.{shape, IsReady, Runs, Runs-if}
use maelys_json.Writer.State.Shape.{Shape, is_open}

unfoldable pub finish_with : Outcome Error Bytes → Act Bytes
finish_with (ok bytes) w = (ok bytes, record w { finished = true })
finish_with (err e) w = writer_fail e w

unfoldable pub writer_finish : (ℕ → Bool) → Act Bytes
unfolding finish_with
writer_finish granted = do
  writer_ready
  (λ w.
      if not (depth w == 0) || is_some w.pending_key || node_count w == 0
      then writer_fail state w
      else finish_with (serialize granted w) w)

-- One root was written, and nothing is open.
unfoldable pub is_complete : Shape → Bool
is_complete s = not (is_open s.containers) && not s.pending && s.started

-- The text of the tree, which fits the limit, and a writer that is closed.
abbrev pub Finishes : Writer → Bytes → Writer → Type 0
Finishes w bytes v =
    (is_complete (shape w) ≡ true)
    × (render w ≡ some bytes)
    × (length bytes ≤ w.limits.maximum_bytes)
    × (v ≡ record w { finished = true })

abbrev pub TooLong : Writer → Type 0
TooLong w = (out : Bytes) × (render w ≡ some out) × (w.limits.maximum_bytes < length out)

-- Why no text comes: the tree is not complete; or some request for memory is not met; or the text
-- is too long. The error is recorded.
abbrev pub Reason : (ℕ → Bool) → Error → Writer → Type 0
Reason granted e w =
    ((e ≡ state) × (is_complete (shape w) ≡ false))
    ⊎ (((e ≡ memory) × Denied granted) ⊎ ((e ≡ limit) × TooLong w))

abbrev pub Unfinished : (ℕ → Bool) → Writer → Error → Writer → Type 0
Unfinished granted w e v = Reason granted e w × (v ≡ record w { failure = some e })

open_lem :
    (nodes : List Node) (stack : List ℕ) → (length stack == 0) ≡ not (is_open (kinds nodes stack))
open_lem nodes [] = refl
open_lem nodes (i ∷ stack) = ground arith

complete_lem :
    (w : Writer)
    → (not (depth w == 0) || is_some w.pending_key || node_count w == 0)
      ≡ not (is_complete (shape w))
unfolding is_complete
complete_lem w = ground (arith, open_lem w.nodes w.stack)

finish_with-Runs :
    (granted : ℕ → Bool) (w : Writer) (out : Bytes) (r : Outcome Error Bytes)
    → IsReady w
    → render w ≡ some out
    → is_complete (shape w) ≡ true
    → Delivers granted w.limits.maximum_bytes out r
    → Runs (Finishes w) (Unfinished granted w) (finish_with r w)
unfolding finish_with writer_fail record_failure
finish_with-Runs granted w out (ok bytes) ready e c (same, fits) =
    (c, e ∙ ap some (sym same), omega (arith, ap length same), refl)
finish_with-Runs granted w out (err x) ready e c (inl h) =
    (inr (inl h), ap (λ f. record w { failure = record_failure x f }) ready.1)
finish_with-Runs granted w out (err x) ready e c (inr (h, over)) =
    (inr (inr (h, (out, e, over))), ap (λ f. record w { failure = record_failure x f }) ready.1)

complete-nodes : (w : Writer) → is_complete (shape w) ≡ true → 0 < node_count w
unfolding is_complete
complete-nodes w h = ground (arith, h)

-- Where the limit on bytes is a size_t, a ready writer whose nodes have types and whose children
-- stand behind their parents either closes with the text of its complete tree, or records an
-- error: STATE where the tree is not complete, MEMORY where some request is not met, LIMIT where
-- the text is too long.
pub writer_finish-Finishes :
    (granted : ℕ → Bool) (w : Writer)
    → IsReady w
    → IsTree w
    → w.limits.maximum_bytes ≤ size_max
    → Runs (Finishes w) (Unfinished granted w) (writer_finish granted w)
unfolding writer_finish writer_fail record_failure
writer_finish-Finishes granted w ready tree most =
    ready-Runs (Finishes w) (Unfinished granted w) _ w ready (
      Runs-if (Unfinished granted w) (Finishes w)
        (not (depth w == 0) || is_some w.pending_key || node_count w == 0) _ _
        (λ bad. (
          inl (refl, ground (arith, complete_lem w)),
          ap (λ f. record w { failure = record_failure state f }) ready.1,
        ))
        (λ good.
          let complete : is_complete (shape w) ≡ true = ground (arith, complete_lem w) in
          let (out, text, delivers) =
            serialize-Delivers granted w (complete-nodes w complete) tree most in
          finish_with-Runs granted w out (serialize granted w) ready text complete delivers))

-- Without a condition on the tree: it is complete and the writer is closed, or an error is recorded.
abbrev pub Closes : Writer → Bytes → Writer → Type 0
Closes w bytes v = (is_complete (shape w) ≡ true) × (v ≡ record w { finished = true })

abbrev pub Records : Writer → Error → Writer → Type 0
Records w e v = v ≡ record w { failure = some e }

closed_with :
    (w : Writer) (r : Outcome Error Bytes)
    → IsReady w
    → is_complete (shape w) ≡ true
    → Runs (Closes w) (Records w) (finish_with r w)
unfolding finish_with writer_fail record_failure
closed_with w (ok bytes) ready c = (c, refl)
closed_with w (err x) ready c = ap (λ f. record w { failure = record_failure x f }) ready.1

pub writer_finish-Closes :
    (granted : ℕ → Bool) (w : Writer)
    → IsReady w
    → Runs (Closes w) (Records w) (writer_finish granted w)
unfolding writer_finish writer_fail record_failure
writer_finish-Closes granted w ready = ready-Runs (Closes w) (Records w) _ w ready (
    Runs-if (Records w) (Closes w)
      (not (depth w == 0) || is_some w.pending_key || node_count w == 0) _ _
      (λ bad. ap (λ f. record w { failure = record_failure state f }) ready.1)
      (λ good. closed_with w (serialize granted w) ready (ground (arith, complete_lem w))))
