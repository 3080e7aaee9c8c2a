-- ===== src/Writer/Attach/Runs.antt =====
-- `attach_node` takes a value exactly where one is due, keeps the writer well formed, and gives
-- the new node its kind.
use maelys_json.Base.{
  ℕ, ◌+◌, ◌≤◌, ◌<◌, ◌≡◌, ◌≢◌, ◌⊎◌, inl, inr, refl, sym, ap, ◌∙◌, Bool, true, false, not, ◌&&◌, ◌||◌,
  List, [], ◌∷◌, ◌++◌, Option, none, some, Bytes, length, length-append, get_or, All, All-mono,
  arith, leb, ltb, ◌==◌, Outcome, ok, err, if◌then◌else◌,
}
use maelys_json.Keyset.{Keyset}
use maelys_json.Keyset.Errors.{keyset_insert_errors}
use maelys_json.Types.{Error, state, memory, duplicate_key, Kind, object}
use maelys_json.Writer.Attach.{
  next_capacity, grow_nodes, append_last, append_container, append_child, failing, new_node,
  with_keys, insert_key, register_key, link_node, may_attach, attach_node,
}
use maelys_json.Writer.State.{
  Node, Writer, no_node, node_at, node_count, chain, ◌>>◌, is_some, current_container, in_container,
  writer_fail,
}
use maelys_json.Writer.State.Kinds.{
  kind_at, kinds, SameKinds, SameKinds-trans, set-SameKinds, kind_at-last, kinds-SameKinds,
  kinds-append,
}
use maelys_json.Writer.State.Runs.{
  shape, IsValid, IsReady, Runs, Runs-chain, Runs-if, Fails, writer_fail-Fails,
}
use maelys_json.Writer.State.Shape.{Shape, is_head, takes_value, value_step}

append_last-SameKinds :
    (nodes : List Node) (last : Option ℕ) (index : ℕ)
    → SameKinds (append_last nodes last index) nodes
unfolding append_last
append_last-SameKinds nodes none index = (refl, λ i. refl)
append_last-SameKinds nodes (some last) index = set-SameKinds nodes last _ refl

pub append_child-SameKinds :
    (nodes : List Node) (parent : Option ℕ) (index : ℕ)
    → SameKinds (append_child nodes parent index) nodes
unfolding append_child append_container
append_child-SameKinds nodes none index = (refl, λ i. refl)
append_child-SameKinds nodes (some parent) index =
    let last = (get_or nodes parent no_node).links.last_child in
    let linked = append_last-SameKinds nodes last index in
    SameKinds-trans _ _ nodes
      (set-SameKinds (append_last nodes last index) parent _ (sym (linked.1 parent))) linked

-- What `attach_node` gives for a writer.
abbrev pub Attached : Kind → Writer → ℕ → Writer → Type 0
Attached kind w index v =
    (value_step (shape w) ≡ some (shape v))
    × IsValid v
    × IsReady v
    × (v.stack ≡ w.stack)
    × (v.limits ≡ w.limits)
    × (v.pending_key ≡ none)
    × (index < node_count v)
    × ((node_at v index).kind ≡ kind)

-- The nodes that are there already, and their number.
abbrev Linked : Kind → Writer → List Node → Type 0
Linked kind w nodes =
    (length nodes ≡ node_count w + 1)
    × (kinds nodes w.stack ≡ kinds w.nodes w.stack)
    × (kind_at nodes (node_count w) ≡ kind)

linked :
    (w : Writer) (n : Node) (container : Option ℕ)
    → All (λ i. i < node_count w) w.stack
    → Linked n.kind w (append_child (w.nodes ++ n ∷ []) container (node_count w))
linked w n container h =
    let same = append_child-SameKinds (w.nodes ++ n ∷ []) container (node_count w) in
    (
      omega (arith, same.0, length-append w.nodes (n ∷ [])),
      kinds-SameKinds _ (w.nodes ++ n ∷ []) w.stack same ∙ kinds-append w.nodes (n ∷ []) w.stack h,
      same.1 (node_count w) ∙ kind_at-last w.nodes n,
    )

stack_mono : (n m : ℕ) (stack : List ℕ) → n ≤ m → All (λ i. i < n) stack → All (λ i. i < m) stack
stack_mono n m stack le h = All-mono _ _ stack (λ i below. omega arith) h

not_state : {e : Error} → (e ≡ memory) ⊎ (e ≡ duplicate_key) → e ≢ state
not_state (inl h) p = cc
not_state (inr h) p = cc

-- A shape with a value, part by part.
with_value_lem :
    (s : Shape) (containers : List Kind) (pending started : Bool)
    → takes_value s ≡ true
    → containers ≡ s.containers
    → pending ≡ false
    → started ≡ true
    → value_step s ≡ some (record { containers = containers; pending = pending; started = started })
unfolding value_step
with_value_lem s containers pending started h e e' e'' = rw (h, e, e', e'') refl

module _ (w : Writer) (valid : IsValid w) (ready : IsReady w)
    (room : node_count w < w.node_capacity) (takes : takes_value (shape w) ≡ true) where
  -- The writer with a new node, not linked yet.
  abbrev added : Node → Option Bytes → Keyset → ℕ → Writer
  added n pending keys requests = record w {
    nodes = w.nodes ++ n ∷ [];
    pending_key = pending;
    keys = keys;
    requests = requests;
  }

  link_node-Runs :
      (n : Node) (pending : Option Bytes) (keys : Keyset) (requests : ℕ)
      (F : Error → Writer → Type 0)
      → pending ≡ none
      → Runs (Attached n.kind w) F (link_node (node_count w) (added n pending keys requests))
  unfolding link_node
  link_node-Runs n pending keys requests F none' =
      let nodes = append_child (w.nodes ++ n ∷ []) (current_container w) (node_count w) in
      let (more, same, kind) = linked w n (current_container w) valid.3 in
      let none'' = ap is_some none' in
      (
        with_value_lem (shape w) (kinds nodes w.stack) (is_some pending) (not (length nodes == 0))
            takes same none'' (ground arith),
        (
          omega arith,
          valid.1,
          valid.2,
          stack_mono (node_count w) (length nodes) w.stack (omega arith) valid.3,
          λ p. cc,
        ),
        ready,
        refl,
        refl,
        none',
        omega arith,
        kind,
      )

  failed_key :
      (n : Node) (requests : ℕ) (keys : Keyset) (Refused : Type 0) (e : Error)
      → e ≢ state
      → Runs (Attached n.kind w) (Fails Refused) (writer_fail e (added n none keys requests))
  failed_key n requests keys Refused e ne =
      writer_fail-Fails Refused (Attached n.kind w) e (added n none keys requests)
        (
          omega (arith, length-append w.nodes (n ∷ [])),
          valid.1,
          valid.2,
          stack_mono (node_count w) (length (w.nodes ++ n ∷ [])) w.stack
              (omega (arith, length-append w.nodes (n ∷ []))) valid.3,
          λ p. cc,
        )
        ready (λ p. absurd (ne p))

  with_keys-Runs :
      (n : Node) (requests : ℕ) (keys : Keyset) (Refused : Type 0) (o : Outcome Error Keyset)
      → ((e : Error) → o ≡ err e → e ≢ state)
      → Runs
          (Attached n.kind w)
          (Fails Refused)
          (chain (with_keys o (added n none keys requests)) (λ _. link_node (node_count w)))
  unfolding with_keys writer_fail
  with_keys-Runs n requests keys Refused (ok keys') h =
      link_node-Runs n none keys' requests (Fails Refused) refl
  with_keys-Runs n requests keys Refused (err e) h = failed_key n requests keys Refused e (h e refl)

  -- The steps behind `grow_nodes`; a key is taken where one is due.
  place-Runs :
      (granted : ℕ → Bool) (kind : Kind) (needs_key : Bool) (Refused : Type 0)
      → (needs_key ≡ false → w.pending_key ≡ none)
      → Runs (Attached kind w) (Fails Refused) (
          chain
            (new_node kind needs_key w)
            (λ _. register_key granted needs_key (node_count w) >> link_node (node_count w)))
  unfolding new_node register_key insert_key
  place-Runs granted kind true Refused h =
      with_keys-Runs _ (w.requests + 1) w.keys Refused _
        (λ e failed. not_state (keyset_insert_errors _ _ w.keys (node_count w) failed))
  place-Runs granted kind false Refused h =
      link_node-Runs _ w.pending_key w.keys w.requests (Fails Refused) (h refl)

may_attach-takes_value : (w : Writer) → may_attach w ≡ takes_value (shape w)
unfolding may_attach
may_attach-takes_value w = go w.stack (is_some w.pending_key) (node_count w == 0)
  where
    go :
        (stack : List ℕ) (pending empty : Bool)
        → ((is_some (elim stack [ [] ↦ none | i ∷ _ ↦ some i ]) || empty)
            && (if elim stack [ [] ↦ false | i ∷ _ ↦ is_head object (kind_at w.nodes i ∷ []) ]
                then pending
                else not pending))
          ≡ takes_value
              (record { containers = kinds w.nodes stack; pending = pending; started = not empty })
    go [] pending true = refl
    go [] pending false = refl
    go (i ∷ stack) pending empty = refl

-- Room for a node: only the capacity and the number of requests differ.
abbrev Grown : Writer → Unit {0} → Writer → Type 0
Grown w u v =
    (capacity : ℕ) × (requests : ℕ) × (v
      ≡ record w { node_capacity = capacity; requests = requests })
    × (node_count w < capacity)
    × (capacity ≤ w.limits.maximum_tokens)

-- An error of `grow_nodes`, with the number of requests.
abbrev Cramped : Writer → Error → Writer → Type 0
Cramped w e v = (e ≢ state) × ((requests : ℕ) × (v ≡ record w { requests = requests }))

grow_nodes-Runs :
    (granted : ℕ → Bool) (w : Writer)
    → IsValid w
    → Runs (Grown w) (Cramped w) (grow_nodes granted w)
unfolding grow_nodes next_capacity
grow_nodes-Runs granted w valid =
    Runs-if (Cramped w) (Grown w) (leb w.limits.maximum_tokens (node_count w)) _ _
      (λ _. (λ p. cc, (w.requests, refl)))
      (λ more.
        Runs-if (Cramped w) (Grown w) (ltb (node_count w) w.node_capacity) _ _
          (λ room. (w.node_capacity, w.requests, refl, ground arith, valid.1))
          (λ full.
            Runs-if (Cramped w) (Grown w) (granted w.requests) _ _
              (λ _. (next_capacity w, w.requests + 1, refl, ground arith, ground arith))
              (λ _. (λ p. cc, (w.requests + 1, refl)))))

failing-Runs :
    {A : Type 0} (G : A → Writer → Type 0) (F K : Error → Writer → Type 0)
    (r : Outcome Error A × Writer)
    → ((e : Error) (v : Writer) → F e v → Runs G K (writer_fail e v))
    → Runs G F r
    → Runs G K (failing r)
unfolding failing
failing-Runs G F K (ok a, v) f h = h
failing-Runs G F K (err e, v) f h = f e v h

value_step_refused : (s : Shape) → takes_value s ≡ false → value_step s ≡ none
unfolding value_step
value_step_refused s h = rw h refl

no_key :
    (key : Option Bytes) (keyed : Bool)
    → (is_some key ≡ true → keyed ≡ true)
    → keyed ≡ false
    → key ≡ none
no_key none keyed h no' = refl
no_key (some k) keyed h no' = cc (h refl)

-- Attaching a node: on success the call was in order and its effect on the shape is that of a
-- value; a STATE error means that it was not.
pub attach_node-Runs :
    (granted : ℕ → Bool) (kind : Kind) (w : Writer)
    → IsValid w
    → IsReady w
    → Runs (Attached kind w) (Fails (value_step (shape w) ≡ none)) (attach_node granted kind w)
unfolding attach_node value_step
attach_node-Runs granted kind w valid ready =
    let Refused = value_step (shape w) ≡ none in
    let same = may_attach-takes_value w in
    Runs-if (Fails Refused) (Attached kind w) (may_attach w) _ _
      (λ may.
        Runs-chain (Fails Refused) (Grown w) (Attached kind w) (failing (grow_nodes granted w)) _
          (failing-Runs (Grown w) (Cramped w) (Fails Refused) (grow_nodes granted w)
            (λ e v h.
              let (ne, (requests, same')) = h in
              rw same' (
                writer_fail-Fails Refused (Grown w) e (record w { requests = requests }) valid ready
                  (λ p. absurd (ne p))))
            (grow_nodes-Runs granted w valid))
          (λ u v grown.
            let (capacity, requests, same', room, most) = grown in
            rw same' (
              place-Runs (record w { node_capacity = capacity; requests = requests })
                (omega arith, most, valid.2, valid.3, valid.4) ready room (sym same ∙ may) granted
                kind (in_container object w) Refused
                (no_key w.pending_key (in_container object w) valid.4))))
      (λ refused.
        writer_fail-Fails Refused (Attached kind w) state w valid ready
          (λ _. value_step_refused (shape w) (sym same ∙ refused)))
