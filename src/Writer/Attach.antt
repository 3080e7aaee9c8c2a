-- ===== src/Writer/Attach.antt =====
-- `grow_nodes` and `attach_node` of src/writer.c. Whether the n-th request for memory is met is
-- the argument `granted`.
pub mod Runs
use maelys_json.Base.{
  ℕ, ◌+◌, ◌*◌, Bool, true, false, not, ◌&&◌, ◌||◌, List, [], ◌∷◌, ◌++◌, Option, none, some, Bytes,
  get_or, set, length, leb, ltb, ◌==◌, Outcome, ok, err, if◌then◌else◌,
}
use maelys_json.Document.{Links}
use maelys_json.Document.Access.{no_links}
use maelys_json.Keyset.{Keyset, keyset_insert}
use maelys_json.Types.{Error, state, limit, memory, Kind, object, Limits}
use maelys_json.Writer.State.{
  Node, Writer, no_node, node_at, node_count, Act, chain, ◌>>=◌, ◌>>◌, done, refuse, lift, is_some,
  writer_fail, node_key, current_container, in_container,
}

abbrev pub initial_nodes : ℕ
initial_nodes = 16

-- One request for memory: whether it is met, and the writer that counted it.
abbrev pub requested : Writer → Writer
requested w = record w { requests = w.requests + 1 }

unfoldable pub next_capacity : Writer → ℕ
next_capacity w =
    let capacity = if w.node_capacity == 0 then initial_nodes else w.node_capacity * 2 in
    if ltb w.limits.maximum_tokens capacity then w.limits.maximum_tokens else capacity

unfoldable pub grow_nodes : (ℕ → Bool) → Act (Unit {0})
grow_nodes granted w =
    if leb w.limits.maximum_tokens (node_count w)
    then (err limit, w)
    else if ltb (node_count w) w.node_capacity
    then (ok tt, w)
    else if granted w.requests
    then (ok tt, record (requested w) { node_capacity = next_capacity w })
    else (err memory, requested w)

-- `maelys_json_links_append` on the node array.
abbrev node_sibling : ℕ → Node → Node
node_sibling index n = record n { links = record (n.links) { next_sibling = some index } }

append_last : List Node → Option ℕ → ℕ → List Node
append_last nodes none index = nodes
append_last nodes (some last) index =
    set nodes last (node_sibling index (get_or nodes last no_node))

append_container : Node → ℕ → Node
append_container n index = record n {
  links = record (n.links) {
    first_child = elim n.links.last_child [ none ↦ some index | some _ ↦ n.links.first_child ];
    last_child = some index;
    child_count = n.links.child_count + 1;
  };
}

unfoldable pub append_child : List Node → Option ℕ → ℕ → List Node
unfolding append_last append_container
append_child nodes none index = nodes
append_child nodes (some parent) index =
    let container = get_or nodes parent no_node in
    set (append_last nodes container.links.last_child index) parent
      (append_container container index)

-- `writer_fail` for a step that has recorded nothing itself.
unfoldable pub failing : {A : Type 0} → Outcome Error A × Writer → Outcome Error A × Writer
failing (ok a, w) = (ok a, w)
failing (err e, w) = writer_fail e w

-- The writer with the new node, which has taken the pending key if the container is an object.
unfoldable pub new_node : Kind → Bool → Act (Unit {0})
new_node kind needs_key w =
    let node = record no_node {
      kind = kind;
      links = record no_links { parent = current_container w };
    } in
    if needs_key
    then (
      ok tt,
      record w { nodes = w.nodes ++ record node { key = w.pending_key } ∷ []; pending_key = none },
    )
    else (ok tt, record w { nodes = w.nodes ++ node ∷ [] })

with_keys : Outcome Error Keyset → Act (Unit {0})
with_keys (ok keys) w = (ok tt, record w { keys = keys })
with_keys (err e) w = writer_fail e w

insert_key : (ℕ → Bool) → ℕ → Act (Unit {0})
unfolding with_keys
insert_key granted index w =
    with_keys (keyset_insert (node_key w) (granted w.requests) w.keys index) (requested w)

-- A key of an object enters the key set.
unfoldable pub register_key : (ℕ → Bool) → Bool → ℕ → Act (Unit {0})
unfolding insert_key
register_key granted true index = insert_key granted index
register_key granted false index = done tt

unfoldable pub link_node : ℕ → Act ℕ
link_node index w =
    (ok index, record w { nodes = append_child w.nodes (current_container w) index })

-- Whether a value may stand here: the root is one, and a key stands before a value in an object
-- and nowhere else.
unfoldable pub may_attach : Writer → Bool
may_attach w =
    (is_some (current_container w) || node_count w == 0)
    && (if in_container object w then is_some w.pending_key else not (is_some w.pending_key))

unfoldable pub attach_node : (ℕ → Bool) → Kind → Act ℕ
attach_node granted kind w =
    let needs_key = in_container object w in
    let index = node_count w in
    let add : Act ℕ = do
      (λ v. failing (grow_nodes granted v))
      new_node kind needs_key
      register_key granted needs_key index
      link_node index
    in if may_attach w then add w else writer_fail state w
