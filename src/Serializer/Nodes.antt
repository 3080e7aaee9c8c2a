-- ===== src/Serializer/Nodes.antt =====
-- `serialize_node` and `maelys_json_serialize` of src/serialize.c. A node is deeper in the tree
-- than its index is low, so the number of nodes is fuel enough; a node behind the fuel has no type.
pub mod Renders
pub mod Trees
pub mod Writes
use maelys_json.Base.{
  ℕ, zero, suc, ◌+◌, Bool, true, false, ◌&&◌, List, [], ◌∷◌, ◌++◌, Option, none, some, Bytes, codes,
  length, Outcome, ok, err, ◌>>=◌, if◌then◌else◌, ◌==◌,
}
use maelys_json.Document.{Links}
use maelys_json.Serializer.Buffer.{Serializer, append, append_byte, append_break}
use maelys_json.Serializer.Sort.{key_compare, sort_keys}
use maelys_json.Serializer.Text.{append_string, append_number}
use maelys_json.Types.{
  Error, memory, state, Kind, none_kind, object, array, string, number, boolean, null, Limits,
}
use maelys_json.Writer.State.{Node, Writer, Flags, node_at, node_count, bytes_of}

-- The children of a container, along the sibling links.
unfoldable pub child_walk : ℕ → Writer → Option ℕ → List ℕ
child_walk zero w child = []
child_walk (suc fuel) w none = []
child_walk (suc fuel) w (some child) =
    child ∷ child_walk fuel w (node_at w child).links.next_sibling

unfoldable pub children_of : Writer → Node → List ℕ
unfolding child_walk
children_of w node = child_walk (node_count w) w node.links.first_child

abbrev pub separator : (ℕ → Bool) → Bool → Serializer → Outcome Error Serializer
separator granted true s = ok s
separator granted false s = append_byte granted b',' s

-- The loops over the members and the elements; `first` is whether none was written.
unfoldable pub serialize_members :
    (ℕ → Bool)
    → (ℕ → Serializer → Outcome Error Serializer)
    → Writer
    → ℕ
    → Bool
    → List ℕ
    → Serializer
    → Outcome Error Serializer
serialize_members granted node w level first [] s = ok s
serialize_members granted node w level first (child ∷ children) s = do
  s ← separator granted first s
  s ← append_break granted (level + 1) s
  s ← append_string granted (bytes_of (node_at w child).key) s
  s ← append granted (codes (if s.indent then ": " else ":")) s
  s ← node child s
  serialize_members granted node w level false children s

unfoldable pub serialize_elements :
    (ℕ → Bool)
    → (ℕ → Serializer → Outcome Error Serializer)
    → ℕ
    → Bool
    → List ℕ
    → Serializer
    → Outcome Error Serializer
serialize_elements granted node level first [] s = ok s
serialize_elements granted node level first (child ∷ children) s = do
  s ← separator granted first s
  s ← append_break granted (level + 1) s
  s ← node child s
  serialize_elements granted node level false children s

-- The two arrays of `serialize_object`.
unfoldable pub take_arrays : (ℕ → Bool) → Serializer → Outcome Error Serializer
take_arrays granted s =
    if granted s.requests && granted (s.requests + 1)
    then ok (record s { requests = s.requests + 2 })
    else err memory

unfoldable pub serialize_object :
    (ℕ → Bool)
    → (ℕ → Serializer → Outcome Error Serializer)
    → Writer
    → Node
    → ℕ
    → Serializer
    → Outcome Error Serializer
serialize_object granted node w container level s =
    let members : Outcome Error Serializer = do
      s ← take_arrays granted s
      s ← append_byte granted b'{' s
      s ←
          serialize_members granted node w level true
            (sort_keys (key_compare w) (children_of w container)) s
      s ← append_break granted level s
      append_byte granted b'}' s
    in if container.links.child_count == 0 then append granted (codes "{}") s else members

unfoldable pub serialize_array :
    (ℕ → Bool)
    → (ℕ → Serializer → Outcome Error Serializer)
    → Writer
    → Node
    → ℕ
    → Serializer
    → Outcome Error Serializer
serialize_array granted node w container level s =
    let elements : Outcome Error Serializer = do
      s ← append_byte granted b'[' s
      s ← serialize_elements granted node level true (children_of w container) s
      s ← append_break granted level s
      append_byte granted b']' s
    in if container.links.child_count == 0 then append granted (codes "[]") s else elements

-- The branches of `serialize_node`, by the node's type.
unfoldable pub serialize_kind :
    (ℕ → Bool)
    → (ℕ → Serializer → Outcome Error Serializer)
    → Writer
    → Node
    → ℕ
    → Kind
    → Serializer
    → Outcome Error Serializer
serialize_kind granted node w n level object s = serialize_object granted node w n level s
serialize_kind granted node w n level array s = serialize_array granted node w n level s
serialize_kind granted node w n level string s = append_string granted (bytes_of n.string) s
serialize_kind granted node w n level number s = append_number granted n s
serialize_kind granted node w n level boolean s =
    append granted (codes (if n.boolean_value then "true" else "false")) s
serialize_kind granted node w n level null s = append granted (codes "null") s
serialize_kind granted node w n level none_kind s = err state

unfoldable pub serialize_node :
    ℕ → (ℕ → Bool) → Writer → ℕ → ℕ → Serializer → Outcome Error Serializer
serialize_node zero granted w index level s = err state
serialize_node (suc fuel) granted w index level s =
    serialize_kind granted (λ child. serialize_node fuel granted w child (level + 1)) w
      (node_at w index) level (node_at w index).kind s

abbrev pub new_serializer : Writer → Serializer
new_serializer w = record {
  bytes = [];
  capacity = 0;
  maximum = w.limits.maximum_bytes;
  indent = w.flags.indent;
  ascii = w.flags.ascii;
  requests = w.requests;
}

-- `maelys_json_serialize`; the bytes stand for the buffer and its size.
unfoldable pub serialize : (ℕ → Bool) → Writer → Outcome Error Bytes
serialize granted w = do
  s ← serialize_node (node_count w) granted w 0 0 (new_serializer w)
  s ← if w.flags.final_newline then append_byte granted b'\n' s else ok s
  ok s.bytes
