-- ===== src/Serializer/Nodes/Renders.antt =====
-- The text of a tree, with no buffer, and that src/serialize.c writes it.
use maelys_json.Base.{
  ℕ, zero, suc, ◌+◌, Bool, true, false, List, [], ◌∷◌, ◌++◌, Option, none, some, Bytes, codes, ◌==◌,
  if◌then◌else◌,
}
use maelys_json.Serializer.Buffer.Emits.{joined, break_bytes}
use maelys_json.Serializer.Nodes.{children_of}
use maelys_json.Serializer.Sort.{key_compare, sort_keys}
use maelys_json.Serializer.Text.{number_bytes}
use maelys_json.Serializer.Text.Spells.{quoted}
use maelys_json.Types.{Kind, none_kind, object, array, string, number, boolean, null}
use maelys_json.Writer.State.{Node, Writer, node_at, node_count, bytes_of}

module _ (indent ascii : Bool) where
  -- What stands before a child.
  abbrev pub lead : Bool → ℕ → Bytes
  lead first level = (if first then [] else b',' ∷ []) ++ break_bytes indent (level + 1)

  abbrev pub colon : Bytes
  colon = codes (if indent then ": " else ":")

  unfoldable pub render_members : (ℕ → Option Bytes) → Writer → ℕ → Bool → List ℕ → Option Bytes
  render_members node w level first [] = some []
  render_members node w level first (child ∷ children) =
      joined (some (if first then [] else b',' ∷ [])) (
        joined (some (break_bytes indent (level + 1))) (
          joined (some (quoted ascii (bytes_of (node_at w child).key))) (
            joined (some colon)
              (joined (node child) (render_members node w level false children)))))

  unfoldable pub render_elements : (ℕ → Option Bytes) → ℕ → Bool → List ℕ → Option Bytes
  render_elements node level first [] = some []
  render_elements node level first (child ∷ children) =
      joined (some (if first then [] else b',' ∷ [])) (
        joined (some (break_bytes indent (level + 1)))
          (joined (node child) (render_elements node level false children)))

  -- The text of a container around that of its children.
  abbrev pub enclosed : ℕ → ℕ → ℕ → Option Bytes → Option Bytes
  enclosed opening closing level inner =
      joined (some (opening ∷ []))
        (joined inner (joined (some (break_bytes indent level)) (some (closing ∷ []))))

  unfoldable pub render_kind : (ℕ → Option Bytes) → Writer → Node → ℕ → Kind → Option Bytes
  render_kind node w n level object =
      if n.links.child_count == 0
      then some (codes "{}")
      else enclosed b'{' b'}' level
          (render_members node w level true (sort_keys (key_compare w) (children_of w n)))
  render_kind node w n level array =
      if n.links.child_count == 0
      then some (codes "[]")
      else enclosed b'[' b']' level (render_elements node level true (children_of w n))
  render_kind node w n level string = some (quoted ascii (bytes_of n.string))
  render_kind node w n level number = some (number_bytes n)
  render_kind node w n level boolean = some (codes (if n.boolean_value then "true" else "false"))
  render_kind node w n level null = some (codes "null")
  render_kind node w n level none_kind = none

  unfoldable pub render_node : ℕ → Writer → ℕ → ℕ → Option Bytes
  render_node zero w index level = none
  render_node (suc fuel) w index level =
      render_kind (λ child. render_node fuel w child (level + 1)) w (node_at w index) level
        (node_at w index).kind

-- The text of a writer's tree under its flags.
unfoldable pub render : Writer → Option Bytes
render w =
    joined (render_node w.flags.indent w.flags.ascii (node_count w) w 0 0)
      (if w.flags.final_newline then some (b'\n' ∷ []) else some [])
