-- ===== src/Serializer/Nodes/Trees.antt =====
-- The trees that have a text: every node has a type, and children stand behind their parents.
use maelys_json.Base.{
  ℕ, zero, suc, ◌+◌, ◌≤◌, ◌<◌, ◌≡◌, ◌≢◌, refl, Bool, true, false, List, [], ◌∷◌, ◌++◌, Option, none,
  some, Bytes, All, ◌==◌, if◌then◌else◌, arith,
}
use maelys_json.Serializer.Buffer.Emits.{joined}
use maelys_json.Serializer.Nodes.{children_of}
use maelys_json.Serializer.Nodes.Renders.{
  render_members, render_elements, enclosed, render_kind, render_node, render,
}
use maelys_json.Serializer.Sort.{key_compare, sort_keys}
use maelys_json.Serializer.Sort.Laws.{sort_loop-All}
use maelys_json.Types.{Kind, none_kind, object, array, string, number, boolean, null}
use maelys_json.Writer.State.{Node, Writer, node_at, node_count}

abbrev pub IsBehind : Writer → ℕ → ℕ → Type 0
IsBehind w index child = (index < child) × (child < node_count w)

abbrev pub IsTree : Writer → Type 0
IsTree w =
    (index : ℕ)
    → index < node_count w
    → ((node_at w index).kind ≢ none_kind)
      × All (IsBehind w index) (children_of w (node_at w index))

abbrev HasText : Option Bytes → Type 0
HasText text = (out : Bytes) × (text ≡ some out)

HasText-joined : (x y : Option Bytes) → HasText x → HasText y → HasText (joined x y)
HasText-joined (some a) (some b) h k = (a ++ b, refl)
HasText-joined (some a) none h (out, e) = absurd (cc e)
HasText-joined none y (out, e) k = absurd (cc e)

HasText-some : (bytes : Bytes) → HasText (some bytes)
HasText-some bytes = (bytes, refl)

HasText-if : (b : Bool) (x y : Option Bytes) → HasText x → HasText y → HasText (if b then x else y)
HasText-if true x y h k = h
HasText-if false x y h k = k

module _ (indent ascii : Bool) (node : ℕ → Option Bytes) where
  abbrev Texts : List ℕ → Type 0
  Texts children = All (λ c. HasText (node c)) children

  members_text :
      (w : Writer) (level : ℕ) (first : Bool) (children : List ℕ)
      → Texts children
      → HasText (render_members indent ascii node w level first children)
  unfolding render_members
  members_text w level first [] h = HasText-some []
  members_text w level first (child ∷ children) (h, hs) =
      HasText-joined (some _) _ (HasText-some _) (
        HasText-joined (some _) _ (HasText-some _) (
          HasText-joined (some _) _ (HasText-some _) (
            HasText-joined (some _) _ (HasText-some _)
              (HasText-joined (node child) _ h (members_text w level false children hs)))))

  elements_text :
      (level : ℕ) (first : Bool) (children : List ℕ)
      → Texts children
      → HasText (render_elements indent ascii node level first children)
  unfolding render_elements
  elements_text level first [] h = HasText-some []
  elements_text level first (child ∷ children) (h, hs) =
      HasText-joined (some _) _ (HasText-some _) (
        HasText-joined (some _) _ (HasText-some _)
          (HasText-joined (node child) _ h (elements_text level false children hs)))

  enclosed_text :
      (opening closing level : ℕ) (inner : Option Bytes)
      → HasText inner
      → HasText (enclosed indent ascii opening closing level inner)
  enclosed_text opening closing level inner h =
      HasText-joined (some (opening ∷ [])) _ (HasText-some _)
        (HasText-joined inner _ h (HasText-some _))

  kind_text :
      (w : Writer) (n : Node) (level : ℕ) (kind : Kind)
      → kind ≢ none_kind
      → Texts (children_of w n)
      → HasText (render_kind indent ascii node w n level kind)
  unfolding render_kind sort_keys
  kind_text w n level object k h = HasText-if (n.links.child_count == 0) _ _ (HasText-some _) (
      enclosed_text b'{' b'}' level _ (
        members_text w level true (sort_keys (key_compare w) (children_of w n))
          (sort_loop-All (key_compare w) (λ c. HasText (node c)) _ (children_of w n) h)))
  kind_text w n level array k h =
      HasText-if (n.links.child_count == 0) _ _ (HasText-some _)
        (enclosed_text b'[' b']' level _ (elements_text level true (children_of w n) h))
  kind_text w n level string k h = HasText-some _
  kind_text w n level number k h = HasText-some _
  kind_text w n level boolean k h = HasText-some _
  kind_text w n level null k h = HasText-some _
  kind_text w n level none_kind k h = absurd (k refl)

All-implies : {P Q : ℕ → Type 0} (xs : List ℕ) → ((x : ℕ) → P x → Q x) → All P xs → All Q xs
All-implies [] f h = tt
All-implies (x ∷ xs) f (h, hs) = (f x h, All-implies xs f hs)

node_text :
    (indent ascii : Bool) (w : Writer) (fuel index level : ℕ)
    → IsTree w
    → index < node_count w
    → node_count w ≤ fuel + index
    → HasText (render_node indent ascii fuel w index level)
unfolding render_node
node_text indent ascii w zero index level tree h enough = absurd (omega arith)
node_text indent ascii w (suc fuel) index level tree h enough =
    let (typed, behind) = tree index h in
    kind_text indent ascii _ w (node_at w index) level (node_at w index).kind typed (
      All-implies (children_of w (node_at w index))
        (λ child b. node_text indent ascii w fuel child (level + 1) tree b.1 (omega (arith, b.0)))
        behind)

pub IsTree-render : (w : Writer) → 0 < node_count w → IsTree w → HasText (render w)
unfolding render
IsTree-render w pos tree =
    HasText-joined _ _
      (node_text w.flags.indent w.flags.ascii w (node_count w) 0 0 tree pos (omega arith))
      (HasText-if w.flags.final_newline _ _ (HasText-some _) (HasText-some _))
