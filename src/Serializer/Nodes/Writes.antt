-- ===== src/Serializer/Nodes/Writes.antt =====
-- src/serialize.c writes the text of the tree.
use maelys_json.Base.{
  ℕ, zero, suc, ◌+◌, ◌≤◌, ◌<◌, ◌≡◌, ◌⊎◌, inl, inr, refl, ap, subst, ◌∙◌, Bool, true, false, ◌&&◌,
  List, [], ◌∷◌, ◌++◌, Option, none, some, Bytes, codes, length, ◌==◌, Outcome, ok, err, ◌>>=◌,
  if◌then◌else◌, arith, Bool-cases,
}
use maelys_json.Serializer.Buffer.{Serializer, append, append_byte, append_break}
use maelys_json.Serializer.Buffer.Emits.{
  joined, Denied, Holds, Emits, Emits-bind, Emits-nothing, append-Emits, break_bytes,
  append_break-Emits, split_if,
}
use maelys_json.Serializer.Nodes.{
  children_of, separator, serialize_members, serialize_elements, take_arrays, serialize_object,
  serialize_array, serialize_kind, serialize_node, new_serializer, serialize,
}
use maelys_json.Serializer.Nodes.Renders.{
  colon, render_members, render_elements, render_kind, render_node, render,
}
use maelys_json.Serializer.Nodes.Trees.{IsTree, IsTree-render}
use maelys_json.Serializer.Sort.{key_compare, sort_keys}
use maelys_json.Serializer.Text.{append_string, number_bytes, append_number}
use maelys_json.Serializer.Text.Spells.{quoted, append_string-Emits}
use maelys_json.Types.{
  Error, memory, limit, Kind, none_kind, object, array, string, number, boolean, null, size_max,
}
use maelys_json.Writer.State.{Node, Writer, node_at, node_count, bytes_of}

-- A step that writes `out` wherever the buffer stands.
record Prints (granted : ℕ → Bool) (indent ascii : Bool) (maximum : ℕ) (out : Option Bytes)
    (step : Serializer → Outcome Error Serializer) : Type 0 where
  writes :
      (s : Serializer)
      → Holds granted indent ascii maximum s
      → Emits granted indent ascii maximum out s (step s)

joined_nothing : (x : Option Bytes) → joined (some []) x ≡ x
joined_nothing none = refl
joined_nothing (some bytes) = refl

denied : (granted : ℕ → Bool) (n m : ℕ) → (granted n && granted m) ≡ false → Denied granted
denied granted n m h = elim (Bool-cases (granted n)) [
  | inl e ↦ (m, ground (arith, h, e))
  | inr e ↦ (n, e)
]

module _ {granted : ℕ → Bool} {indent ascii : Bool} {maximum : ℕ} where
  infixr 6 ◌then_print◌
  ◌then_print◌ :
      {x y : Option Bytes} {f g : Serializer → Outcome Error Serializer}
      → Prints granted indent ascii maximum x f
      → Prints granted indent ascii maximum y g
      → Prints granted indent ascii maximum (joined x y) (λ s. f s >>= g)
  ◌then_print◌ {x = x} {y = y} {f = f} {g = g} p q = record {
    writes = λ s h. Emits-bind granted indent ascii maximum x y s (f s) g (p.writes s h) q.writes;
  }

  print_as :
      {x y : Option Bytes} {f : Serializer → Outcome Error Serializer}
      → x ≡ y
      → Prints granted indent ascii maximum x f
      → Prints granted indent ascii maximum y f
  print_as {f = f} e p = subst (λ z. Prints granted indent ascii maximum z f) e p

  print_bytes : (out : Bytes) → Prints granted indent ascii maximum (some out) (append granted out)
  print_bytes out = record { writes = λ s h. append-Emits granted indent ascii maximum out s h }

  print_break :
      (level : ℕ)
      → Prints granted indent ascii maximum
          (some (break_bytes indent level))
          (append_break granted level)
  print_break level = record {
    writes = λ s h. append_break-Emits granted indent ascii maximum level s h;
  }

  print_string :
      (bytes : Bytes)
      → Prints granted indent ascii maximum
          (some (quoted ascii bytes))
          (append_string granted bytes)
  print_string bytes = record {
    writes = λ s h. append_string-Emits granted indent ascii maximum bytes s h;
  }

  print_separator :
      (first : Bool)
      → Prints granted indent ascii maximum
          (some (if first then [] else b',' ∷ []))
          (separator granted first)
  print_separator true = record { writes = λ s h. Emits-nothing granted indent ascii maximum s h }
  print_separator false = print_bytes (b',' ∷ [])

  print_colon :
      Prints granted indent ascii maximum
        (some (colon indent ascii))
        (λ s. append granted (codes (if s.indent then ": " else ":")) s)
  print_colon = record {
    writes = λ s h.
        subst
          (λ i.
            Emits granted indent ascii maximum (some (codes (if i then ": " else ":"))) s
              (append granted (codes (if s.indent then ": " else ":")) s))
          h.0 (append-Emits granted indent ascii maximum _ s h);
  }

  print_arrays : Prints granted indent ascii maximum (some []) (take_arrays granted)
  unfolding take_arrays
  print_arrays = record {
    writes = λ s h.
        split_if (Emits granted indent ascii maximum (some []) s)
          (granted s.requests && granted (s.requests + 1)) _ _
          (λ _. Emits-nothing granted indent ascii maximum s h)
          (λ no'. inl (refl, denied granted s.requests (s.requests + 1) no'));
  }

  print_members :
      (step : ℕ → Serializer → Outcome Error Serializer) (spec : ℕ → Option Bytes) (w : Writer)
      (level : ℕ) (first : Bool) (children : List ℕ)
      → ((child : ℕ) → Prints granted indent ascii maximum (spec child) (step child))
      → Prints granted indent ascii maximum
          (render_members indent ascii spec w level first children)
          (serialize_members granted step w level first children)
  unfolding serialize_members render_members
  print_members step spec w level first [] c = record {
    writes = λ s h. Emits-nothing granted indent ascii maximum s h;
  }
  print_members step spec w level first (child ∷ children) c =
      let all =
        print_separator first
        then_print (print_break (level + 1)
            then_print (print_string (bytes_of (node_at w child).key)
                then_print (print_colon
                    then_print (c child
                        then_print print_members step spec w level false children c)))) in
      record { writes = λ s h. all.writes s h }

  print_elements :
      (step : ℕ → Serializer → Outcome Error Serializer) (spec : ℕ → Option Bytes) (level : ℕ)
      (first : Bool) (children : List ℕ)
      → ((child : ℕ) → Prints granted indent ascii maximum (spec child) (step child))
      → Prints granted indent ascii maximum
          (render_elements indent ascii spec level first children)
          (serialize_elements granted step level first children)
  unfolding serialize_elements render_elements
  print_elements step spec level first [] c = record {
    writes = λ s h. Emits-nothing granted indent ascii maximum s h;
  }
  print_elements step spec level first (child ∷ children) c =
      let all =
        print_separator first
        then_print (print_break (level + 1)
            then_print (c child then_print print_elements step spec level false children c)) in
      record { writes = λ s h. all.writes s h }

  -- The text of a container without children is short.
  print_if :
      (empty : Bool) (x y : Option Bytes) (f g : Serializer → Outcome Error Serializer)
      → Prints granted indent ascii maximum x f
      → Prints granted indent ascii maximum y g
      → Prints granted indent ascii maximum
          (if empty then x else y)
          (λ s. if empty then f s else g s)
  print_if true x y f g p q = record { writes = λ s h. p.writes s h }
  print_if false x y f g p q = record { writes = λ s h. q.writes s h }

  print_kind :
      (step : ℕ → Serializer → Outcome Error Serializer) (spec : ℕ → Option Bytes) (w : Writer)
      (n : Node) (level : ℕ) (kind : Kind)
      → ((child : ℕ) → Prints granted indent ascii maximum (spec child) (step child))
      → Prints granted indent ascii maximum
          (render_kind indent ascii spec w n level kind)
          (serialize_kind granted step w n level kind)
  unfolding serialize_kind serialize_object serialize_array render_kind append_number
  print_kind step spec w n level object c =
      let members =
        print_members step spec w level true (sort_keys (key_compare w) (children_of w n)) c in
      let all =
        print_arrays
        then_print (print_bytes (b'{' ∷ [])
            then_print (members
                then_print (print_break level then_print print_bytes (b'}' ∷ [])))) in
      let opened = print_as (joined_nothing _) all in
      let either = print_if (n.links.child_count == 0) _ _ _ _ (print_bytes (codes "{}")) opened in
      record { writes = λ s h. either.writes s h }
  print_kind step spec w n level array c =
      let elements = print_elements step spec level true (children_of w n) c in
      let all =
        print_bytes (b'[' ∷ [])
        then_print (elements then_print (print_break level then_print print_bytes (b']' ∷ []))) in
      let either = print_if (n.links.child_count == 0) _ _ _ _ (print_bytes (codes "[]")) all in
      record { writes = λ s h. either.writes s h }
  print_kind step spec w n level string c = print_string (bytes_of n.string)
  print_kind step spec w n level number c = print_bytes (number_bytes n)
  print_kind step spec w n level boolean c =
      print_bytes (codes (if n.boolean_value then "true" else "false"))
  print_kind step spec w n level null c = print_bytes (codes "null")
  print_kind step spec w n level none_kind c = record { writes = λ s h. tt }

  print_node :
      (fuel : ℕ) (w : Writer) (index level : ℕ)
      → Prints granted indent ascii maximum
          (render_node indent ascii fuel w index level)
          (serialize_node fuel granted w index level)
  unfolding serialize_node render_node
  print_node zero w index level = record { writes = λ s h. tt }
  print_node (suc fuel) w index level =
      print_kind _ _ w (node_at w index) level (node_at w index).kind
        (λ child. print_node fuel w child (level + 1))

>>=-assoc :
    {A B C : Type 0} (m : Outcome Error A) (f : A → Outcome Error B) (g : B → Outcome Error C)
    → ((m >>= f) >>= g) ≡ (m >>= λ a. f a >>= g)
>>=-assoc (ok a) f g = refl
>>=-assoc (err e) f g = refl

-- The text, within the limit; or some request for memory is not met; or the limit is too small.
abbrev pub Delivers : (ℕ → Bool) → ℕ → Bytes → Outcome Error Bytes → Type 0
Delivers granted maximum out (ok bytes) = (bytes ≡ out) × (length out ≤ maximum)
Delivers granted maximum out (err e) =
    ((e ≡ memory) × Denied granted) ⊎ ((e ≡ limit) × (maximum < length out))

delivered :
    (granted : ℕ → Bool) (indent ascii : Bool) (maximum : ℕ) (out : Bytes) (s : Serializer)
    (m : Outcome Error Serializer)
    → s.bytes ≡ []
    → Emits granted indent ascii maximum (some out) s m
    → Delivers granted maximum out (m >>= λ r. ok r.bytes)
delivered granted indent ascii maximum out s (ok r) e (h, holds) =
    let same : r.bytes ≡ out = h ∙ ap (λ x. x ++ out) e in (same, omega (arith, ap length same))
delivered granted indent ascii maximum out s (err x) e (inl h) = inl h
delivered granted indent ascii maximum out s (err x) e (inr (h, k)) =
    inr (h, omega (arith, ap length e))

text-Delivers :
    (granted : ℕ → Bool) (w : Writer) (out : Bytes)
    → render w ≡ some out
    → w.limits.maximum_bytes ≤ size_max
    → Delivers granted w.limits.maximum_bytes out (serialize granted w)
unfolding serialize render
text-Delivers granted w out text most =
    let maximum = w.limits.maximum_bytes in
    let print_end =
      print_if {granted = granted} {indent = w.flags.indent} {ascii = w.flags.ascii}
        {maximum = maximum} w.flags.final_newline (some (b'\n' ∷ [])) (some [])
        (append_byte granted b'\n') ok (print_bytes (b'\n' ∷ []))
        (record {
          writes = λ s h. Emits-nothing granted w.flags.indent w.flags.ascii maximum s h;
        }) in
    let all = print_as text (print_node (node_count w) w 0 0 then_print print_end) in
    let start = new_serializer w in
    let steps =
      delivered granted w.flags.indent w.flags.ascii maximum out start _ refl
        (all.writes start (refl, refl, refl, omega arith, omega arith, most)) in
    subst (Delivers granted maximum out)
      (>>=-assoc (serialize_node (node_count w) granted w 0 0 start) _ _) steps

-- Where the limit on bytes is a size_t, a tree that is not empty, whose nodes have types and whose
-- children stand behind their parents, has a text. Serializing it gives exactly that text, however
-- the buffer grows; or MEMORY, where some request is not met; or LIMIT, where the text is longer
-- than the limit.
pub serialize-Delivers :
    (granted : ℕ → Bool) (w : Writer)
    → 0 < node_count w
    → IsTree w
    → w.limits.maximum_bytes ≤ size_max
    → (out : Bytes) × (render w ≡ some out)
      × Delivers granted w.limits.maximum_bytes out (serialize granted w)
serialize-Delivers granted w pos tree most =
    let (out, text) = IsTree-render w pos tree in (out, text, text-Delivers granted w out text most)
