-- ===== src/Tests/Serializer.antt =====
-- src/serialize.c, and the end of src/writer.c, at concrete inputs.
use mathlib.Core.List.{Perm}
use maelys_json.Base.{
  ℕ, zero, suc, Bytes, ◌≡◌, refl, [], ◌∷◌, codes, some, Bool, true, false, arith,
}
use maelys_json.Document.Access.{no_links}
use maelys_json.Keyset.{allocate_slots}
use maelys_json.Serializer.Nodes.{children_of, child_walk, serialize}
use maelys_json.Serializer.Nodes.Renders.{render}
use maelys_json.Serializer.Nodes.Trees.{IsTree}
use maelys_json.Serializer.Nodes.Writes.{Delivers, serialize-Delivers}
use maelys_json.Serializer.Sort.{key_compare, sort_keys}
use maelys_json.Serializer.Sort.Keys.{IsKey, IsAscending, sort_keys-IsAscending}
use maelys_json.Types.{rfc8259, Kind}
use maelys_json.Utf8.Points.{encode_utf8}
use maelys_json.Utf8.Scalars.{encode_all}
use maelys_json.Writer.Calls.{new_writer}
use maelys_json.Writer.Finish.{writer_finish, Finishes, Unfinished, writer_finish-Finishes}
use maelys_json.Writer.State.Runs.{Runs}
use maelys_json.Writer.State.{Writer, no_node}

always : ℕ → Bool
always n = true

-- The tree of {"b":null,"a":true}, with its newline.
abbrev tree : Writer
tree =
    record (new_writer rfc8259 (record { final_newline = true; indent = false; ascii = false })
      (record { maximum_bytes = 1000; maximum_depth = 10; maximum_tokens = 100 })
      (record { slots = allocate_slots 32; capacity = 32; count = 0 })) {
        nodes =
            record no_node {
              kind = Kind.object;
              links = record no_links {
                first_child = some 1;
                last_child = some 2;
                child_count = 2;
              };
            }
            ∷ record no_node {
              kind = Kind.null;
              key = some (codes "b");
              links = record no_links { parent = some 0; next_sibling = some 2 };
            }
            ∷ record no_node {
              kind = Kind.boolean;
              boolean_value = true;
              key = some (codes "a");
              links = record no_links { parent = some 0 };
            }
            ∷ [];
      }

tree-IsTree : IsTree tree
unfolding children_of child_walk
tree-IsTree zero h = (λ e. cc e, ((omega arith, omega arith), ((omega arith, omega arith), tt)))
tree-IsTree (suc zero) h = (λ e. cc e, tt)
tree-IsTree (suc (suc zero)) h = (λ e. cc e, tt)
tree-IsTree (suc (suc (suc i))) h = absurd (omega arith)

serialize-Delivers_example :
    (out : Bytes) × (render tree ≡ some out)
    × Delivers always tree.limits.maximum_bytes out (serialize always tree)
serialize-Delivers_example = serialize-Delivers always tree (omega arith) tree-IsTree (omega arith)

writer_finish-Finishes_example :
    Runs (Finishes tree) (Unfinished always tree) (writer_finish always tree)
writer_finish-Finishes_example =
    writer_finish-Finishes always tree (refl, refl) tree-IsTree (omega arith)

key_b : IsKey tree 1
key_b = record {
  points = codes "b";
  scalars = omega arith;
  spells = unfold encode_all encode_utf8 in refl;
}

key_a : IsKey tree 2
key_a = record {
  points = codes "a";
  scalars = omega arith;
  spells = unfold encode_all encode_utf8 in refl;
}

sort_keys-IsAscending_example :
    Perm (sort_keys (key_compare tree) (1 ∷ 2 ∷ [])) (1 ∷ 2 ∷ [])
    × IsAscending tree (sort_keys (key_compare tree) (1 ∷ 2 ∷ []))
sort_keys-IsAscending_example = sort_keys-IsAscending tree (1 ∷ 2 ∷ []) (key_b, (key_a, tt))
