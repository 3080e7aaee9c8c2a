-- ===== src/Serializer/Sort.antt =====
-- `sort_keys` and `merge_keys` of src/serialize.c. A segment of the array of indices is a list; a
-- merge goes through the scratch array and comes back to the same segment.
pub mod Laws
pub mod Keys
use maelys_json.Base.{
  ℕ, zero, suc, ◌+◌, ◌/◌, Bool, true, false, List, [], ◌∷◌, ◌++◌, Bytes, length, take, drop, ltb,
  if◌then◌else◌,
}
use Prim.Native.Nat.{Ordering}
use maelys_json.Utf8.Order.{utf16_compare}
use maelys_json.Writer.State.{Writer, node_at, bytes_of}

unfoldable pub key_compare : Writer → ℕ → ℕ → Ordering
key_compare w left right =
    utf16_compare (bytes_of (node_at w left).key) (bytes_of (node_at w right).key)

-- `key_compare(…) <= 0`
unfoldable pub not_after : (ℕ → ℕ → Ordering) → ℕ → ℕ → Bool
not_after order left right = elim (order left right) [ Ordering.gt ↦ false | _ ↦ true ]

-- A round for each output.
unfoldable pub merge_keys : ℕ → (ℕ → ℕ → Ordering) → List ℕ → List ℕ → List ℕ
merge_keys zero order left right = []
merge_keys (suc fuel) order [] [] = []
merge_keys (suc fuel) order (l ∷ left) [] = l ∷ merge_keys fuel order left []
merge_keys (suc fuel) order [] (r ∷ right) = r ∷ merge_keys fuel order [] right
merge_keys (suc fuel) order (l ∷ left) (r ∷ right) = elim (not_after order l r) [
  | true ↦ l ∷ merge_keys fuel order left (r ∷ right)
  | false ↦ r ∷ merge_keys fuel order (l ∷ left) right
]

-- The halves are shorter, so the length is fuel enough.
unfoldable pub sort_loop : ℕ → (ℕ → ℕ → Ordering) → List ℕ → List ℕ
sort_loop zero order values = values
sort_loop (suc fuel) order values =
    let middle = length values / 2 in
    let sorted =
      merge_keys (length values) order (sort_loop fuel order (take middle values))
        (sort_loop fuel order (drop middle values)) in
    if ltb (length values) 2 then values else sorted

unfoldable pub sort_keys : (ℕ → ℕ → Ordering) → List ℕ → List ℕ
unfolding sort_loop
sort_keys order values = sort_loop (length values) order values
