-- ===== src/Serializer/Sort/Keys.antt =====
-- `compare_keys` of src/serialize.c orders the members of an object by the UTF-16 units of the keys.
use Prim.Native.Nat.{Ordering}
use mathlib.Core.List.{Perm}
use maelys_json.Base.{
  ℕ, ◌≡◌, refl, sym, ap, ap₂, ◌∙◌, Bool, true, false, List, [], ◌∷◌, All, length, arith,
}
use maelys_json.Serializer.Sort.{key_compare, not_after, sort_keys}
use maelys_json.Serializer.Sort.Laws.{IsOrder, IsSorted, Below, Sorts, sort_loop-Sorts}
use maelys_json.Utf8.Order.{utf16_compare}
use maelys_json.Utf8.Order.Units.{units, lex, utf16_compare-lex}
use maelys_json.Utf8.Scalars.{encode_all}
use maelys_json.Utf8.Sequence.{IsScalar}
use maelys_json.Writer.State.{Writer, node_at, bytes_of}

-- The key of a node is UTF-8.
pub record IsKey (w : Writer) (index : ℕ) : Type 0 where
  pub points : List ℕ
  pub scalars : All IsScalar points
  pub spells : bytes_of (node_at w index).key ≡ encode_all points

abbrev pub at_most : Ordering → Bool
at_most order = elim order [ Ordering.gt ↦ false | _ ↦ true ]

lex-total : (us vs : List ℕ) → at_most (lex us vs) ≡ false → at_most (lex vs us) ≡ true
unfolding lex
lex-total [] [] h = refl
lex-total [] (v ∷ vs) h = cc
lex-total (u ∷ us) [] h = refl
lex-total (u ∷ us) (v ∷ vs) h = ground (arith, lex-total us vs)

lex-at_most :
    (us vs ws : List ℕ)
    → at_most (lex us vs) ≡ true
    → at_most (lex vs ws) ≡ true
    → at_most (lex us ws) ≡ true
unfolding lex
lex-at_most [] [] ws h k = k
lex-at_most [] (v ∷ vs) [] h k = cc
lex-at_most [] (v ∷ vs) (w ∷ ws) h k = refl
lex-at_most (u ∷ us) [] ws h k = cc
lex-at_most (u ∷ us) (v ∷ vs) [] h k = cc
lex-at_most (u ∷ us) (v ∷ vs) (w ∷ ws) h k = ground (arith, lex-at_most us vs ws)

-- The units of one key are not above those of another.
abbrev pub IsAtMost : Writer → ℕ → ℕ → Type 0
IsAtMost w x y =
    (p : IsKey w x) × (q : IsKey w y) × (at_most (lex (units p.points) (units q.points)) ≡ true)

-- Each key is at most every key behind it.
abbrev pub IsAscending : Writer → List ℕ → Type 0
IsAscending w [] = Unit
IsAscending w (x ∷ xs) = All (IsAtMost w x) xs × IsAscending w xs

module _ (w : Writer) where
  not_after_lem :
      (x y : ℕ) (p : IsKey w x) (q : IsKey w y)
      → not_after (key_compare w) x y ≡ at_most (lex (units p.points) (units q.points))
  unfolding not_after key_compare
  not_after_lem x y p q = ap at_most (
      ap₂ utf16_compare p.spells q.spells ∙ utf16_compare-lex p.points q.points p.scalars q.scalars)

  key_compare-IsOrder : IsOrder (key_compare w) (IsKey w)
  key_compare-IsOrder = record {
    total = λ x y p q h.
        not_after_lem y x q p
        ∙ lex-total (units p.points) (units q.points) (sym (not_after_lem x y p q) ∙ h);
    trans = λ x y z p q r h k.
        not_after_lem x z p r
        ∙ lex-at_most (units p.points) (units q.points) (units r.points)
            (sym (not_after_lem x y p q) ∙ h) (sym (not_after_lem y z q r) ∙ k);
  }

  all-Below :
      (x : ℕ) (ys : List ℕ)
      → IsKey w x
      → All (IsKey w) ys
      → Below (key_compare w) x ys
      → All (IsAtMost w x) ys
  all-Below x [] p q h = tt
  all-Below x (y ∷ ys) p (q, qs) (h, hs) =
      ((p, q, sym (not_after_lem x y p q) ∙ h), all-Below x ys p qs hs)

  IsSorted-IsAscending :
      (xs : List ℕ) → All (IsKey w) xs → IsSorted (key_compare w) xs → IsAscending w xs
  IsSorted-IsAscending [] p h = tt
  IsSorted-IsAscending (x ∷ xs) (p, ps) (h, hs) =
      (all-Below x xs p ps h, IsSorted-IsAscending xs ps hs)

  -- Where the keys are UTF-8, the members come out rearranged, in ascending order of the UTF-16
  -- units of their keys.
  pub sort_keys-IsAscending :
      (values : List ℕ)
      → All (IsKey w) values
      → Perm (sort_keys (key_compare w) values) values
        × IsAscending w (sort_keys (key_compare w) values)
  unfolding sort_keys
  sort_keys-IsAscending values h =
      (sorts.same, IsSorted-IsAscending _ (sorts.stays h) (sorts.ascends h))
    where
      sorts :
          Sorts
            (key_compare w)
            (IsKey w)
            key_compare-IsOrder
            values
            (sort_keys (key_compare w) values)
      sorts =
          sort_loop-Sorts (key_compare w) (IsKey w) key_compare-IsOrder (length values) values
            (omega arith)
