-- ===== src/Serializer/Sort/Laws.antt =====
-- The merge sort of src/serialize.c sorts: its result is ascending and holds the same indices.
use maelys_json.Base.{
  ℕ, zero, suc, ◌+◌, ◌-◌, ◌/◌, ◌≤◌, ◌≡◌, refl, sym, subst, ap, ◌∙◌, true, false, List, [], ◌∷◌,
  ◌++◌, length, length-append, take, drop, All, All-append_left, All-append_right, ltb, arith,
  Bool-cases, inl, inr,
}
use Prim.Native.Nat.{Ordering}
use mathlib.Core.List.{Perm, perm_middle}
use mathlib.Core.List.Perm
use maelys_json.Serializer.Sort.{not_after, merge_keys, sort_loop}

-- What the sort needs of the order, on the indices that it is used for.
pub record IsOrder (order : ℕ → ℕ → Ordering) (P : ℕ → Type 0) : Type 0 where
  pub total : (x y : ℕ) → P x → P y → not_after order x y ≡ false → not_after order y x ≡ true
  pub trans :
      (x y z : ℕ)
      → P x
      → P y
      → P z
      → not_after order x y ≡ true
      → not_after order y z ≡ true
      → not_after order x z ≡ true

abbrev pub Below : (ℕ → ℕ → Ordering) → ℕ → List ℕ → Type 0
Below order x ys = All (λ y. not_after order x y ≡ true) ys

abbrev pub IsSorted : (ℕ → ℕ → Ordering) → List ℕ → Type 0
IsSorted order [] = Unit
IsSorted order (x ∷ xs) = Below order x xs × IsSorted order xs

take-append-drop : (n : ℕ) (xs : List ℕ) → take n xs ++ drop n xs ≡ xs
take-append-drop zero xs = refl
take-append-drop (suc n) [] = refl
take-append-drop (suc n) (x ∷ xs) = ap (λ t. x ∷ t) (take-append-drop n xs)

length-take-drop : (n : ℕ) (xs : List ℕ) → length (take n xs) + length (drop n xs) ≡ length xs
length-take-drop n xs =
    sym (length-append (take n xs) (drop n xs)) ∙ ap length (take-append-drop n xs)

length-take-le : (n : ℕ) (xs : List ℕ) → length (take n xs) ≤ n
length-take-le zero xs = omega arith
length-take-le (suc n) [] = omega arith
length-take-le (suc n) (x ∷ xs) = omega (arith, length-take-le n xs)

length-drop-eq : (n : ℕ) (xs : List ℕ) → length (drop n xs) ≡ length xs - n
length-drop-eq zero xs = omega arith
length-drop-eq (suc n) [] = omega arith
length-drop-eq (suc n) (x ∷ xs) = omega (arith, length-drop-eq n xs)

module _ (order : ℕ → ℕ → Ordering) where
  merge_left :
      (fuel l r : ℕ) (left right : List ℕ)
      → not_after order l r ≡ true
      → merge_keys (suc fuel) order (l ∷ left) (r ∷ right)
        ≡ l ∷ merge_keys fuel order left (r ∷ right)
  unfolding merge_keys
  merge_left fuel l r left right e = rw (e, merge_keys) refl

  merge_right :
      (fuel l r : ℕ) (left right : List ℕ)
      → not_after order l r ≡ false
      → merge_keys (suc fuel) order (l ∷ left) (r ∷ right)
        ≡ r ∷ merge_keys fuel order (l ∷ left) right
  unfolding merge_keys
  merge_right fuel l r left right e = rw (e, merge_keys) refl

  merge-perm :
      (fuel : ℕ) (left right : List ℕ)
      → length left + length right ≤ fuel
      → Perm (merge_keys fuel order left right) (left ++ right)
  unfolding merge_keys
  merge-perm zero [] [] h = Perm.rfl
  merge-perm zero [] (r ∷ right) h = absurd (omega arith)
  merge-perm zero (l ∷ left) right h = absurd (omega arith)
  merge-perm (suc fuel) [] [] h = Perm.rfl
  merge-perm (suc fuel) (l ∷ left) [] h = Perm.cons l (merge-perm fuel left [] (omega arith))
  merge-perm (suc fuel) [] (r ∷ right) h = Perm.cons r (merge-perm fuel [] right (omega arith))
  merge-perm (suc fuel) (l ∷ left) (r ∷ right) h = elim (Bool-cases (not_after order l r)) [
    | inl e ↦
        rw (merge_left fuel l r left right e)
          (Perm.cons l (merge-perm fuel left (r ∷ right) (omega arith)))
    | inr e ↦ rw (merge_right fuel l r left right e) (
        Perm.trans (Perm.cons r (merge-perm fuel (l ∷ left) right (omega arith)))
          (Perm.symm (perm_middle (l ∷ left) right)))
  ]

  length-merge :
      (fuel : ℕ) (left right : List ℕ)
      → length left + length right ≤ fuel
      → length (merge_keys fuel order left right) ≡ length left + length right
  unfolding merge_keys
  length-merge zero left right h = omega arith
  length-merge (suc fuel) [] [] h = refl
  length-merge (suc fuel) (l ∷ left) [] h = omega (arith, length-merge fuel left [] (omega arith))
  length-merge (suc fuel) [] (r ∷ right) h = omega (arith, length-merge fuel [] right (omega arith))
  length-merge (suc fuel) (l ∷ left) (r ∷ right) h = elim (Bool-cases (not_after order l r)) [
    | inl e ↦
        rw (merge_left fuel l r left right e)
          (omega (arith, length-merge fuel left (r ∷ right) (omega arith)))
    | inr e ↦
        rw (merge_right fuel l r left right e)
          (omega (arith, length-merge fuel (l ∷ left) right (omega arith)))
  ]

  merge-All :
      (Q : ℕ → Type 0) (fuel : ℕ) (left right : List ℕ)
      → All Q left
      → All Q right
      → All Q (merge_keys fuel order left right)
  unfolding merge_keys
  merge-All Q zero left right h k = tt
  merge-All Q (suc fuel) [] [] h k = tt
  merge-All Q (suc fuel) (l ∷ left) [] h k = (h.0, merge-All Q fuel left [] h.1 k)
  merge-All Q (suc fuel) [] (r ∷ right) h k = (k.0, merge-All Q fuel [] right h k.1)
  merge-All Q (suc fuel) (l ∷ left) (r ∷ right) h k = elim (Bool-cases (not_after order l r)) [
    | inl e ↦ rw (merge_left fuel l r left right e) (h.0, merge-All Q fuel left (r ∷ right) h.1 k)
    | inr e ↦ rw (merge_right fuel l r left right e) (k.0, merge-All Q fuel (l ∷ left) right h k.1)
  ]

  pub sort_loop-All :
      (Q : ℕ → Type 0) (fuel : ℕ) (values : List ℕ)
      → All Q values
      → All Q (sort_loop fuel order values)
  unfolding sort_loop
  sort_loop-All Q zero values h = h
  sort_loop-All Q (suc fuel) values h = elim (Bool-cases (ltb (length values) 2)) [
    | inl e ↦ rw (e, sort_loop) h
    | inr e ↦
        let middle = length values / 2 in
        let whole = subst (All Q) (sym (take-append-drop middle values)) h in
        rw (e, sort_loop)
          (merge-All Q (length values) _ _
            (sort_loop-All Q fuel (take middle values)
              (All-append_left Q (take middle values) (drop middle values) whole))
            (sort_loop-All Q fuel (drop middle values)
              (All-append_right Q (take middle values) (drop middle values) whole)))
  ]

  module _ (P : ℕ → Type 0) (o : IsOrder order P) where
    Below-trans :
        (x y : ℕ) (zs : List ℕ)
        → P x
        → P y
        → All P zs
        → not_after order x y ≡ true
        → Below order y zs
        → Below order x zs
    Below-trans x y [] px py pz h k = tt
    Below-trans x y (z ∷ zs) px py pz h k =
        (o.trans x y z px py pz.0 h k.0, Below-trans x y zs px py pz.1 h k.1)

    merge-IsSorted :
        (fuel : ℕ) (left right : List ℕ)
        → All P left
        → All P right
        → IsSorted order left
        → IsSorted order right
        → IsSorted order (merge_keys fuel order left right)
    unfolding merge_keys
    merge-IsSorted zero left right pl pr sl sr = tt
    merge-IsSorted (suc fuel) [] [] pl pr sl sr = tt
    merge-IsSorted (suc fuel) (l ∷ left) [] pl pr sl sr =
        (merge-All _ fuel left [] sl.0 tt, merge-IsSorted fuel left [] pl.1 pr sl.1 sr)
    merge-IsSorted (suc fuel) [] (r ∷ right) pl pr sl sr =
        (merge-All _ fuel [] right tt sr.0, merge-IsSorted fuel [] right pl pr.1 sl sr.1)
    merge-IsSorted (suc fuel) (l ∷ left) (r ∷ right) pl pr sl sr =
        elim (Bool-cases (not_after order l r)) [
          | inl e ↦ rw (merge_left fuel l r left right e) (
            merge-All (λ y. not_after order l y ≡ true) fuel left (r ∷ right) sl.0
                (e, Below-trans l r right pl.0 pr.0 pr.1 e sr.0),
            merge-IsSorted fuel left (r ∷ right) pl.1 pr sl.1 sr,
          )
          | inr e ↦
              let back = o.total l r pl.0 pr.0 e in
              rw (merge_right fuel l r left right e) (
                merge-All (λ y. not_after order r y ≡ true) fuel (l ∷ left) right
                    (back, Below-trans r l left pr.0 pl.0 pl.1 back sl.0) sr.0,
                merge-IsSorted fuel (l ∷ left) right pl pr.1 sl sr.1,
              )
        ]

    sort_short : (values : List ℕ) → ltb (length values) 2 ≡ true → IsSorted order values
    sort_short [] h = tt
    sort_short (x ∷ []) h = (tt, tt)
    sort_short (x ∷ y ∷ values) h = absurd (ground arith)

    -- The same indices; ascending, where the order is one on them.
    pub record Sorts (values out : List ℕ) : Type 0 where
      pub size : length out ≡ length values
      pub same : Perm out values
      pub stays : All P values → All P out
      pub ascends : All P values → IsSorted order out

    sort_halves :
        (n : ℕ) (values left right : List ℕ)
        → Sorts (take n values) left
        → Sorts (drop n values) right
        → Sorts values (merge_keys (length values) order left right)
    sort_halves n values left right l r = record {
      size = omega (arith, length-merge (length values) left right fits, halves);
      same = Perm.trans (merge-perm (length values) left right fits) (
          subst (λ t. Perm (left ++ right) t) (take-append-drop n values)
            (Perm.append l.same r.same));
      stays = λ h. merge-All P (length values) left right (l.stays (below h)) (r.stays (above h));
      ascends = λ h.
          merge-IsSorted (length values) left right (l.stays (below h)) (r.stays (above h))
            (l.ascends (below h)) (r.ascends (above h));
    }
      where
        halves : length left + length right ≡ length values
        halves = omega (arith, l.size, r.size, length-take-drop n values)

        fits : length left + length right ≤ length values
        fits = omega (arith, halves)

        whole : All P values → All P (take n values ++ drop n values)
        whole h = subst (All P) (sym (take-append-drop n values)) h

        below : All P values → All P (take n values)
        below h = All-append_left P (take n values) (drop n values) (whole h)

        above : All P values → All P (drop n values)
        above h = All-append_right P (take n values) (drop n values) (whole h)

    pub sort_loop-Sorts :
        (fuel : ℕ) (values : List ℕ)
        → length values ≤ fuel
        → Sorts values (sort_loop fuel order values)
    unfolding sort_loop
    sort_loop-Sorts zero [] h = record {
      size = refl;
      same = Perm.rfl;
      stays = λ p. p;
      ascends = λ p. tt;
    }
    sort_loop-Sorts zero (x ∷ values) h = absurd (omega arith)
    sort_loop-Sorts (suc fuel) values h = elim (Bool-cases (ltb (length values) 2)) [
      | inl e ↦
          rw (e, sort_loop)
            (record {
              size = refl;
              same = Perm.rfl;
              stays = λ p. p;
              ascends = λ p. sort_short values e;
            })
      | inr e ↦
          let long : 2 ≤ length values = ground arith in
          let middle = length values / 2 in
          rw (e, sort_loop)
            (sort_halves middle values _ _
              (sort_loop-Sorts fuel (take middle values)
                (omega (arith, length-take-le middle values)))
              (sort_loop-Sorts fuel (drop middle values)
                (omega (arith, length-drop-eq middle values))))
    ]
