-- ===== src/Writer/Copy/Enough.antt =====
-- The depth of `copy_value` of src/writer.c where children stand behind their parent, as the parser
-- lays the tokens out.
use maelys_json.Base.{
  ℕ, zero, suc, ◌+◌, ◌*◌, ◌/◌, ◌≤◌, ◌<◌, ◌≡◌, inl, inr, refl, ap, ◌∙◌, Bool, false, Bytes, Outcome,
  ok, err, length, arith, Bool-cases, leb, ltb,
}
use maelys_json.Canonical.Fuel.{IsNested}
use maelys_json.Document.{Document}
use maelys_json.Document.Access.{
  value_type, token_of, token_at, child_at, same_kind, object_size, object_member_at, array_size,
  array_get,
}
use maelys_json.Types.{Error, Kind, none_kind, object, array, string, number, boolean, null}
use maelys_json.Writer.Calls.{container_begin, container_end, writer_key}
use maelys_json.Writer.Copy.{
  copy_members, copy_elements, copy_object, copy_array, copy_kind, copy_value,
}
use maelys_json.Writer.Copy.Replay.{chain-same}
use maelys_json.Writer.State.{Writer, Act, chain, ◌>>=◌, lift}

member_behind :
    (d : Document) (o i : ℕ) (m : Bytes × ℕ) → IsNested d → object_member_at d o i ≡ ok m → o < m.1
unfolding object_member_at token_of
member_behind d o i m nested h = elim (Bool-cases (leb (length d.tokens) o)) [
  | inl e ↦ absurd (cc (rw e at h))
  | inr e ↦ elim (Bool-cases (same_kind (token_at d o).kind object)) [
    | inr k ↦ absurd (cc (rw (e, k) at h))
    | inl k ↦ elim (Bool-cases (leb ((token_at d o).links.child_count / 2) i)) [
      | inl b ↦ absurd (cc (rw (e, k, b) at h))
      | inr b ↦
          let below : 2 * i + 1 < (token_at d o).links.child_count = ground (arith, b) in
          let same : child_at d (token_at d o) (2 * i + 1) ≡ m.1 = cc (rw (e, k, b) at h) in
          omega (arith, nested o (2 * i + 1) below, same)
    ]
  ]
]

element_behind : (d : Document) (a i v : ℕ) → IsNested d → array_get d a i ≡ ok v → a < v
unfolding array_get token_of
element_behind d a i v nested h = elim (Bool-cases (leb (length d.tokens) a)) [
  | inl e ↦ absurd (cc (rw e at h))
  | inr e ↦ elim (Bool-cases (same_kind (token_at d a).kind array)) [
    | inr k ↦ absurd (cc (rw (e, k) at h))
    | inl k ↦ elim (Bool-cases (leb (token_at d a).links.child_count i)) [
      | inl b ↦ absurd (cc (rw (e, k, b) at h))
      | inr b ↦
          let below : i < (token_at d a).links.child_count = ground (arith, b) in
          let same : child_at d (token_at d a) i ≡ v = cc (rw (e, k, b) at h) in
          omega (arith, nested a i below, same)
    ]
  ]
]

lift-same :
    {A : Type 0} (r : Outcome Error A) (f g : A → Act (Unit {0})) (w : Writer)
    → ((x : A) → r ≡ ok x → (v : Writer) → f x v ≡ g x v)
    → (lift r >>= f) w ≡ (lift r >>= g) w
lift-same (ok x) f g w h = h x refl w
lift-same (err e) f g w h = refl

module _ (granted : ℕ → Bool) (d : Document) (nested : IsNested d) (f g : ℕ → Act (Unit {0}))
    (o : ℕ) (h : (v : ℕ) → o < v → (w : Writer) → f v w ≡ g v w) where
  members_same :
      (i left : ℕ) (w : Writer)
      → copy_members granted f d o i left w ≡ copy_members granted g d o i left w
  unfolding copy_members
  members_same i zero w = refl
  members_same i (suc left) w = lift-same (object_member_at d o i) _ _ w (λ m e v.
      chain-same (writer_key granted m.0 v) _ _ (λ _ u.
        ap (λ r. chain r (λ _. copy_members granted f d o (i + 1) left))
          (h m.1 (member_behind d o i m nested e) u)
        ∙ chain-same (g m.1 u) _ _ (λ _ t. members_same (i + 1) left t)))

  elements_same :
      (i left : ℕ) (w : Writer) → copy_elements f d o i left w ≡ copy_elements g d o i left w
  unfolding copy_elements
  elements_same i zero w = refl
  elements_same i (suc left) w = lift-same (array_get d o i) _ _ w (λ v e u.
      ap (λ r. chain r (λ _. copy_elements f d o (i + 1) left))
        (h v (element_behind d o i v nested e) u)
      ∙ chain-same (g v u) _ _ (λ _ t. elements_same (i + 1) left t))

  kind_same :
      (kind : Kind) (w : Writer) → copy_kind granted f d o kind w ≡ copy_kind granted g d o kind w
  unfolding copy_kind copy_object copy_array
  kind_same object w = lift-same (object_size d o) _ _ w (λ n e v.
      chain-same (container_begin granted object v) _ _
        (λ _ u. ap (λ r. chain r (λ _. container_end object)) (members_same 0 n u)))
  kind_same array w = lift-same (array_size d o) _ _ w (λ n e v.
      chain-same (container_begin granted array v) _ _
        (λ _ u. ap (λ r. chain r (λ _. container_end array)) (elements_same 0 n u)))
  kind_same string w = refl
  kind_same number w = refl
  kind_same boolean w = refl
  kind_same null w = refl
  kind_same none_kind w = refl

copy_behind :
    (granted : ℕ → Bool) (d : Document) (fuel value : ℕ) (w : Writer)
    → length d.tokens ≤ value
    → copy_value fuel granted d value w ≡ copy_value 0 granted d value w
unfolding copy_value copy_kind value_type
copy_behind granted d zero value w h = refl
copy_behind granted d (suc fuel) value w h =
    let outside : ltb value (length d.tokens) ≡ false = ground (arith, h) in rw outside refl

-- Where children stand behind their parents, the tokens from a value on are fuel enough to copy it:
-- more fuel changes neither the answer nor the writer.
pub copy_value-enough :
    (granted : ℕ → Bool) (d : Document) (fuel more value : ℕ) (w : Writer)
    → IsNested d
    → length d.tokens ≤ fuel + value
    → fuel ≤ more
    → copy_value more granted d value w ≡ copy_value fuel granted d value w
unfolding copy_value
copy_value-enough granted d zero more value w nested enough le =
    copy_behind granted d more value w (omega arith)
copy_value-enough granted d (suc fuel) zero value w nested enough le = absurd (omega arith)
copy_value-enough granted d (suc fuel) (suc more) value w nested enough le =
    kind_same granted d nested (copy_value more granted d) (copy_value fuel granted d) value
      (λ v behind u.
        copy_value-enough granted d fuel more v u nested (omega (arith, behind)) (omega arith))
      (value_type d value) w
