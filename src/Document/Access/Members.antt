-- ===== src/Document/Access/Members.antt =====
-- Lookup by key against access by index.
use maelys_json.Base.{
  ℕ, zero, suc, ◌+◌, ◌*◌, ◌/◌, ◌≤◌, ◌<◌, ◌≡◌, ◌≢◌, ◌↔◌, inl, inr, refl, true, false, ◌∷◌, Bytes,
  ltb, leb, ◌==◌, ok, err, >>=-eq-ok, arith, Bool-cases, ==_iff, Outcome-cases, ltb→lt, sym, ap,
  ◌∙◌,
}
use maelys_json.Document.{Token, Document}
use maelys_json.Document.Access.{
  same_bytes, text_of, token_at, token_of, child_at, find_member, object_get, object_size,
  object_member_at,
}
use maelys_json.Types.{Error, not_found, object}

pub same_bytes_iff : (a b : Bytes) → (same_bytes a b ≡ true) ↔ (a ≡ b)
unfolding same_bytes
same_bytes_iff (x ∷ a) (y ∷ b) = ground (arith, same_bytes_iff a b)
same_bytes_iff _ _ = ground arith

abbrev key_at : Document → Token → ℕ → Bytes
key_at d c m = text_of (token_at d (child_at d c (2 * m)))

-- What the search from member `i` with `left` to go has found, or not.
record Found (d : Document) (c : Token) (key : Bytes) (i left v : ℕ) : Type 0 where
  at : ℕ
  from : i ≤ at
  below : at < i + left
  key_is : key_at d c at ≡ key
  value_is : child_at d c (2 * at + 1) ≡ v
  earlier : (m : ℕ) → i ≤ m → m < at → key_at d c m ≢ key

find_member_ok :
    (d : Document) (c : Token) (key : Bytes) (i left : ℕ) {v : ℕ}
    → find_member d c key i left ≡ ok v
    → Found d c key i left v
unfolding find_member
find_member_ok d c key i zero h = cc
find_member_ok d c key i (suc left) h = elim (Bool-cases (same_bytes (key_at d c i) key)) [
  | inl e ↦ record {
    at = i;
    from = omega arith;
    below = omega arith;
    key_is = (same_bytes_iff (key_at d c i) key).0 e;
    value_is = ground arith;
    earlier = λ m lo hi. absurd (omega arith);
  }
  | inr e ↦
      let f = find_member_ok d c key (i + 1) left (rw e at h) in
      record {
        at = f.at;
        from = omega (arith, f.from);
        below = omega (arith, f.below);
        key_is = f.key_is;
        value_is = f.value_is;
        earlier = λ m lo hi same. elim (Bool-cases (m == i)) [
          | inl here ↦
              cc (e, (same_bytes_iff (key_at d c i) key).1 (rw ((==_iff m i).0 here) at same))
          | inr later ↦ f.earlier m (ground arith) hi same
        ];
      }
]

find_member_err :
    (d : Document) (c : Token) (key : Bytes) (i left : ℕ) {x : Error}
    → find_member d c key i left ≡ err x
    → (x ≡ not_found) × ((m : ℕ) → i ≤ m → m < i + left → key_at d c m ≢ key)
unfolding find_member
find_member_err d c key i zero h = (cc, λ m lo hi. absurd (omega arith))
find_member_err d c key i (suc left) h = elim (Bool-cases (same_bytes (key_at d c i) key)) [
  | inl e ↦ absurd (ground arith)
  | inr e ↦
      let (x, none_later) = find_member_err d c key (i + 1) left (rw e at h) in
      (
        x,
        λ m lo hi same. elim (Bool-cases (m == i)) [
          | inl here ↦
              cc (e, (same_bytes_iff (key_at d c i) key).1 (rw ((==_iff m i).0 here) at same))
          | inr later ↦ none_later m (ground arith) (omega arith) same
        ],
      )
]

-- The member `i` has the key and the value, and no member before it has the key.
pub record IsFirst (d : Document) (object_value : ℕ) (key : Bytes) (v i : ℕ) : Type 0 where
  pub found : object_member_at d object_value i ≡ ok (key, v)
  pub earlier :
      (j : ℕ) (k : Bytes) (w : ℕ) → j < i → object_member_at d object_value j ≡ ok (k, w) → k ≢ key

-- What reading a member by its index gives.
record Member (d : Document) (o i : ℕ) (k : Bytes) (w : ℕ) : Type 0 where
  container : Token
  is_object : token_of d o object ≡ ok container
  below : i < container.links.child_count / 2
  key_is : key_at d container i ≡ k
  value_is : child_at d container (2 * i + 1) ≡ w

object_member_at-Member :
    (d : Document) (o i : ℕ) {k : Bytes} {w : ℕ}
    → object_member_at d o i ≡ ok (k, w)
    → Member d o i k w
unfolding object_member_at
object_member_at-Member d o i h =
    let (c, e, rest) = >>=-eq-ok (token_of d o object) _ h in
    record {
      container = c;
      is_object = e;
      below = ground arith;
      key_is = ground arith;
      value_is = ground arith;
    }

Found-member_at :
    (d : Document) (o : ℕ) (c : Token) (key : Bytes) {v : ℕ}
    → token_of d o object ≡ ok c
    → (f : Found d c key 0 (c.links.child_count / 2) v) → object_member_at d o f.at ≡ ok (key, v)
unfolding object_member_at
Found-member_at d o c key {v} e f =
    let inside : leb (c.links.child_count / 2) f.at ≡ false = ground (arith, f.below) in
    rw (e, inside) (cc (f.key_is, f.value_is))

Found-IsFirst :
    (d : Document) (o : ℕ) (c : Token) (key : Bytes) {v : ℕ}
    → token_of d o object ≡ ok c
    → (f : Found d c key 0 (c.links.child_count / 2) v) → IsFirst d o key v f.at
Found-IsFirst d o c key e f = record {
  found = Found-member_at d o c key e f;
  earlier = λ j k w lt mem same.
      let m = object_member_at-Member d o j mem in
      let same_container : m.container ≡ c = cc (m.is_object, e) in
      f.earlier j (omega arith) lt (rw same_container at m.key_is ∙ same);
}

get_first :
    (d : Document) (o : ℕ) (key : Bytes) (v i : ℕ) → IsFirst d o key v i → object_get d o key ≡ ok v
unfolding object_get
get_first d o key v i first =
    let m = object_member_at-Member d o i first.found in
    let c = m.container in
    rw m.is_object (elim (Outcome-cases (find_member d c key 0 (c.links.child_count / 2))) [
      | inr (x, e) ↦
          absurd
            ((find_member_err d c key 0 _ e).1 i (omega arith) (omega (arith, m.below)) m.key_is)
      | inl (v', e) ↦
          let f = find_member_ok d c key 0 _ e in
          elim (Bool-cases (ltb f.at i)) [
            | inl lt ↦ absurd (
                first.earlier f.at key v' (ltb→lt f.at i lt)
                  (Found-member_at d o c key m.is_object f) refl)
            | inr ge ↦ elim (Bool-cases (ltb i f.at)) [
              | inl lt ↦ absurd (f.earlier i (omega arith) (ltb→lt i f.at lt) m.key_is)
              | inr le ↦
                  let same : f.at ≡ i = ground arith in
                  e ∙ ap ok (sym f.value_is ∙ rw same m.value_is)
            ]
          ]
    ])

-- Lookup by key finds exactly the first member that has the key.
pub object_get_iff :
    (d : Document) (o : ℕ) (key : Bytes) (v : ℕ)
    → (object_get d o key ≡ ok v) ↔ ((i : ℕ) × IsFirst d o key v i)
unfolding object_get
object_get_iff d o key v = (
  λ h.
      let (c, e, rest) = >>=-eq-ok (token_of d o object) _ h in
      let f = find_member_ok d c key 0 _ rest in (f.at, Found-IsFirst d o c key e f),
  λ first. get_first d o key v first.0 first.1,
)

-- NOT_FOUND is the answer for an object exactly when no member has the key.
pub object_get_not_found_iff :
    (d : Document) (o : ℕ) (key : Bytes) (n : ℕ)
    → object_size d o ≡ ok n
    → (object_get d o key ≡ err not_found)
      ↔ ((i : ℕ) (k : Bytes) (w : ℕ) → object_member_at d o i ≡ ok (k, w) → k ≢ key)
unfolding object_get object_size
object_get_not_found_iff d o key n size =
    let (c, e, rest) = >>=-eq-ok (token_of d o object) _ size in
    (
      λ h i k w mem same.
          let m = object_member_at-Member d o i mem in
          let same_container : m.container ≡ c = cc (m.is_object, e) in
          let h' = rw e at h in
          (find_member_err d c key 0 _ h').1 i (omega arith)
            (omega (arith, rw same_container at m.below)) (rw same_container at m.key_is ∙ same),
      λ absent. rw e (elim (Outcome-cases (find_member d c key 0 (c.links.child_count / 2))) [
        | inr (x, h) ↦ h ∙ ap err (find_member_err d c key 0 _ h).0
        | inl (v, h) ↦
            let f = find_member_ok d c key 0 _ h in
            absurd (absent f.at key v (Found-member_at d o c key e f) refl)
      ]),
    )
