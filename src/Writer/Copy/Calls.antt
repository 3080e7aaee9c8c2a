-- ===== src/Writer/Copy/Calls.antt =====
-- What `maelys_json_writer_value` and `maelys_json_writer_object_begin_except` of src/writer.c write:
-- the calls for the value, and those for the members whose keys are not excluded.
use maelys_json.Base.{
  ℕ, zero, suc, ◌+◌, ◌≤◌, ◌≡◌, ◌⊎◌, inl, inr, refl, sym, ap, subst, ◌∙◌, Bool, true, false, List,
  [], ◌∷◌, none, some, Bytes, Outcome, ok, err, if◌then◌else◌, arith, Bool-cases, length, leb, ltb,
}
use maelys_json.Document.{Document}
use maelys_json.Document.Access.{
  value_type, same_kind, same_bytes, token_at, token_of, object_size, object_member_at,
}
use maelys_json.Document.Access.Members.{same_bytes_iff}
use maelys_json.Types.{Error, argument, Kind, none_kind, object}
use maelys_json.Writer.Calls.{container_begin, writer_key}
use maelys_json.Writer.Calls.Runs.{Done, writer_ready-ready}
use maelys_json.Writer.Copy.{
  copy_value, copied, copy_fuel, writer_value, key_excluded, copy_others,
  writer_object_begin_except,
}
use maelys_json.Writer.Copy.Values.{Spoils, writer_value-Copies}
use maelys_json.Writer.Copy.Except.{object_begin_except-Begins}
use maelys_json.Writer.Copy.Fuel.{Extends, events_more}
use maelys_json.Writer.Copy.Replay.{
  Event, Events, both, one, keyed, chain-chain, chain-same, play, replay, kind_events, value_events,
  Plays, Plays-both, Plays-one, value_play,
}
use maelys_json.Writer.State.{Writer, Act, chain, ◌>>=◌, ◌>>◌, done, lift}
use maelys_json.Writer.State.Runs.{IsValid, IsReady, Runs}
use maelys_json.Writer.State.Shape.{value_step, begin_step}

-- The answer of a copying call: a step of the machine; or ARGUMENT and no change; or a recorded
-- error.
abbrev pub Copied :
    (Writer → Unit {0} → Writer → Type 0) → Writer → Outcome Error (Unit {0}) × Writer → Type 0
Copied step w r = Runs (step w) (λ e v. ((e ≡ argument) × (v ≡ w)) ⊎ Spoils e v) r

Plays-events :
    (granted : ℕ → Bool) (x : Events) (es : List Event) (f : Act (Unit {0})) (w : Writer)
    → x ≡ some es
    → Plays granted x f
    → f w ≡ replay granted es w
Plays-events granted x es f w e h = subst (λ y. Plays granted y f) e h w

typed :
    (d : Document) (value fuel : ℕ) (es : List Event)
    → value_events fuel d value ≡ some es
    → same_kind (value_type d value) none_kind ≡ false
unfolding value_events kind_events
typed d value zero es h = cc h
typed d value (suc fuel) es h = go (value_type d value) h
  where
    go :
        (kind : Kind)
        → kind_events (value_events fuel d) d value kind ≡ some es
        → same_kind kind none_kind ≡ false
    go none_kind e = cc e
    go object e = refl
    go Kind.array e = refl
    go Kind.string e = refl
    go Kind.number e = refl
    go Kind.boolean e = refl
    go Kind.null e = refl

-- Where all of a value can be read, writing it on a well-formed ready writer makes the calls of its events in
-- their order, errors included, and takes the step of one value; more fuel makes the same calls.
pub writer_value-replay :
    (granted : ℕ → Bool) (d : Document) (value : ℕ) (w : Writer) (es : List Event) (more : ℕ)
    → IsValid w
    → IsReady w
    → value_events (copy_fuel d) d value ≡ some es
    → copy_fuel d ≤ more
    → Copied (Done value_step) w (writer_value granted d value w)
      × (writer_value granted d value w ≡ copied (replay granted es w))
      × (copy_value more granted d value w ≡ replay granted es w)
unfolding writer_value
writer_value-replay granted d value w es more valid ready e le = (
  writer_value-Copies granted d value w valid ready,
  rw (typed d value (copy_fuel d) es e, writer_ready-ready w ready)
      (ap copied (
        Plays-events granted (value_events (copy_fuel d) d value) es
          (copy_value (copy_fuel d) granted d value) w e
          (value_play granted (copy_fuel d) d value))),
  Plays-events granted (value_events more d value) es (copy_value more granted d value) w
      (subst (λ x. Extends x (value_events more d value)) e
        (events_more (copy_fuel d) more d value le))
      (value_play granted more d value),
)

-- A key stands in a list.
abbrev pub IsListed : Bytes → List Bytes → Type 0
IsListed key [] = ⊥
IsListed key (k ∷ keys) = (k ≡ key) ⊎ IsListed key keys

key_excluded-IsListed :
    (key : Bytes) (keys : List Bytes) → key_excluded key keys ≡ true → IsListed key keys
unfolding key_excluded
key_excluded-IsListed key [] h = absurd (cc h)
key_excluded-IsListed key (k ∷ keys) h = elim (Bool-cases (same_bytes k key)) [
  | inl e ↦ inl ((same_bytes_iff k key).0 e)
  | inr e ↦ inr (key_excluded-IsListed key keys (ground (arith, h, e)))
]

IsListed-key_excluded :
    (key : Bytes) (keys : List Bytes) → IsListed key keys → key_excluded key keys ≡ true
unfolding key_excluded
IsListed-key_excluded key [] h = absurd h
IsListed-key_excluded key (k ∷ keys) (inl e) = ground (arith, (same_bytes_iff k key).1 e)
IsListed-key_excluded key (k ∷ keys) (inr h) = ground (arith, IsListed-key_excluded key keys h)

not_listed :
    (key : Bytes) (keys : List Bytes) → (¬ IsListed key keys) → key_excluded key keys ≡ false
not_listed key keys h = elim (Bool-cases (key_excluded key keys)) [
  | inl e ↦ absurd (h (key_excluded-IsListed key keys e))
  | inr e ↦ e
]

-- The members of an object from the i-th on, and the value of each.
unfoldable pub member_list : Document → ℕ → ℕ → ℕ → Outcome Error (List (Bytes × ℕ))
member_list d o i zero = ok []
member_list d o i (suc left) = elim (object_member_at d o i) [
  | err e ↦ err e
  | ok m ↦ elim (member_list d o (i + 1) left) [ err e ↦ err e | ok ms ↦ ok (m ∷ ms) ]
]

-- Without those whose key is listed.
abbrev pub Kept : List Bytes → List (Bytes × ℕ) → List (Bytes × ℕ) → Type 0
Kept excluded [] ks = ks ≡ []
Kept excluded (m ∷ ms) ks =
    (IsListed m.0 excluded × Kept excluded ms ks)
    ⊎ ((¬ IsListed m.0 excluded)
        × ((rest : List (Bytes × ℕ)) × ((ks ≡ m ∷ rest) × Kept excluded ms rest)))

unfoldable pub pair_events : Document → List (Bytes × ℕ) → Events
pair_events d [] = some []
pair_events d (m ∷ ms) =
    both (one (keyed m.0)) (both (value_events (copy_fuel d) d m.1) (pair_events d ms))

module _ (granted : ℕ → Bool) (d : Document) (excluded : List Bytes) where
  -- A step that makes the calls of the members that are kept.
  abbrev PlaysKept : Outcome Error (List (Bytes × ℕ)) → Act (Unit {0}) → Type 0
  PlaysKept (err e) f = Unit
  PlaysKept (ok ms) f =
      (ks : List (Bytes × ℕ)) → Kept excluded ms ks → Plays granted (pair_events d ks) f

  abbrev member_act : Bytes × ℕ → Act (Unit {0})
  member_act m = writer_key granted m.0 >> copy_value (copy_fuel d) granted d m.1

  kept_act : (b : Bool) (m : Bytes × ℕ) (rest : Act (Unit {0})) → Act (Unit {0})
  kept_act b m rest = (if b then done tt else member_act m) >> rest

  Plays-same :
      (x : Events) (f g : Act (Unit {0}))
      → ((w : Writer) → f w ≡ g w)
      → Plays granted x f
      → Plays granted x g
  Plays-same none f g e h = tt
  Plays-same (some es) f g e h = λ w. sym (e w) ∙ h w

  pair_play :
      (m : Bytes × ℕ) (ks : List (Bytes × ℕ)) (rest : Act (Unit {0}))
      → Plays granted (pair_events d ks) rest
      → Plays granted (pair_events d (m ∷ ks)) (λ w. chain (member_act m w) (λ _. rest))
  unfolding pair_events play writer_key
  pair_play m ks rest h =
      Plays-same _ (writer_key granted m.0 >> (copy_value (copy_fuel d) granted d m.1 >> rest)) _
        (λ w. sym (chain-chain (writer_key granted m.0 w) _ (λ _. rest)))
        (Plays-both granted (one (keyed m.0)) _ (writer_key granted m.0) _
          (Plays-one granted (keyed m.0))
          (Plays-both granted (value_events (copy_fuel d) d m.1) (pair_events d ks)
            (copy_value (copy_fuel d) granted d m.1) rest (value_play granted (copy_fuel d) d m.1)
            h))

  kept_play :
      (m : Bytes × ℕ) (tail : Outcome Error (List (Bytes × ℕ))) (rest : Act (Unit {0}))
      → PlaysKept tail rest
      → PlaysKept
          (elim tail [ err e ↦ err e | ok ms ↦ ok (m ∷ ms) ])
          (kept_act (key_excluded m.0 excluded) m rest)
  unfolding kept_act
  kept_play m (err e) rest h = tt
  kept_play m (ok ms) rest h = λ ks kept. kept_cases ks kept
    where
      kept_cases :
          (ks : List (Bytes × ℕ))
          → Kept excluded (m ∷ ms) ks
          → Plays granted (pair_events d ks) (kept_act (key_excluded m.0 excluded) m rest)
      kept_cases ks (inl (listed, kept)) =
          rw (IsListed-key_excluded m.0 excluded listed) (h ks kept)
      kept_cases ks (inr (no', (ks', (same, kept)))) =
          rw (not_listed m.0 excluded no', same) (pair_play m ks' rest (h ks' kept))

  read_play :
      (o : Outcome Error (Bytes × ℕ)) (tail : Outcome Error (List (Bytes × ℕ)))
      (f : Bytes × ℕ → Act (Unit {0}))
      → ((m : Bytes × ℕ) → PlaysKept (elim tail [ err e ↦ err e | ok ms ↦ ok (m ∷ ms) ]) (f m))
      → PlaysKept
          (elim o [ err e ↦ err e | ok m ↦ elim tail [ err e ↦ err e | ok ms ↦ ok (m ∷ ms) ] ])
          (lift o >>= f)
  read_play (err e) tail f h = tt
  read_play (ok m) tail f h = h m

  others_play :
      (o i left : ℕ) → PlaysKept (member_list d o i left) (copy_others granted d o excluded i left)
  unfolding member_list copy_others pair_events replay kept_act
  others_play o i zero =
      λ ks kept. subst (λ k. Plays granted (pair_events d k) (done tt)) (sym kept) (λ w. refl)
  others_play o i (suc left) =
      read_play (object_member_at d o i) (member_list d o (i + 1) left) _
        (λ m. kept_play m (member_list d o (i + 1) left) _ (others_play o (i + 1) left))

object_typed :
    (d : Document) (o n : ℕ) → object_size d o ≡ ok n → same_kind (value_type d o) object ≡ true
unfolding object_size token_of value_type
object_typed d o n h = elim (Bool-cases (leb (length d.tokens) o)) [
  | inl e ↦ absurd (cc (rw e at h))
  | inr e ↦ elim (Bool-cases (same_kind (token_at d o).kind object)) [
    | inr k ↦ absurd (cc (rw (e, k) at h))
    | inl k ↦ let inside : ltb o (length d.tokens) ≡ true = ground arith in rw inside k
  ]
]

-- On a well-formed ready writer, an object of a document whose kept members can all be read is begun, and then
-- come the calls for exactly the members whose keys are not listed, in their order; with any object
-- the step is that of beginning one.
pub object_begin_except-replay :
    (granted : ℕ → Bool) (d : Document) (o : ℕ) (excluded : List Bytes) (w : Writer) (n : ℕ)
    (ms ks : List (Bytes × ℕ)) (es : List Event)
    → IsValid w
    → IsReady w
    → object_size d o ≡ ok n
    → member_list d o 0 n ≡ ok ms
    → Kept excluded ms ks
    → pair_events d ks ≡ some es
    → Copied (Done (begin_step object)) w (writer_object_begin_except granted d o excluded w)
      × (writer_object_begin_except granted d o excluded w
          ≡ chain (container_begin granted object w) (λ _ v. copied (replay granted es v)))
unfolding writer_object_begin_except
object_begin_except-replay granted d o excluded w n ms ks es valid ready size members kept events =
    let plays =
      subst (λ x. PlaysKept granted d excluded x (copy_others granted d o excluded 0 n)) members
        (others_play granted d excluded o 0 n) in
    let others : (v : Writer) → copy_others granted d o excluded 0 n v ≡ replay granted es v = λ v.
      Plays-events granted (pair_events d ks) es (copy_others granted d o excluded 0 n) v events
        (plays ks kept) in
    (
      object_begin_except-Begins granted d o excluded w valid ready,
      rw (object_typed d o n size, writer_ready-ready w ready, size)
          (chain-same (container_begin granted object w) _ _ (λ _ v. ap copied (others v))),
    )
