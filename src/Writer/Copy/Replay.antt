-- ===== src/Writer/Copy/Replay.antt =====
-- Copying a value of a document is making the calls, one for one, that write it: what the recursive
-- `copy_value` of src/writer.c does is read off a list of events.
use maelys_json.Base.{
  ℕ, zero, suc, ◌+◌, ◌≡◌, refl, sym, ap, ◌∙◌, Bool, true, false, List, [], ◌∷◌, ◌++◌, Option, none,
  some, Bytes, Outcome, ok, err, if◌then◌else◌,
}
use maelys_json.Base.Int.{ℤ}
use maelys_json.Document.{Document}
use maelys_json.Document.Access.{
  value_type, object_size, object_member_at, array_size, array_get, value_string, value_number_text,
  value_boolean,
}
use maelys_json.Document.Integers.{value_u64, value_i64}
use maelys_json.Types.{
  Error, not_integer, argument, memory, limit, syntax, utf8, duplicate_key, type, range, state,
  not_found, io, Kind, none_kind, object, array, string, number, boolean, null,
}
use maelys_json.Writer.Calls.{
  container_begin, container_end, writer_key, writer_string, write_number_lexeme, writer_u64,
  writer_i64, writer_boolean, writer_null,
}
use maelys_json.Writer.Copy.{
  integer_or, is_negative, copy_number, copy_members, copy_elements, copy_object, copy_array,
  copy_kind, copy_value,
}
use maelys_json.Writer.State.{Writer, Act, chain, ◌>>=◌, ◌>>◌, done, lift}

pub data Event : Type 0 where
  begins : Kind → Event
  ends : Kind → Event
  keyed : Bytes → Event
  texted : Bytes → Event
  lexeme : Bytes → Event
  unsigned : ℕ → Event
  signed : ℤ → Event
  truth : Bool → Event
  nothing : Event

-- The call for an event; a lexeme may be as long as any text.
unfoldable pub play : (ℕ → Bool) → Event → Act (Unit {0})
play granted (begins kind) = container_begin granted kind
play granted (ends kind) = container_end kind
play granted (keyed key) = writer_key granted key
play granted (texted text) = writer_string granted text
play granted (lexeme text) = λ w. write_number_lexeme granted text w.limits.maximum_bytes w
play granted (unsigned n) = writer_u64 granted n
play granted (signed n) = writer_i64 granted n
play granted (truth enabled) = writer_boolean granted enabled
play granted nothing = writer_null granted

-- The calls in their order, up to the first error.
unfoldable pub replay : (ℕ → Bool) → List Event → Act (Unit {0})
replay granted [] = done tt
replay granted (e ∷ es) = play granted e >> replay granted es

abbrev pub Events : Type 0
Events = Option (List Event)

abbrev pub both : Events → Events → Events
both (some xs) (some ys) = some (xs ++ ys)
both (some xs) none = none
both none y = none

abbrev pub one : Event → Events
one e = some (e ∷ [])

abbrev pub read : {A : Type 0} → Outcome Error A → (A → Events) → Events
read (ok a) f = f a
read (err e) f = none

-- An integer that fits, or the lexeme where it is none.
abbrev pub read_integer : {A : Type 0} → Outcome Error A → (A → Event) → Bytes → Events
read_integer (ok n) f text = one (f n)
read_integer (err not_integer) f text = one (lexeme text)
read_integer (err e) f text = none

unfoldable pub member_events : (ℕ → Events) → Document → ℕ → ℕ → ℕ → Events
member_events events d o i zero = some []
member_events events d o i (suc left) =
    read (object_member_at d o i)
      (λ m. both (one (keyed m.0)) (both (events m.1) (member_events events d o (i + 1) left)))

unfoldable pub element_events : (ℕ → Events) → Document → ℕ → ℕ → ℕ → Events
element_events events d a i zero = some []
element_events events d a i (suc left) =
    read (array_get d a i) (λ e. both (events e) (element_events events d a (i + 1) left))

unfoldable pub kind_events : (ℕ → Events) → Document → ℕ → Kind → Events
kind_events events d v object =
    read (object_size d v)
      (λ n. both (one (begins object)) (both (member_events events d v 0 n) (one (ends object))))
kind_events events d v array =
    read (array_size d v)
      (λ n. both (one (begins array)) (both (element_events events d v 0 n) (one (ends array))))
kind_events events d v string = read (value_string d v) (λ text. one (texted text))
kind_events events d v number = read (value_number_text d v) (λ text.
    if is_negative text
    then read_integer (value_i64 d v) signed text
    else read_integer (value_u64 d v) unsigned text)
kind_events events d v boolean = read (value_boolean d v) (λ enabled. one (truth enabled))
kind_events events d v null = one nothing
kind_events events d v none_kind = none

-- The events of a value; `none` where a part of it cannot be read.
unfoldable pub value_events : ℕ → Document → ℕ → Events
value_events zero d v = none
value_events (suc fuel) d v = kind_events (value_events fuel d) d v (value_type d v)

pub chain-same :
    {A B : Type 0} (r : Outcome Error A × Writer) (f g : A → Act B)
    → ((a : A) (w : Writer) → f a w ≡ g a w)
    → chain r f ≡ chain r g
chain-same (ok a, w) f g h = h a w
chain-same (err e, w) f g h = refl

pub chain-chain :
    {A B C : Type 0} (r : Outcome Error A × Writer) (f : A → Act B) (g : B → Act C)
    → chain (chain r f) g ≡ chain r (λ a w. chain (f a w) g)
chain-chain (ok a, w) f g = refl
chain-chain (err e, w) f g = refl

module _ (granted : ℕ → Bool) where
  replay-append :
      (xs ys : List Event) (w : Writer)
      → replay granted (xs ++ ys) w ≡ chain (replay granted xs w) (λ _. replay granted ys)
  unfolding replay
  replay-append [] ys w = refl
  replay-append (x ∷ xs) ys w =
      chain-same (play granted x w) _ _ (λ _ v. replay-append xs ys v)
      ∙ sym (chain-chain (play granted x w) (λ _. replay granted xs) (λ _. replay granted ys))

  -- A step that makes the calls of some events, if there are any.
  abbrev pub Plays : Events → Act (Unit {0}) → Type 0
  Plays none f = Unit
  Plays (some es) f = (w : Writer) → f w ≡ replay granted es w

  pub Plays-both :
      (x y : Events) (f g : Act (Unit {0})) → Plays x f → Plays y g → Plays (both x y) (f >> g)
  Plays-both none y f g h k = tt
  Plays-both (some xs) none f g h k = tt
  Plays-both (some xs) (some ys) f g h k = λ w.
      ap (λ r. chain r (λ _. g)) (h w)
      ∙ (chain-same (replay granted xs w) _ _ (λ _ v. k v) ∙ sym (replay-append xs ys w))

  chain-done : (r : Outcome Error (Unit {0}) × Writer) → chain r (λ _. done tt) ≡ r
  chain-done (ok u, w) = refl
  chain-done (err e, w) = refl

  pub Plays-one : (e : Event) → Plays (one e) (play granted e)
  unfolding replay
  Plays-one e w = sym (chain-done (play granted e w))

  -- A read that fails has no events.
  Plays-read :
      {A : Type 0} (o : Outcome Error A) (events : A → Events) (f : A → Act (Unit {0}))
      → ((a : A) → Plays (events a) (f a))
      → Plays (read o events) (lift o >>= f)
  Plays-read (ok a) events f h = h a
  Plays-read (err e) events f h = tt

  members_play :
      (events : ℕ → Events) (copy : ℕ → Act (Unit {0})) (d : Document) (o i left : ℕ)
      → ((v : ℕ) → Plays (events v) (copy v))
      → Plays (member_events events d o i left) (copy_members granted copy d o i left)
  unfolding member_events copy_members replay play writer_key
  members_play events copy d o i zero h = λ w. refl
  members_play events copy d o i (suc left) h = Plays-read (object_member_at d o i) _ _ (λ m.
      Plays-both (one (keyed m.0)) _ (writer_key granted m.0) _ (Plays-one (keyed m.0)) (
        Plays-both (events m.1) _ (copy m.1) _ (h m.1)
          (members_play events copy d o (i + 1) left h)))

  elements_play :
      (events : ℕ → Events) (copy : ℕ → Act (Unit {0})) (d : Document) (a i left : ℕ)
      → ((v : ℕ) → Plays (events v) (copy v))
      → Plays (element_events events d a i left) (copy_elements copy d a i left)
  unfolding element_events copy_elements replay
  elements_play events copy d a i zero h = λ w. refl
  elements_play events copy d a i (suc left) h =
      Plays-read (array_get d a i) _ _ (λ e.
        Plays-both (events e) _ (copy e) _ (h e) (elements_play events copy d a (i + 1) left h))

  integer_play :
      {A : Type 0} (o : Outcome Error A) (write : A → Act (Unit {0})) (event : A → Event)
      (text : Bytes)
      → ((a : A) → Plays (one (event a)) (write a))
      → Plays
          (read_integer o event text)
          (λ w. integer_or o write (write_number_lexeme granted text w.limits.maximum_bytes) w)
  unfolding integer_or replay play write_number_lexeme
  integer_play (ok n) write event text h = h n
  integer_play (err not_integer) write event text h = Plays-one (lexeme text)
  integer_play (err argument) write event text h = tt
  integer_play (err memory) write event text h = tt
  integer_play (err limit) write event text h = tt
  integer_play (err syntax) write event text h = tt
  integer_play (err utf8) write event text h = tt
  integer_play (err duplicate_key) write event text h = tt
  integer_play (err type) write event text h = tt
  integer_play (err range) write event text h = tt
  integer_play (err state) write event text h = tt
  integer_play (err not_found) write event text h = tt
  integer_play (err io) write event text h = tt

  Plays-if :
      (b : Bool) (x y : Events) (f g : Act (Unit {0}))
      → Plays x f
      → Plays y g
      → Plays (if b then x else y) (λ w. if b then f w else g w)
  Plays-if true x y f g h k = h
  Plays-if false x y f g h k = k

  number_play :
      (d : Document) (v : ℕ) → Plays (kind_events (λ _. none) d v number) (copy_number granted d v)
  unfolding kind_events copy_number replay play writer_i64 writer_u64
  number_play d v = Plays-read (value_number_text d v) _ _ (λ text.
      Plays-if (is_negative text) _ _
        (λ w.
          integer_or (value_i64 d v) (writer_i64 granted)
            (write_number_lexeme granted text w.limits.maximum_bytes) w)
        (λ w.
          integer_or (value_u64 d v) (writer_u64 granted)
            (write_number_lexeme granted text w.limits.maximum_bytes) w)
        (integer_play (value_i64 d v) (writer_i64 granted) signed text (λ n. Plays-one (signed n)))
        (integer_play (value_u64 d v) (writer_u64 granted) unsigned text
          (λ n. Plays-one (unsigned n))))

  kind_play :
      (events : ℕ → Events) (copy : ℕ → Act (Unit {0})) (d : Document) (v : ℕ) (kind : Kind)
      → ((child : ℕ) → Plays (events child) (copy child))
      → Plays (kind_events events d v kind) (copy_kind granted copy d v kind)
  unfolding kind_events copy_kind copy_object copy_array play replay container_begin container_end
      writer_string writer_boolean writer_null
  kind_play events copy d v object h = Plays-read (object_size d v) _ _ (λ n.
      Plays-both (one (begins object)) _ (container_begin granted object) _
        (Plays-one (begins object))
        (Plays-both (member_events events d v 0 n) (one (ends object)) _ (container_end object)
          (members_play events copy d v 0 n h) (Plays-one (ends object))))
  kind_play events copy d v array h = Plays-read (array_size d v) _ _ (λ n.
      Plays-both (one (begins array)) _ (container_begin granted array) _ (Plays-one (begins array))
        (Plays-both (element_events events d v 0 n) (one (ends array)) _ (container_end array)
          (elements_play events copy d v 0 n h) (Plays-one (ends array))))
  kind_play events copy d v string h =
      Plays-read (value_string d v) _ _ (λ text. Plays-one (texted text))
  kind_play events copy d v number h = number_play d v
  kind_play events copy d v boolean h =
      Plays-read (value_boolean d v) _ _ (λ enabled. Plays-one (truth enabled))
  kind_play events copy d v null h = Plays-one nothing
  kind_play events copy d v none_kind h = tt

  pub value_play :
      (fuel : ℕ) (d : Document) (v : ℕ)
      → Plays (value_events fuel d v) (copy_value fuel granted d v)
  unfolding value_events copy_value
  value_play zero d v = tt
  value_play (suc fuel) d v =
      kind_play (value_events fuel d) (copy_value fuel granted d) d v (value_type d v)
        (value_play fuel d)
