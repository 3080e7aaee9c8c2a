-- ===== src/Writer/Copy/Fuel.antt =====
-- The events of a value do not depend on the fuel, once there are any.
use maelys_json.Base.{ℕ, zero, suc, ◌+◌, ◌≤◌, ◌≡◌, refl, ap₂, none, some, Outcome, ok, err, arith}
use maelys_json.Document.{Document}
use maelys_json.Document.Access.{value_type, object_size, object_member_at, array_size, array_get}
use maelys_json.Types.{Error, Kind, none_kind, object, array, string, number, boolean, null}
use maelys_json.Writer.Copy.Replay.{
  Events, both, one, read, begins, ends, keyed, member_events, element_events, kind_events,
  value_events,
}

-- Events that are there stay.
abbrev pub Extends : Events → Events → Type 0
Extends none y = Unit
Extends (some es) y = y ≡ some es

Extends-self : (x : Events) → Extends x x
Extends-self none = tt
Extends-self (some es) = refl

Extends-both : (x x' y y' : Events) → Extends x x' → Extends y y' → Extends (both x y) (both x' y')
Extends-both none x' y y' h k = tt
Extends-both (some xs) x' none y' h k = tt
Extends-both (some xs) x' (some ys) y' h k = ap₂ both h k

Extends-read :
    {A : Type 0} (o : Outcome Error A) (f g : A → Events)
    → ((a : A) → Extends (f a) (g a))
    → Extends (read o f) (read o g)
Extends-read (ok a) f g h = h a
Extends-read (err e) f g h = tt

module _ (f g : ℕ → Events) (d : Document) (h : (v : ℕ) → Extends (f v) (g v)) where
  members_more : (o i left : ℕ) → Extends (member_events f d o i left) (member_events g d o i left)
  unfolding member_events
  members_more o i zero = refl
  members_more o i (suc left) = Extends-read (object_member_at d o i) _ _ (λ m.
      Extends-both (one (keyed m.0)) (one (keyed m.0)) _ _ refl
        (Extends-both (f m.1) (g m.1) _ _ (h m.1) (members_more o (i + 1) left)))

  elements_more :
      (a i left : ℕ) → Extends (element_events f d a i left) (element_events g d a i left)
  unfolding element_events
  elements_more a i zero = refl
  elements_more a i (suc left) =
      Extends-read (array_get d a i) _ _
        (λ e. Extends-both (f e) (g e) _ _ (h e) (elements_more a (i + 1) left))

  kind_more : (v : ℕ) (kind : Kind) → Extends (kind_events f d v kind) (kind_events g d v kind)
  unfolding kind_events
  kind_more v object = Extends-read (object_size d v) _ _ (λ n.
      Extends-both (one (begins object)) (one (begins object)) _ _ refl
        (Extends-both _ _ (one (ends object)) (one (ends object)) (members_more v 0 n) refl))
  kind_more v array = Extends-read (array_size d v) _ _ (λ n.
      Extends-both (one (begins array)) (one (begins array)) _ _ refl
        (Extends-both _ _ (one (ends array)) (one (ends array)) (elements_more v 0 n) refl))
  kind_more v string = Extends-self _
  kind_more v number = Extends-self _
  kind_more v boolean = Extends-self _
  kind_more v null = refl
  kind_more v none_kind = tt

pub events_more :
    (fuel more : ℕ) (d : Document) (v : ℕ)
    → fuel ≤ more
    → Extends (value_events fuel d v) (value_events more d v)
unfolding value_events
events_more zero more d v h = tt
events_more (suc fuel) zero d v h = absurd (omega arith)
events_more (suc fuel) (suc more) d v h =
    kind_more (value_events fuel d) (value_events more d) d
      (λ child. events_more fuel more d child (omega arith)) v (value_type d v)
