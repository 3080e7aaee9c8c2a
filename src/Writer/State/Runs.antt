-- ===== src/Writer/State/Runs.antt =====
-- The state of src/writer.c between two calls, and what holds after a step, on success or failure.
use maelys_json.Base.{
  ℕ, ◌≤◌, ◌<◌, ◌≡◌, refl, ap, Bool, true, false, not, List, [], ◌∷◌, none, some, All, Outcome, ok,
  err, if◌then◌else◌, ◌==◌,
}
use maelys_json.Types.{
  Error, state, argument, memory, limit, syntax, utf8, duplicate_key, type, range, not_found,
  not_integer, io, Kind, object,
}
use maelys_json.Writer.State.{
  Writer, Act, chain, node_at, node_count, depth, is_some, in_container, writer_fail,
  record_failure,
}
use maelys_json.Writer.State.Kinds.{kinds}
use maelys_json.Writer.State.Shape.{Shape, is_head}

abbrev pub shape : Writer → Shape
shape w = record {
  containers = kinds w.nodes w.stack;
  pending = is_some w.pending_key;
  started = not (node_count w == 0);
}

-- The tree fits the limits and its array, the open containers are nodes, and a key waits only in
-- an object.
abbrev pub IsValid : Writer → Type 0
IsValid w =
    (node_count w ≤ w.node_capacity)
    × (w.node_capacity ≤ w.limits.maximum_tokens)
    × (depth w ≤ w.limits.maximum_depth)
    × All (λ i. i < node_count w) w.stack
    × (is_some w.pending_key ≡ true → in_container object w ≡ true)

-- No error was recorded, and the writer is not finished.
abbrev pub IsReady : Writer → Type 0
IsReady w = (w.finished ≡ false) × (w.failure ≡ none)

-- `G` holds on success and `F` on failure.
abbrev pub Runs :
    {A : Type 0}
    → (A → Writer → Type 0)
    → (Error → Writer → Type 0)
    → Outcome Error A × Writer
    → Type 0
Runs G F (ok a, w) = G a w
Runs G F (err e, w) = F e w

module _ {A : Type 0} (F : Error → Writer → Type 0) where
  pub Runs-chain :
      {B : Type 0} (G : A → Writer → Type 0) (H : B → Writer → Type 0)
      (r : Outcome Error A × Writer) (f : A → Act B)
      → Runs G F r
      → ((a : A) (w : Writer) → G a w → Runs H F (f a w))
      → Runs H F (chain r f)
  Runs-chain G H (ok a, w) f h k = k a w h
  Runs-chain G H (err e, w) f h k = h

  pub Runs-if :
      (G : A → Writer → Type 0) (b : Bool) (x y : Outcome Error A × Writer)
      → (b ≡ true → Runs G F x)
      → (b ≡ false → Runs G F y)
      → Runs G F (if b then x else y)
  Runs-if G true x y h k = h refl
  Runs-if G false x y h k = k refl

pub Runs-mono :
    {A : Type 0} (G H : A → Writer → Type 0) (F K : Error → Writer → Type 0)
    (r : Outcome Error A × Writer)
    → ((a : A) (w : Writer) → G a w → H a w)
    → ((e : Error) (w : Writer) → F e w → K e w)
    → Runs G F r
    → Runs H K r
Runs-mono G H F K (ok a, w) g f h = g a w h
Runs-mono G H F K (err e, w) g f h = f e w h

-- What an error says of the call's order: STATE says that `Refused` holds.
abbrev pub Tells : Type 0 → Error → Type 0
Tells Refused state = Refused
Tells Refused _ = Unit

Tells-intro : (Refused : Type 0) (e : Error) → (e ≡ state → Refused) → Tells Refused e
Tells-intro Refused state h = h refl
Tells-intro Refused argument h = tt
Tells-intro Refused memory h = tt
Tells-intro Refused limit h = tt
Tells-intro Refused syntax h = tt
Tells-intro Refused utf8 h = tt
Tells-intro Refused duplicate_key h = tt
Tells-intro Refused type h = tt
Tells-intro Refused range h = tt
Tells-intro Refused not_found h = tt
Tells-intro Refused not_integer h = tt
Tells-intro Refused io h = tt

pub Tells-map : (R R' : Type 0) (e : Error) → (R → R') → Tells R e → Tells R' e
Tells-map R R' state f h = f h
Tells-map R R' argument f h = tt
Tells-map R R' memory f h = tt
Tells-map R R' limit f h = tt
Tells-map R R' syntax f h = tt
Tells-map R R' utf8 f h = tt
Tells-map R R' duplicate_key f h = tt
Tells-map R R' type f h = tt
Tells-map R R' range f h = tt
Tells-map R R' not_found f h = tt
Tells-map R R' not_integer f h = tt
Tells-map R R' io f h = tt

-- A failure that was recorded; STATE says that the call was out of order.
abbrev pub Fails : Type 0 → Error → Writer → Type 0
Fails Refused e w = IsValid w × (w.finished ≡ false) × (w.failure ≡ some e) × Tells Refused e

pub writer_fail-Fails :
    {A : Type 0} (Refused : Type 0) (G : A → Writer → Type 0) (e : Error) (w : Writer)
    → IsValid w
    → IsReady w
    → (e ≡ state → Refused)
    → Runs G (Fails Refused) (writer_fail e w)
unfolding writer_fail record_failure
writer_fail-Fails Refused G e w v (open', none') h =
    (v, open', ap (record_failure e) none', Tells-intro Refused e h)

-- The tests of the code, on the shape.
pub in_container-is_head :
    (kind : Kind) (w : Writer) → in_container kind w ≡ is_head kind (shape w).containers
in_container-is_head kind w = go w.stack
  where
    go :
        (stack : List ℕ)
        → (elim stack [ [] ↦ false | i ∷ _ ↦ is_head kind ((node_at w i).kind ∷ []) ])
          ≡ is_head kind (kinds w.nodes stack)
    go [] = refl
    go (i ∷ stack) = refl
