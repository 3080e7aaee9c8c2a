-- ===== src/Writer/State/Shape.antt =====
-- What a caller of src/writer.c has to know: the kinds of the open containers, whether a key waits
-- for its value, and whether the root was written. The steps say which calls are in order.
pub mod Laws
use maelys_json.Base.{
  Bool, true, false, not, ◌&&◌, ◌||◌, List, [], ◌∷◌, Option, none, some, if◌then◌else◌,
}
use maelys_json.Document.Access.{same_kind}
use maelys_json.Types.{Kind, object}

pub record Shape : Type 0 where
  pub containers : List Kind
  pub pending : Bool
  pub started : Bool

abbrev pub is_head : Kind → List Kind → Bool
is_head kind [] = false
is_head kind (k ∷ ks) = same_kind k kind

abbrev pub is_open : List Kind → Bool
is_open [] = false
is_open (k ∷ ks) = true

-- A value may be the root, an element, or what follows a key.
abbrev pub takes_value : Shape → Bool
takes_value s =
    (is_open s.containers || not s.started)
    && (if is_head object s.containers then s.pending else not s.pending)

abbrev pub with_value : Shape → Shape
with_value s = record s { pending = false; started = true }

unfoldable pub value_step : Shape → Option Shape
value_step s = if takes_value s then some (with_value s) else none

unfoldable pub begin_step : Kind → Shape → Option Shape
begin_step kind s =
    if takes_value s
    then some (record (with_value s) { containers = kind ∷ s.containers })
    else none

abbrev pub outer : List Kind → List Kind
outer [] = []
outer (k ∷ ks) = ks

unfoldable pub end_step : Kind → Shape → Option Shape
end_step kind s =
    if is_head kind s.containers && not s.pending
    then some (record s { containers = outer s.containers })
    else none

unfoldable pub key_step : Shape → Option Shape
key_step s =
    if is_head object s.containers && not s.pending
    then some (record s { pending = true })
    else none
