-- ===== src/Writer/State/Shape/Laws.antt =====
-- Sequences of steps that make one value.
use maelys_json.Base.{◌≡◌, true, false, some, arith}
use maelys_json.Document.Access.{same_kind}
use maelys_json.Types.{Kind, object, array}
use maelys_json.Writer.State.Shape.{Shape, is_head, value_step, begin_step, end_step, key_step}

-- Inside a container, between two of its members or elements.
abbrev pub IsInside : Kind → Shape → Type 0
IsInside kind s = (is_head kind s.containers ≡ true) × (s.pending ≡ false) × (s.started ≡ true)

pub begin-IsInside :
    (kind : Kind) (s t : Shape)
    → same_kind kind kind ≡ true
    → begin_step kind s ≡ some t
    → IsInside kind t
unfolding begin_step
begin-IsInside kind s t same h = ground arith

Shape-ext :
    (s t : Shape)
    → s.containers ≡ t.containers
    → s.pending ≡ t.pending
    → s.started ≡ t.started
    → s ≡ t
Shape-ext s t e e' e'' = cc

-- A key and a value leave the object as it was.
pub member_lem :
    (s t u : Shape) → IsInside object s → key_step s ≡ some t → value_step t ≡ some u → u ≡ s
unfolding key_step value_step
member_lem s t u inside h k = ground arith

pub element_lem : (s t : Shape) → IsInside array s → value_step s ≡ some t → t ≡ s
unfolding value_step
element_lem s t inside h = ground arith

-- A container that is opened and closed is a value.
pub container_lem :
    (kind : Kind) (s t u : Shape)
    → begin_step kind s ≡ some t
    → end_step kind t ≡ some u
    → value_step s ≡ some u
unfolding value_step begin_step end_step
container_lem kind s t u h k = ground arith
