-- ===== src/Writer/State.antt =====
-- The writer of src/writer_internal.h, and the steps of src/writer.c that its calls share. A step
-- takes the writer and gives its result with the new writer, also when it fails: errors are kept.
pub mod Shape
pub mod Runs
pub mod Kinds
use maelys_json.Base.{
  ℕ, ◌+◌, Bool, true, false, not, ◌&&◌, ◌||◌, List, [], ◌∷◌, ◌++◌, Option, none, some, Bytes,
  get_or, set, length, leb, ltb, ◌==◌, Outcome, ok, err, if◌then◌else◌,
}
use maelys_json.Base.Int.{ℤ, pos}
use maelys_json.Document.{Links}
use maelys_json.Document.Access.{no_links, same_kind}
use maelys_json.Keyset.{Key, Keyset}
use maelys_json.Types.{
  Error, argument, state, Kind, none_kind, Limits, Profile, rfc8259, contract_ascii,
  rfc8259_last_wins, size_max,
}
use maelys_json.Utf8.Validate.{utf8_validate}

-- `maelys_json_node_t`; `none` is a null pointer.
pub record Node : Type 0 where
  pub links : Links
  pub kind : Kind
  pub key : Option Bytes
  pub string : Option Bytes
  pub unsigned_value : ℕ
  pub signed_value : ℤ
  pub number_signed : Bool
  pub boolean_value : Bool

-- The flags of MAELYS_JSON_WRITER_FINAL_NEWLINE, _INDENT and _ASCII.
pub record Flags : Type 0 where
  pub final_newline : Bool
  pub indent : Bool
  pub ascii : Bool

-- `struct maelys_json_writer`. The used entries of the stack are a list, the last one first, so
-- `depth` is its length. `requests` counts the allocations that were asked for.
pub record Writer : Type 0 where
  pub profile : Profile
  pub limits : Limits
  pub flags : Flags
  pub nodes : List Node
  pub node_capacity : ℕ
  pub keys : Keyset
  pub stack : List ℕ
  pub pending_key : Option Bytes
  pub finished : Bool
  pub failure : Option Error
  pub requests : ℕ

abbrev pub no_node : Node
no_node = record {
  links = no_links;
  kind = none_kind;
  key = none;
  string = none;
  unsigned_value = 0;
  signed_value = pos 0;
  number_signed = false;
  boolean_value = false;
}

abbrev pub node_at : Writer → ℕ → Node
node_at w index = get_or w.nodes index no_node

abbrev pub node_count : Writer → ℕ
node_count w = length w.nodes

abbrev pub depth : Writer → ℕ
depth w = length w.stack

abbrev pub is_some {ℓ} : {A : Type ℓ} → Option A → Bool
is_some none = false
is_some (some a) = true

abbrev pub bytes_of : Option Bytes → Bytes
bytes_of none = []
bytes_of (some bytes) = bytes

abbrev pub Act : Type 0 → Type 0
Act A = Writer → Outcome Error A × Writer

abbrev pub chain :
    {A B : Type 0} → Outcome Error A × Writer → (A → Act B) → Outcome Error B × Writer
chain (ok a, w) f = f a w
chain (err e, w) f = (err e, w)

infixl 5 ◌>>=◌ ◌>>◌
abbrev pub ◌>>=◌ : {A B : Type 0} → Act A → (A → Act B) → Act B
◌>>=◌ m f w = chain (m w) f

abbrev pub ◌>>◌ : {A B : Type 0} → Act A → Act B → Act B
◌>>◌ m k w = chain (m w) (λ _. k)

abbrev pub done : {A : Type 0} → A → Act A
done a w = (ok a, w)

-- An early return that leaves the writer as it is.
abbrev pub refuse : {A : Type 0} → Error → Act A
refuse e w = (err e, w)

-- A result of a reader.
abbrev pub lift : {A : Type 0} → Outcome Error A → Act A
lift o w = (o, w)

-- `node_key`; a node with a key has a parent.
unfoldable pub node_key : Writer → ℕ → Key
node_key w index =
    let node = node_at w index in
    record {
      parent = elim node.links.parent [ none ↦ size_max | some parent ↦ parent ];
      bytes = bytes_of node.key;
    }

-- The first error stays.
unfoldable pub record_failure : Error → Option Error → Option Error
record_failure e none = some e
record_failure e (some first) = some first

unfoldable pub writer_fail : {A : Type 0} → Error → Act A
unfolding record_failure
writer_fail e w = (err e, record w { failure = record_failure e w.failure })

unfoldable pub writer_ready : Act (Unit {0})
writer_ready w = if w.finished || is_some w.failure then (err state, w) else (ok tt, w)

unfoldable pub no_nul : Bytes → Bool
no_nul [] = true
no_nul (b ∷ bs) = not (b == 0) && no_nul bs

unfoldable pub plain_ascii : Bytes → Bool
plain_ascii [] = true
plain_ascii (b ∷ bs) = not (ltb b 0x20 || ltb 0x7e b || b == b'"' || b == b'\\') && plain_ascii bs

-- The pointer is given.
unfoldable pub valid_text : Profile → Bytes → Bool
valid_text rfc8259 bytes = no_nul bytes && utf8_validate bytes
valid_text contract_ascii bytes = plain_ascii bytes
valid_text rfc8259_last_wins bytes = plain_ascii bytes

-- `current_container`: its index, the last entry of the stack.
abbrev pub current_container : Writer → Option ℕ
current_container w = elim w.stack [ [] ↦ none | index ∷ _ ↦ some index ]

-- Whether the current container is of a kind.
abbrev pub in_container : Kind → Writer → Bool
in_container kind w = elim w.stack [
  | [] ↦ false
  | index ∷ _ ↦ same_kind (node_at w index).kind kind
]
