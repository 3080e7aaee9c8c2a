-- ===== src/Writer/Calls.antt =====
-- The calls of src/writer.c that build the tree. The writer and the text pointers are given; a
-- size goes with its bytes, so a call and its variant for NUL-terminated text are one function.
pub mod Values
pub mod Numbers
pub mod Runs
use maelys_json.Base.{
  ℕ, ◌+◌, Bool, true, false, not, ◌&&◌, ◌||◌, List, [], ◌∷◌, Option, none, some, Bytes, set, length,
  leb, ltb, ◌==◌, Outcome, ok, err, if◌then◌else◌,
}
use maelys_json.Base.Int.{ℤ}
use maelys_json.Common.Limits.{limits_resolve}
use maelys_json.Common.Number.{number_syntax}
use maelys_json.Keyset.{Key, Keyset, keyset_init, keyset_contains}
use maelys_json.Types.{
  Error, argument, state, limit, memory, duplicate_key, Kind, object, array, string, number,
  boolean, null, Limits, Profile, rfc8259_last_wins, rfc8259, contract_ascii, maximum_number_text,
}
use maelys_json.Writer.Attach.{requested, attach_node}
use maelys_json.Writer.State.{
  Node, Flags, Writer, no_node, node_at, Act, chain, ◌>>=◌, ◌>>◌, done, refuse, depth, is_some,
  node_key, writer_fail, writer_ready, valid_text, in_container,
}

abbrev pub initial_keys : ℕ
initial_keys = 16

abbrev pub writer_profile : Profile → Bool
writer_profile rfc8259_last_wins = false
writer_profile _ = true

-- The new writer with its key set, on resolved limits.
abbrev pub new_writer : Profile → Flags → Limits → Keyset → Writer
new_writer profile flags l keys = record {
  profile = profile;
  limits = l;
  flags = flags;
  nodes = [];
  node_capacity = 0;
  keys = keys;
  stack = [];
  pending_key = none;
  finished = false;
  failure = none;
  requests = 3;
}

unfoldable pub create_with :
    (ℕ → Bool)
    → Profile
    → Flags
    → Outcome Error Limits
    → Outcome Error Keyset
    → Outcome Error Writer
create_with granted profile flags (err e) keys = err argument
create_with granted profile flags (ok l) (err e) = err memory
create_with granted profile flags (ok l) (ok keys) =
    if granted 0 && granted 1 then ok (new_writer profile flags l keys) else err memory

-- The three allocations, for the writer, its stack and its key set, are the first requests.
unfoldable pub writer_create : (ℕ → Bool) → Profile → Option Limits → Flags → Outcome Error Writer
unfolding create_with
writer_create granted profile limits flags =
    if writer_profile profile
    then create_with granted profile flags (limits_resolve limits)
        (keyset_init (granted 2) initial_keys)
    else err argument

unfoldable pub writer_status : Writer → Option Error
writer_status w = w.failure

unfoldable pub push : ℕ → Act (Unit {0})
push index w = (ok tt, record w { stack = index ∷ w.stack })

unfoldable pub container_begin : (ℕ → Bool) → Kind → Act (Unit {0})
container_begin granted kind =
    let deeper : Act (Unit {0}) = do index ← attach_node granted kind; push index
    in do
      writer_ready
      (λ w. if leb w.limits.maximum_depth (depth w) then writer_fail limit w else deeper w)

unfoldable pub pop : Act (Unit {0})
pop w = (ok tt, record w { stack = elim w.stack [ [] ↦ [] | _ ∷ outer ↦ outer ] })

unfoldable pub container_end : Kind → Act (Unit {0})
container_end kind = do
  writer_ready
  (λ w. if not (in_container kind w) || is_some w.pending_key then writer_fail state w else pop w)

-- `copy_bytes`
unfoldable pub copy_bytes : (ℕ → Bool) → Bytes → Act Bytes
copy_bytes granted bytes w =
    if granted w.requests then (ok bytes, requested w) else writer_fail memory (requested w)

unfoldable pub set_pending_key : Bytes → Act (Unit {0})
set_pending_key key w = (ok tt, record w { pending_key = some key })

-- The new key in its container; the container is an object.
abbrev pub candidate : Bytes → Writer → Key
candidate key w = record { parent = elim w.stack [ [] ↦ 0 | index ∷ _ ↦ index ]; bytes = key }

-- The tests of `maelys_json_writer_key` behind `writer_ready`, in their order.
unfoldable pub key_error : Bytes → Writer → Option Error
key_error key w =
    if not (in_container object w) || is_some w.pending_key
    then some state
    else if ltb w.limits.maximum_bytes (length key)
    then some limit
    else if keyset_contains (node_key w) w.keys (candidate key w)
    then some duplicate_key
    else none

unfoldable pub store_key : (ℕ → Bool) → Bytes → Act (Unit {0})
store_key granted key = do copy ← copy_bytes granted key; set_pending_key copy

unfoldable pub writer_key : (ℕ → Bool) → Bytes → Act (Unit {0})
writer_key granted key w =
    let checked : Act (Unit {0}) = do
      writer_ready
      (λ v. elim (key_error key v) [ some e ↦ writer_fail e v | none ↦ store_key granted key v ])
    in if valid_text w.profile key then checked w else (err argument, w)

-- A change of the node that was attached.
unfoldable pub change_node : ℕ → (Node → Node) → Act (Unit {0})
change_node index change w =
    (ok tt, record w { nodes = set w.nodes index (change (node_at w index)) })

-- A node with a text of its own: a string, or the lexeme of a number.
unfoldable pub write_text : (ℕ → Bool) → Kind → Bytes → Act (Unit {0})
write_text granted kind bytes =
    let attached : Act (Unit {0}) = do
      copy ← copy_bytes granted bytes
      index ← attach_node granted kind
      change_node index (λ n. record n { string = some copy })
    in do
      writer_ready
      (λ w. if ltb w.limits.maximum_bytes (length bytes) then writer_fail limit w else attached w)

unfoldable pub writer_string : (ℕ → Bool) → Bytes → Act (Unit {0})
writer_string granted value w =
    if valid_text w.profile value then write_text granted string value w else (err argument, w)

unfoldable pub write_number_lexeme : (ℕ → Bool) → Bytes → ℕ → Act (Unit {0})
write_number_lexeme granted lexeme maximum w =
    if ltb maximum (length lexeme) || not (number_syntax lexeme)
    then (err argument, w)
    else write_text granted number lexeme w

unfoldable pub writer_number_text : (ℕ → Bool) → Bytes → Act (Unit {0})
writer_number_text granted lexeme = write_number_lexeme granted lexeme maximum_number_text

-- `attach_scalar`, and what the call then sets in the node.
unfoldable pub attach_scalar : (ℕ → Bool) → Kind → (Node → Node) → Act (Unit {0})
attach_scalar granted kind change = do
  writer_ready
  index ← attach_node granted kind
  change_node index change

unfoldable pub writer_u64 : (ℕ → Bool) → ℕ → Act (Unit {0})
writer_u64 granted value = attach_scalar granted number (λ n. record n { unsigned_value = value })

unfoldable pub writer_i64 : (ℕ → Bool) → ℤ → Act (Unit {0})
writer_i64 granted value =
    attach_scalar granted number (λ n. record n { signed_value = value; number_signed = true })

unfoldable pub writer_boolean : (ℕ → Bool) → Bool → Act (Unit {0})
writer_boolean granted enabled =
    attach_scalar granted boolean (λ n. record n { boolean_value = enabled })

unfoldable pub writer_null : (ℕ → Bool) → Act (Unit {0})
writer_null granted = attach_scalar granted null (λ n. n)
