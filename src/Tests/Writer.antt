-- ===== src/Tests/Writer.antt =====
-- src/writer.c at concrete inputs.
use maelys_json.Base.{
  zero, suc, ◌||◌, ℕ, ◌≡◌, refl, [], ◌∷◌, codes, List, none, some, Bool, true, false, arith, ok,
  All, inl, inr, Bytes, ◌+◌, ap, get_or,
}
use maelys_json.Common.Limits.{limits_resolve, merged}
use maelys_json.Document.{Document}
use maelys_json.Document.Access.{
  no_links, no_token, token_of, child_at, value_type, object_size, object_member_at, array_size,
  array_get, value_string, text_view,
}
use maelys_json.Keyset.{
  hash_key, keys_equal, find_slot, allocate_slots, keyset_capacity, keyset_init, keyset_contains,
  grow, insert_new, keyset_insert, probe, move_slots, place, keyset_insert_last,
}
use maelys_json.Types.{rfc8259, Kind, object, array}
use maelys_json.Writer.Attach.{
  attach_node, next_capacity, grow_nodes, append_child, failing, new_node, register_key, link_node,
  may_attach,
}
use maelys_json.Writer.Attach.Runs.{Attached, attach_node-Runs}
use maelys_json.Writer.Calls.{
  new_writer, writer_create, container_begin, container_end, writer_key, writer_string,
  write_number_lexeme, create_with, writer_status, push, pop, copy_bytes, set_pending_key,
  key_error, store_key, change_node, write_text, writer_number_text, attach_scalar, writer_u64,
  writer_i64, writer_boolean, writer_null,
}
use maelys_json.Writer.Calls.Runs.{Done, Refused, container_begin-Runs, container_end-Runs}
use maelys_json.Writer.Calls.Numbers.{Decides, write_number_lexeme-Decides}
use maelys_json.Writer.Calls.Values.{Answers, writer_key-Answers, writer_string-Answers}
use maelys_json.Writer.Copy.{
  copied, copy_value, copy_fuel, writer_value, writer_object_begin_except,
}
use maelys_json.Writer.Copy.Calls.{
  Copied, IsListed, Kept, member_list, pair_events, writer_value-replay, object_begin_except-replay,
}
use maelys_json.Writer.Copy.Enough.{copy_value-enough}
use maelys_json.Canonical.Fuel.{IsNested}
use maelys_json.Writer.Copy.Replay.{
  Event, begins, ends, keyed, texted, nothing, replay, element_events, kind_events, value_events,
}
use maelys_json.Writer.Finish.{writer_finish, finish_with, is_complete}
use maelys_json.Writer.History.{Call, Answer, perform, run}
use maelys_json.Writer.History.Runs.{
  walk, all_good, is_error, empty_phase, history-IsSound, history-walk, run-IsEnded,
}
use maelys_json.Writer.History.Sound.{phase, IsSound}
use maelys_json.Serializer.Buffer.{
  capacity_loop, new_capacity, reserve, append, append_spaces, append_break,
}
use maelys_json.Serializer.Text.{
  u16_escape, append_point, append_characters, append_string, number_bytes, append_number,
}
use maelys_json.Serializer.Sort.{key_compare, not_after, merge_keys, sort_loop, sort_keys}
use maelys_json.Serializer.Nodes.{
  child_walk, children_of, serialize_members, serialize_elements, take_arrays, serialize_object,
  serialize_array, serialize_kind, serialize_node, serialize,
}
use maelys_json.Common.Decimal.{print_u64, print_i64}
use maelys_json.Common.Escape.{hex_digit, short_escape, canonical_escape}
use maelys_json.Utf8.Validate.{
  continuation, two_bytes, three_bytes, four_bytes, sequence, prefix_loop, utf8_valid_prefix,
  utf8_validate,
}
use maelys_json.Utf8.Order.{next_point, utf16_next, compare_loop, utf16_compare}
use maelys_json.Utf8.Points.{utf8_decode, encode_utf8}
use maelys_json.Writer.State.{
  chain, is_some, Flags, Writer, node_key, record_failure, writer_fail, writer_ready, no_nul,
  plain_ascii, valid_text,
}
use maelys_json.Writer.State.Runs.{shape, IsValid, IsReady, Runs, Fails}
use maelys_json.Writer.State.Shape.{value_step, begin_step, end_step, key_step}

abbrev always : ℕ → Bool
always n = true

abbrev plain : Flags
plain = record { final_newline = false; indent = false; ascii = false }

abbrev created : Writer
created =
    new_writer rfc8259 plain
      (record { maximum_bytes = 1000; maximum_depth = 10; maximum_tokens = 100 })
      (record { slots = allocate_slots 32; capacity = 32; count = 0 })

created_lem :
    writer_create always rfc8259
      (some (record { maximum_bytes = 1000; maximum_depth = 10; maximum_tokens = 100 }))
      plain
    ≡ ok created
unfolding writer_create limits_resolve merged keyset_init keyset_capacity
created_lem = refl

abbrev open_calls : List Call
open_calls = Call.object_begin ∷ Call.key (codes "b") ∷ Call.u64 7 ∷ Call.key (codes "a") ∷ []

abbrev close_calls : List Call
close_calls = Call.null ∷ Call.object_end ∷ Call.finish ∷ []

history-IsSound_example : IsSound (run always open_calls created).1
history-IsSound_example = history-IsSound always rfc8259 _ plain created open_calls created_lem

abbrev whole_calls : List Call
whole_calls =
    Call.object_begin
    ∷ Call.key (codes "b")
    ∷ Call.null
    ∷ Call.key (codes "a")
    ∷ Call.string (codes "x")
    ∷ Call.object_end
    ∷ Call.finish
    ∷ []

whole-all_good : all_good (run always whole_calls created).0 ≡ true
unfolding node_key record_failure writer_fail writer_ready no_nul plain_ascii valid_text
    next_capacity grow_nodes append_child failing new_node register_key link_node may_attach
    attach_node create_with writer_create writer_status push container_begin pop container_end
    copy_bytes set_pending_key key_error store_key writer_key change_node write_text writer_string
    write_number_lexeme writer_number_text attach_scalar writer_u64 writer_i64 writer_boolean
    writer_null finish_with writer_finish is_complete perform run capacity_loop new_capacity reserve
    append append_spaces append_break u16_escape append_point append_characters append_string
    number_bytes append_number key_compare not_after merge_keys sort_loop sort_keys child_walk
    children_of serialize_members serialize_elements take_arrays serialize_object serialize_array
    serialize_kind serialize_node serialize hash_key keys_equal probe find_slot allocate_slots
    keyset_capacity keyset_init keyset_contains move_slots grow place insert_new keyset_insert
    keyset_insert_last print_u64 print_i64 hex_digit short_escape canonical_escape continuation
    two_bytes three_bytes four_bytes sequence prefix_loop utf8_valid_prefix utf8_validate next_point
    utf16_next compare_loop utf16_compare utf8_decode encode_utf8
whole-all_good = refl

history-walk_example :
    walk whole_calls empty_phase ≡ some (phase (run always whole_calls created).1)
history-walk_example =
    history-walk always rfc8259 _ plain created whole_calls created_lem whole-all_good

whole_text :
    (run always whole_calls created).0
    ≡ Answer.done
      ∷ Answer.done
      ∷ Answer.done
      ∷ Answer.done
      ∷ Answer.done
      ∷ Answer.done
      ∷ Answer.text (codes "{\"a\":\"x\",\"b\":null}")
      ∷ []
unfolding node_key record_failure writer_fail writer_ready no_nul plain_ascii valid_text
    next_capacity grow_nodes append_child failing new_node register_key link_node may_attach
    attach_node create_with writer_create writer_status push container_begin pop container_end
    copy_bytes set_pending_key key_error store_key writer_key change_node write_text writer_string
    write_number_lexeme writer_number_text attach_scalar writer_u64 writer_i64 writer_boolean
    writer_null finish_with writer_finish is_complete perform run capacity_loop new_capacity reserve
    append append_spaces append_break u16_escape append_point append_characters append_string
    number_bytes append_number key_compare not_after merge_keys sort_loop sort_keys child_walk
    children_of serialize_members serialize_elements take_arrays serialize_object serialize_array
    serialize_kind serialize_node serialize hash_key keys_equal probe find_slot allocate_slots
    keyset_capacity keyset_init keyset_contains move_slots grow place insert_new keyset_insert
    keyset_insert_last print_u64 print_i64 hex_digit short_escape canonical_escape continuation
    two_bytes three_bytes four_bytes sequence prefix_loop utf8_valid_prefix utf8_validate next_point
    utf16_next compare_loop utf16_compare utf8_decode encode_utf8
whole_text = refl

-- An object whose second key waits for its value.
abbrev half : Writer
half = (run always open_calls created).1

half-IsReady : IsReady half
unfolding node_key record_failure writer_fail writer_ready no_nul plain_ascii valid_text
    next_capacity grow_nodes append_child failing new_node register_key link_node may_attach
    attach_node create_with writer_create writer_status push container_begin pop container_end
    copy_bytes set_pending_key key_error store_key writer_key change_node write_text writer_string
    write_number_lexeme writer_number_text attach_scalar writer_u64 writer_i64 writer_boolean
    writer_null finish_with writer_finish is_complete perform run capacity_loop new_capacity reserve
    append append_spaces append_break u16_escape append_point append_characters append_string
    number_bytes append_number key_compare not_after merge_keys sort_loop sort_keys child_walk
    children_of serialize_members serialize_elements take_arrays serialize_object serialize_array
    serialize_kind serialize_node serialize hash_key keys_equal probe find_slot allocate_slots
    keyset_capacity keyset_init keyset_contains move_slots grow place insert_new keyset_insert
    keyset_insert_last print_u64 print_i64 hex_digit short_escape canonical_escape continuation
    two_bytes three_bytes four_bytes sequence prefix_loop utf8_valid_prefix utf8_validate next_point
    utf16_next compare_loop utf16_compare utf8_decode encode_utf8
half-IsReady = (refl, refl)

half-IsValid : IsValid half
half-IsValid = (history-IsSound always rfc8259 _ plain created open_calls created_lem).0

whole-ended :
    (run always whole_calls created).1.finished
      || is_some (run always whole_calls created).1.failure
    ≡ true
unfolding node_key record_failure writer_fail writer_ready no_nul plain_ascii valid_text
    next_capacity grow_nodes append_child failing new_node register_key link_node may_attach
    attach_node create_with writer_create writer_status push container_begin pop container_end
    copy_bytes set_pending_key key_error store_key writer_key change_node write_text writer_string
    write_number_lexeme writer_number_text attach_scalar writer_u64 writer_i64 writer_boolean
    writer_null finish_with writer_finish is_complete perform run capacity_loop new_capacity reserve
    append append_spaces append_break u16_escape append_point append_characters append_string
    number_bytes append_number key_compare not_after merge_keys sort_loop sort_keys child_walk
    children_of serialize_members serialize_elements take_arrays serialize_object serialize_array
    serialize_kind serialize_node serialize hash_key keys_equal probe find_slot allocate_slots
    keyset_capacity keyset_init keyset_contains move_slots grow place insert_new keyset_insert
    keyset_insert_last print_u64 print_i64 hex_digit short_escape canonical_escape continuation
    two_bytes three_bytes four_bytes sequence prefix_loop utf8_valid_prefix utf8_validate next_point
    utf16_next compare_loop utf16_compare utf8_decode encode_utf8
whole-ended = refl

run-IsEnded_example :
    All (λ a. is_error a ≡ true) (run always open_calls (run always whole_calls created).1).0
    × ((run always open_calls (run always whole_calls created).1).1
        ≡ (run always whole_calls created).1)
run-IsEnded_example = run-IsEnded always open_calls (run always whole_calls created).1 whole-ended

-- The document of [null].
abbrev one_null : Document
one_null = record {
  profile = rfc8259;
  bytes = codes "[null]";
  tokens =
      record no_token {
        links = record no_links { first_child = some 1; last_child = some 1; child_count = 1 };
        kind = array;
      }
      ∷ record no_token { kind = Kind.null }
      ∷ [];
  token_capacity = 6;
  arena_used = 0;
  arena_capacity = 6;
  children = 1 ∷ [];
  duplicate_count = 0;
}

-- The calls that write [null].
abbrev null_events : List Event
null_events = begins array ∷ nothing ∷ ends array ∷ []

one_null_lem : value_events (copy_fuel one_null) one_null 0 ≡ some null_events
unfolding value_events kind_events element_events copy_fuel value_type array_size array_get token_of
    child_at
one_null_lem = refl

writer_value-replay_example :
    Copied (Done value_step) half (writer_value always one_null 0 half)
    × (writer_value always one_null 0 half ≡ copied (replay always null_events half))
    × (copy_value (copy_fuel one_null + 5) always one_null 0 half ≡ replay always null_events half)
writer_value-replay_example =
    writer_value-replay always one_null 0 half null_events (copy_fuel one_null + 5) half-IsValid
      half-IsReady one_null_lem (omega arith)

one_null-IsNested : IsNested one_null
unfolding child_at
one_null-IsNested zero zero h = omega arith
one_null-IsNested zero (suc position) h = absurd (omega arith)
one_null-IsNested (suc zero) position h = absurd (omega arith)
one_null-IsNested (suc (suc value)) position h = absurd (omega arith)

copy_value-enough_example :
    copy_value 9 always one_null 0 half ≡ copy_value 2 always one_null 0 half
copy_value-enough_example =
    copy_value-enough always one_null 2 9 0 half one_null-IsNested (omega arith) (omega arith)

-- The document of {"k":null,"z":"x"}.
abbrev two_members : Document
two_members = record one_null {
  bytes = codes "{\"k\":null,\"z\":\"x\"}";
  tokens =
      record no_token {
        links = record no_links { first_child = some 1; last_child = some 4; child_count = 4 };
        kind = object;
      }
      ∷ record no_token { kind = Kind.string; text = some (codes "k"); object_key = true }
      ∷ record no_token { kind = Kind.null }
      ∷ record no_token { kind = Kind.string; text = some (codes "z"); object_key = true }
      ∷ record no_token { kind = Kind.string; text = some (codes "x") }
      ∷ [];
  children = 1 ∷ 2 ∷ 3 ∷ 4 ∷ [];
}

-- Its members without the first.
abbrev z_member : List (Bytes × ℕ)
z_member = (codes "z", 4) ∷ []

two_members-size : object_size two_members 0 ≡ ok 2
unfolding object_size token_of
two_members-size = refl

two_members-list : member_list two_members 0 0 2 ≡ ok ((codes "k", 2) ∷ z_member)
unfolding member_list object_member_at token_of child_at value_string text_view
two_members-list = refl

z-Kept : Kept (codes "k" ∷ []) ((codes "k", 2) ∷ z_member) z_member
z-Kept = inl (inl refl, inr (z_not_listed, ([], (refl, refl))))
  where
    z_not_listed : ¬ IsListed (codes "z") (codes "k" ∷ [])
    z_not_listed (inl e) = omega (arith, ap (λ (key : Bytes). get_or key 0 0) e)
    z_not_listed (inr h) = h

z_events : pair_events two_members z_member ≡ some (keyed (codes "z") ∷ texted (codes "x") ∷ [])
unfolding pair_events value_events kind_events copy_fuel value_type token_of value_string text_view
z_events = refl

object_begin_except-replay_example :
    Copied
      (Done (begin_step object))
      half
      (writer_object_begin_except always two_members 0 (codes "k" ∷ []) half)
    × (writer_object_begin_except always two_members 0 (codes "k" ∷ []) half
        ≡ chain
            (container_begin always object half)
            (λ _ v. copied (replay always (keyed (codes "z") ∷ texted (codes "x") ∷ []) v)))
object_begin_except-replay_example =
    object_begin_except-replay always two_members 0 (codes "k" ∷ []) half 2
      ((codes "k", 2) ∷ z_member) z_member (keyed (codes "z") ∷ texted (codes "x") ∷ [])
      half-IsValid half-IsReady two_members-size two_members-list z-Kept z_events

attach_node-Runs_example :
    Runs
      (Attached array half)
      (Fails (value_step (shape half) ≡ none))
      (attach_node always array half)
attach_node-Runs_example = attach_node-Runs always array half half-IsValid half-IsReady

container_begin-Runs_example :
    Runs
      (Done (begin_step array) half)
      (Fails (Refused (begin_step array) half))
      (container_begin always array half)
container_begin-Runs_example = container_begin-Runs always array half half-IsValid half-IsReady

container_end-Runs_example :
    Runs
      (Done (end_step object) half)
      (Fails (Refused (end_step object) half))
      (container_end object half)
container_end-Runs_example = container_end-Runs object half half-IsValid half-IsReady

writer_key-Answers_example : Answers key_step half (writer_key always (codes "c") half)
writer_key-Answers_example = writer_key-Answers always (codes "c") half half-IsValid half-IsReady

writer_string-Answers_example : Answers value_step half (writer_string always (codes "text") half)
writer_string-Answers_example =
    writer_string-Answers always (codes "text") half half-IsValid half-IsReady

write_number_lexeme-Decides_example :
    Decides (codes "1.5") 256 half (write_number_lexeme always (codes "1.5") 256 half)
write_number_lexeme-Decides_example =
    write_number_lexeme-Decides always (codes "1.5") 256 half half-IsValid half-IsReady
