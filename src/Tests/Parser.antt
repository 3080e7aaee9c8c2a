-- ===== src/Tests/Parser.antt =====
-- src/parser.c at concrete inputs.
use maelys_json.Base.{
  arith, true, List, [], ◌∷◌, Option, none, some, ◌≡◌, refl, Bytes, codes, map, Outcome, ok, err,
}
use maelys_json.Common.Position.{ErrorAt, error_set}
use maelys_json.Document.{Document}
use maelys_json.Document.Access.{text_of, same_bytes}
use maelys_json.Parser.State.{
  Parser, Failure, failed, out_of_fuel, token_key, is_space, at_end, current, skip_loop, skip_space,
  links_append, new_token, add_token, container_delimiter,
}
use maelys_json.Parser.Documents.{
  Sizes, Memory, document_parse, total_bytes, at_least_one, token_capacity, allocation_sizes,
  parse_allocation_bound, allocate_document, parse_text, recorded, recorded_failure, finish,
}
use maelys_json.Keyset.{
  hash_key, keys_equal, probe, find_slot, allocate_slots, keyset_capacity, keyset_init,
  keyset_contains, move_slots, grow, place, insert_new, keyset_insert, keyset_insert_last,
}
use maelys_json.Parser.Strings.{
  scan_loop, scan_string_body, scanned, supersede, add_key, store_text, decode_text, parse_string,
}
use maelys_json.Parser.Primitive.{is_delimiter, lexeme_end, lexeme_kind, parse_primitive}
use maelys_json.Parser.Values.{start_of, colon, close, opened, closes, parse_value}
use maelys_json.Parser.Compact.{
  sibling_walk, is_container, children_loop, build_children, after_superseded, is_superseded,
  text_bytes, compact_token, compact_document, compact_walk,
}
use maelys_json.Common.Limits.{merged, limits_resolve}
use maelys_json.Utf8.Literal.{plain_run, decode_loop, decode_ascii, decode_string}
use maelys_json.Common.Number.{number_syntax}
use maelys_json.Utf8.Validate.{utf8_valid_prefix, sequence}
use maelys_json.Parser.Documents.Bounds.{Ends, document_parse-Ends}
use maelys_json.Parser.State.Runs.{Runs, Steps}
use maelys_json.Parser.Values.Runs.{parse_value-Runs}
use maelys_json.Types.{duplicate_key, Profile, rfc8259, rfc8259_last_wins}

abbrev sizes : Sizes
sizes = record { document = 120; token = 112 }

abbrev granted : Memory
granted = record { document = true; keys = true; growth = true; packed = true; children = true }

abbrev texts : Outcome Failure Document → List Bytes
texts (ok d) = map text_of d.tokens
texts (err e) = []

abbrev error_of : Outcome Failure Document → Option ErrorAt
error_of (ok d) = none
error_of (err (failed e at)) = at
error_of (err out_of_fuel) = none

abbrev parse : Profile → Bytes → Outcome Failure Document
parse profile bytes = document_parse sizes granted bytes profile none

abbrev pub sample : Bytes
sample = codes "{\"a\": [1, true], \"b\": \"x\"}"

parse_runs :
    (texts (parse rfc8259 sample)
      ≡ [] ∷ codes "a" ∷ [] ∷ codes "1" ∷ [] ∷ codes "b" ∷ codes "x" ∷ [])
    × (error_of (parse rfc8259 (codes "{\"a\":1,\n\"a\":2}"))
        ≡ some (record { code = duplicate_key; offset = 8; line = 2; column = 1 }))
    × (texts (parse rfc8259_last_wins (codes "{\"a\":1,\"a\":2}"))
        ≡ [] ∷ codes "a" ∷ codes "2" ∷ [])
unfolding hash_key keys_equal probe find_slot allocate_slots keyset_capacity keyset_init
    keyset_contains move_slots grow place insert_new keyset_insert keyset_insert_last token_key
    is_space at_end current skip_loop skip_space links_append new_token add_token
    container_delimiter scan_loop scan_string_body scanned supersede add_key store_text decode_text
    parse_string is_delimiter lexeme_end lexeme_kind parse_primitive start_of colon close opened
    closes parse_value sibling_walk is_container children_loop build_children after_superseded
    is_superseded text_bytes compact_token compact_document compact_walk total_bytes at_least_one
    token_capacity allocation_sizes parse_allocation_bound allocate_document parse_text recorded
    recorded_failure finish document_parse merged limits_resolve error_set same_bytes plain_run
    decode_loop decode_ascii decode_string number_syntax utf8_valid_prefix sequence
parse_runs = (refl, refl, refl)

document_parse-Ends_example : Ends (parse rfc8259 sample)
document_parse-Ends_example = document_parse-Ends sizes granted sample rfc8259 none

abbrev start : Parser
start = record {
  document = record {
    profile = rfc8259;
    bytes = sample;
    tokens = [];
    token_capacity = 25;
    arena_used = 0;
    arena_capacity = 51;
    children = [];
    duplicate_count = 0;
  };
  profile = rfc8259;
  limits = record { maximum_bytes = 65535; maximum_depth = 32; maximum_tokens = 8192 };
  offset = 0;
  keys = record { slots = []; capacity = 0; count = 0 };
  growth = true;
}

parse_value-Runs_example : Runs (λ index. Steps 1 start) (parse_value 100 none 0 start)
parse_value-Runs_example = parse_value-Runs 100 none 0 start (omega arith) (omega arith)
