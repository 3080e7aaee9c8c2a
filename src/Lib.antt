-- ===== src/Lib.antt =====
-- maelys-json: a bounded JSON reader and a canonical writer in C.
--
-- A parse takes bytes, a profile and limits, and gives a document: an array of tokens linked as a
-- tree, with the decoded texts in an arena. The readers look up members and read exact integers.
-- The writer builds a tree of nodes by a state machine and prints it, in canonical form with the
-- keys in the order of their UTF-16 code units.
--
-- Files and code (paths from the repository's root):
-- - Types: the public types of include/maelys/json.h. `size_t` and `uint64_t` have 64 bits.
-- - Common: src/common.c. Common/Limits is maelys_json_limits_resolve, Common/Position is
--   maelys_json_error_set, Common/Number is maelys_json_number_syntax, Common/Escape is
--   maelys_json_canonical_escape. Common/Decimal is the decimal print of an integer, which the
--   code takes from snprintf.
-- - Utf8: src/utf8.c. Utf8/Validate is the validator, Utf8/Points the encoder and the decoder of
--   code points, Utf8/Literal is maelys_json_decode_string, Utf8/Order the key order.
-- - Document: the structures of src/internal.h, Document/Access the readers of src/document.c,
--   Document/Integers its integer readers and src/helpers.c.
-- - Keyset: src/keyset.c, the set of keys that finds duplicates.
-- - Parser: src/parser.c. Parser/State has the state, tokens and spaces, Parser/Strings is
--   parse_string, Parser/Primitive is parse_primitive, Parser/Values the recursive descent,
--   Parser/Compact the passes over a parsed document, Parser/Documents is
--   maelys_json_document_parse.
-- - Writer: src/writer.c and its structures in src/writer_internal.h. Writer/State is the state, the
--   sticky error and the tests of texts; Writer/Attach is grow_nodes and attach_node; Writer/Calls
--   has the calls that build the tree; Writer/Copy copies values of a document, with the calls for
--   a value as a list of events in Writer/Copy/Replay; Writer/Finish is maelys_json_writer_finish. Writer/State/Shape is what a caller has to know of a writer, with the
--   step of each call, and Writer/History has lists of calls.
-- - Serializer: src/serialize.c. Serializer/Buffer is the growing buffer, Serializer/Text the strings
--   and numbers, Serializer/Sort the merge sort of the keys, Serializer/Nodes the walk over the tree
--   and maelys_json_serialize. Serializer/Nodes/Renders is the text of a tree, with no buffer,
--   and Serializer/Nodes/Trees has the trees whose children stand behind their parents.
-- - Canonical: src/canonical.c. Canonical/Form is the canonical text of a document, from the points
--   of its keys and the lexemes of its numbers (Canonical/Numbers), and Canonical/Layout the text
--   that the walk asks for.
-- - Files: src/stdio.c, on C streams that are a parameter.
-- - Pointer: src/pointer.c. Pointer/Emitting has the text of a pointer, Pointer/Scanning the scan.
-- - Tests: the theorems at concrete inputs, and runs of the definitions.
--
-- State and correspondence. A document is a record with its tokens as a list, so the number of
-- tokens is the length of the list. The text of a token, a pointer into the arena with a size, is a
-- byte list in the token, and `arena_used` counts the bytes as the code does. An index of a token is
-- an `Option ℕ`, with `none` for MAELYS_JSON_VALUE_NONE. A result is an `Outcome`; where the code
-- returns MAELYS_JSON_OK the outcome holds what the code writes through its output pointers. The
-- parser threads its record through an outcome; a failure carries the error position that the code
-- records. Null pointers and invalid enum values, which the code answers with ERR_ARGUMENT, have no
-- counterpart. A call on a writer is a function of the writer that gives an outcome and the writer
-- behind it; a call and its variant for text with a final NUL are one function. The stack of open
-- containers is a list, the current one first. A flag is a Boolean, so unknown flags have no
-- counterpart. The parser has an error output; without one it does the same and records nothing.
--
-- Memory. Whether an allocation succeeds is a Boolean argument, the record `Memory` of
-- Parser/Documents; `growth` stands for every growth of the key set. The sizes of the C structures
-- are the record `Sizes`. A writer and the serializer count their requests for memory, and the
-- argument `granted` says which are met; one request stands for every one that an insertion into the
-- key set makes. Release functions are not modelled.
--
-- Fuel. Loops over the input take a round for each byte. The recursive descent takes three calls
-- for each byte and three more, which is enough for every input. A probe of the key set takes a
-- round for each slot; the walks over sibling links take a step for each token or node. A copy of a
-- value, the canonical walk and the serializer go one level deeper on each unit, and have at least
-- one for each token or node, since a child stands behind its parent in what the parser and the
-- writer build. The growth of the buffer doubles, and 64 rounds pass any size_t; the merge takes a
-- round for each output; reading a stream takes two rounds, since a short read ends it.
--
-- Not modelled: the messages of src/common.c, functions that only release memory, and the tests and
-- tools.
pub mod Base
pub mod Types
pub mod Common
pub mod Utf8
pub mod Document
pub mod Keyset
pub mod Parser
pub mod Writer
pub mod Serializer
pub mod Canonical
pub mod Files
pub mod Pointer
mod Tests
