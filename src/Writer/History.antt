-- ===== src/Writer/History.antt =====
-- The calls of src/writer.c on a writer as one step each, so that a program that writes a document
-- is a list of calls. The calls that only read the writer, and its release, are left out.
pub mod Sound
pub mod Order
pub mod Runs
use maelys_json.Base.{ℕ, Bool, List, [], ◌∷◌, Option, none, some, Bytes, Outcome, ok, err}
use maelys_json.Base.Int.{ℤ}
use maelys_json.Document.{Document}
use maelys_json.Types.{Error, Kind, object, array, maximum_number_text}
use maelys_json.Writer.Calls.{
  container_begin, container_end, writer_key, writer_string, writer_number_text, writer_u64,
  writer_i64, writer_boolean, writer_null,
}
use maelys_json.Writer.Copy.{writer_value, writer_object_begin_except}
use maelys_json.Writer.Finish.{writer_finish}
use maelys_json.Writer.State.{Writer}

pub data Call : Type 0 where
  object_begin : Call
  object_end : Call
  array_begin : Call
  array_end : Call
  key : Bytes → Call
  string : Bytes → Call
  number_text : Bytes → Call
  u64 : ℕ → Call
  i64 : ℤ → Call
  boolean : Bool → Call
  null : Call
  value : Document → ℕ → Call
  object_begin_except : Document → ℕ → List Bytes → Call
  finish : Call

-- The result code, and the text of `finish`.
pub data Answer : Type 0 where
  done : Answer
  text : Bytes → Answer
  error : Error → Answer

abbrev pub answer : Outcome Error (Unit {0}) × Writer → Answer × Writer
answer (ok u, w) = (done, w)
answer (err e, w) = (error e, w)

abbrev pub text_answer : Outcome Error Bytes × Writer → Answer × Writer
text_answer (ok bytes, w) = (text bytes, w)
text_answer (err e, w) = (error e, w)

-- The results of the allocator, by the number of the request.
unfoldable pub perform : (ℕ → Bool) → Call → Writer → Answer × Writer
perform granted object_begin w = answer (container_begin granted Kind.object w)
perform granted object_end w = answer (container_end Kind.object w)
perform granted array_begin w = answer (container_begin granted Kind.array w)
perform granted array_end w = answer (container_end Kind.array w)
perform granted (key bytes) w = answer (writer_key granted bytes w)
perform granted (string bytes) w = answer (writer_string granted bytes w)
perform granted (number_text lexeme) w = answer (writer_number_text granted lexeme w)
perform granted (u64 n) w = answer (writer_u64 granted n w)
perform granted (i64 n) w = answer (writer_i64 granted n w)
perform granted (boolean enabled) w = answer (writer_boolean granted enabled w)
perform granted null w = answer (writer_null granted w)
perform granted (value d index) w = answer (writer_value granted d index w)
perform granted (object_begin_except d o excluded) w =
    answer (writer_object_begin_except granted d o excluded w)
perform granted finish w = text_answer (writer_finish granted w)

-- The answers, and the writer behind the calls.
unfoldable pub run : (ℕ → Bool) → List Call → Writer → List Answer × Writer
run granted [] w = ([], w)
run granted (c ∷ calls) w =
    let (a, v) = perform granted c w in let (answers, x) = run granted calls v in (a ∷ answers, x)
