-- ===== src/Files.antt =====
-- src/stdio.c: parsing a file and writing to one. The C streams are a parameter, a record of what
-- the code calls on a stream's state `S`. The path and the stream pointers are given.
pub mod Reading
use maelys_json.Base.{
  ℕ, zero, suc, ◌+◌, ◌-◌, Bool, true, false, not, ◌&&◌, ◌||◌, List, [], ◌∷◌, ◌++◌, Option, none,
  some, Bytes, length, ltb, leb, ◌==◌, Outcome, ok, err, if◌then◌else◌,
}
use maelys_json.Common.Limits.{limits_resolve}
use maelys_json.Common.Position.{error_set}
use maelys_json.Document.{Document}
use maelys_json.Parser.Documents.{Sizes, Memory, document_parse}
use maelys_json.Parser.State.{Failure, failed}
use maelys_json.Types.{Error, argument, memory, limit, io, Profile, Limits}
use maelys_json.Writer.Finish.{writer_finish}
use maelys_json.Writer.State.{Writer}

-- `fread`, `feof`, `ferror`, whether `fclose` succeeds, `fwrite` with its count, and whether
-- `fflush` succeeds.
pub record Streams (S : Type 0) : Type 0 where
  pub read : ℕ → S → Bytes × S
  pub at_eof : S → Bool
  pub has_error : S → Bool
  pub closes : S → Bool
  pub write : Bytes → S → ℕ × S
  pub flushes : S → Bool

-- The failure of a call, at no position of the text.
abbrev pub failure_of : Error → Failure
failure_of e = failed e (some (error_set e [] 0))

module _ {S : Type 0} (streams : Streams S) where
  -- The loop of `read_stream`, with the bytes that the buffer has so far.
  unfoldable pub read_loop : ℕ → ℕ → Bytes → S → Bytes × S
  read_loop zero capacity bytes s = (bytes, s)
  read_loop (suc fuel) capacity bytes s =
      let r = streams.read (capacity - length bytes) s in
      let more = read_loop fuel capacity (bytes ++ r.0) r.1 in
      if ltb (length bytes) capacity && not (streams.at_eof s) && not (streams.has_error s)
      then more
      else (bytes, s)

  -- A short read ends the stream, so a second round reads nothing.
  unfoldable pub read_stream : ℕ → S → Outcome Error Bytes × S
  read_stream capacity s =
      let r = read_loop 2 capacity [] s in (if streams.has_error r.1 then err io else ok r.0, r.1)

  -- Behind the reading: the result of closing, and the test of the size.
  unfoldable pub close_stream : ℕ → Outcome Error Bytes × S → Outcome Error Bytes
  close_stream capacity (err e, s) = err e
  close_stream capacity (ok bytes, s) =
      if not (streams.closes s)
      then err io
      else if leb capacity (length bytes)
      then err limit
      else ok bytes

  unfoldable pub parse_bytes :
      Sizes → Memory → Profile → Limits → Outcome Error Bytes → Outcome Failure Document
  parse_bytes sizes granted profile l (err e) = err (failure_of e)
  parse_bytes sizes granted profile l (ok bytes) =
      document_parse sizes granted bytes profile (some l)

  -- The stream that `fopen` gives, on resolved limits; `allocated` is the result of `malloc`.
  unfoldable pub parse_opened :
      Sizes → Memory → Bool → Profile → Limits → Option S → Outcome Failure Document
  parse_opened sizes granted allocated profile l none = err (failure_of io)
  parse_opened sizes granted allocated profile l (some s) =
      let capacity = l.maximum_bytes + 1 in
      if allocated
      then parse_bytes sizes granted profile l (close_stream capacity (read_stream capacity s))
      else err (failure_of memory)

  unfoldable pub parse_limited :
      Sizes → Memory → Bool → Profile → Outcome Error Limits → Option S → Outcome Failure Document
  parse_limited sizes granted allocated profile (err e) opened = err (failure_of argument)
  parse_limited sizes granted allocated profile (ok l) opened =
      parse_opened sizes granted allocated profile l opened

  unfoldable pub document_parse_file :
      Sizes → Memory → Bool → Profile → Option Limits → Option S → Outcome Failure Document
  document_parse_file sizes granted allocated profile requested opened =
      parse_limited sizes granted allocated profile (limits_resolve requested) opened

  unfoldable pub write_bytes : Outcome Error Bytes → S → Option Error × S
  write_bytes (err e) s = (some e, s)
  write_bytes (ok bytes) s =
      let r = streams.write bytes s in
      (if not (r.0 == length bytes) || not (streams.flushes r.1) then some io else none, r.1)

  unfoldable pub writer_finish_file : (ℕ → Bool) → Writer → S → (Option Error × S) × Writer
  writer_finish_file granted w s = let r = writer_finish granted w in (write_bytes r.0 s, r.1)
