-- ===== src/Tests/Files.antt =====
-- src/stdio.c on a stream that is a list of bytes.
use maelys_json.Base.{
  ℕ, zero, suc, ◌≤◌, ◌<◌, ◌≡◌, refl, ap, Bool, true, false, ◌&&◌, [], ◌∷◌, ◌++◌, some, Bytes, codes,
  length, take, drop, ltb, ok, arith,
}
use maelys_json.Common.Limits.{limits_resolve, merged}
use maelys_json.Files.{Streams, document_parse_file}
use maelys_json.Files.Reading.{IsStream, Loads, document_parse_file-Loads}
use maelys_json.Parser.Documents.{Sizes, Memory}
use maelys_json.Types.{Limits, rfc8259}

-- The bytes that are left, and whether a read came short.
abbrev Tape : Type 0
Tape = Bytes × Bool

abbrev is_empty : Bytes → Bool
is_empty [] = true
is_empty (b ∷ bs) = false

abbrev tapes : Streams Tape
tapes = record {
  read = λ n s. (take n s.0, (drop n s.0, ltb (length s.0) n));
  at_eof = λ s. s.1 && is_empty s.0;
  has_error = λ s. false;
  closes = λ s. true;
  write = λ bytes s. (length bytes, s);
  flushes = λ s. true;
}

take-append-drop : (n : ℕ) (xs : Bytes) → take n xs ++ drop n xs ≡ xs
take-append-drop zero xs = refl
take-append-drop (suc n) [] = refl
take-append-drop (suc n) (x ∷ xs) = ap (λ t. x ∷ t) (take-append-drop n xs)

length-take-le : (n : ℕ) (xs : Bytes) → length (take n xs) ≤ n
length-take-le zero xs = omega arith
length-take-le (suc n) [] = omega arith
length-take-le (suc n) (x ∷ xs) = omega (arith, length-take-le n xs)

short_read :
    (n : ℕ) (xs : Bytes)
    → length (take n xs) < n
    → (ltb (length xs) n ≡ true) × (is_empty (drop n xs) ≡ true)
short_read zero xs h = absurd (omega arith)
short_read (suc n) [] h = (ground arith, refl)
short_read (suc n) (x ∷ xs) h = ground (arith, short_read n xs (omega arith))

empty_eq : (flag : Bool) (xs : Bytes) → (flag && is_empty xs) ≡ true → xs ≡ []
empty_eq flag [] h = refl
empty_eq flag (x ∷ xs) h = absurd (ground arith)

tapes-IsStream : IsStream tapes (λ s. s.0)
tapes-IsStream = record {
  takes = λ n s. take-append-drop n s.0;
  most = λ n s. length-take-le n s.0;
  short = λ n s h. ground (arith, short_read n s.0 h);
  ends = λ s h. empty_eq s.1 s.0 h;
}

abbrev small : Limits
small = record { maximum_bytes = 100; maximum_depth = 4; maximum_tokens = 50 }

small_lem : limits_resolve (some small) ≡ ok small
unfolding limits_resolve merged
small_lem = refl

abbrev sizes : Sizes
sizes = record { document = 120; token = 112 }

abbrev granted : Memory
granted = record { document = true; keys = true; growth = true; packed = true; children = true }

document_parse_file-Loads_example :
    Loads tapes
      (λ s. s.0)
      tapes-IsStream
      sizes
      granted
      rfc8259
      small
      (codes "[1]", false)
      (document_parse_file tapes sizes granted true rfc8259
        (some small)
        (some (codes "[1]", false)))
document_parse_file-Loads_example =
    document_parse_file-Loads tapes (λ s. s.0) tapes-IsStream sizes granted rfc8259 (some small)
      small (codes "[1]", false) small_lem refl refl refl
