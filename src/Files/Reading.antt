-- ===== src/Files/Reading.antt =====
-- Parsing a file is parsing what is in it, if that fits: `maelys_json_document_parse_file` of
-- src/stdio.c.
use maelys_json.Base.{
  ℕ, ◌+◌, ◌-◌, ◌≤◌, ◌<◌, ◌≡◌, ◌⊎◌, inl, inr, refl, sym, ap, ◌∙◌, true, false, not, ◌&&◌, ◌||◌, [],
  ◌++◌, append-nil, Option, some, Bytes, length, length-append, ltb, leb, Outcome, ok, err, arith,
  Bool-cases,
}
use maelys_json.Common.Limits.{limits_resolve}
use maelys_json.Document.{Document}
use maelys_json.Files.{
  Streams, failure_of, read_loop, read_stream, close_stream, parse_bytes, parse_opened,
  parse_limited, document_parse_file,
}
use maelys_json.Parser.Documents.{Sizes, Memory, document_parse}
use maelys_json.Parser.State.{Failure}
use maelys_json.Types.{limit, io, Profile, Limits}

-- The documented behaviour of `fread`, `feof` and `fclose` on a stream with the content `left`: a
-- read takes from the front, no more than asked; it is short only at the end or on an error.
pub record IsStream {S : Type 0} (streams : Streams S) (left : S → Bytes) : Type 0 where
  pub takes : (n : ℕ) (s : S) → (streams.read n s).0 ++ left (streams.read n s).1 ≡ left s
  pub most : (n : ℕ) (s : S) → length (streams.read n s).0 ≤ n
  pub short :
      (n : ℕ) (s : S)
      → length (streams.read n s).0 < n
      → (streams.at_eof (streams.read n s).1 || streams.has_error (streams.read n s).1) ≡ true
  pub ends : (s : S) → streams.at_eof s ≡ true → left s ≡ []

module _ {S : Type 0} (streams : Streams S) (left : S → Bytes) (file : IsStream streams left) where
  -- What was read stands in front of what is left; and the buffer is full, or nothing is left, or
  -- the stream has an error.
  abbrev Reads : ℕ → S → Bytes × S → Type 0
  Reads capacity s (bytes, t) =
      (bytes ++ left t ≡ left s)
      × (length bytes ≤ capacity)
      × ((length bytes ≡ capacity) ⊎ ((left t ≡ []) ⊎ (streams.has_error t ≡ true)))

  second_round :
      (capacity : ℕ) (s t : S) (bytes : Bytes)
      → bytes ++ left t ≡ left s
      → length bytes ≤ capacity
      → (ltb (length bytes) capacity && not (streams.at_eof t) && not (streams.has_error t)) ≡ false
      → Reads capacity s (bytes, t)
  second_round capacity s t bytes same most h = elim (Bool-cases (streams.has_error t)) [
    | inl e ↦ (same, most, inr (inr e))
    | inr e ↦ elim (Bool-cases (streams.at_eof t)) [
      | inl e' ↦ (same, most, inr (inl (file.ends t e')))
      | inr e' ↦ (same, most, inl (ground (arith, h, most)))
    ]
  ]

  -- The first round, on a stream that was just opened.
  read_loop-Reads :
      (capacity : ℕ) (s : S)
      → 0 < capacity
      → streams.at_eof s ≡ false
      → streams.has_error s ≡ false
      → Reads capacity s (read_loop streams 2 capacity [] s)
  unfolding read_loop
  read_loop-Reads capacity s pos eof error =
      let r = streams.read (capacity - 0) s in
      let most : length r.0 ≤ capacity = omega (arith, file.most (capacity - 0) s) in
      let stops : (ltb (length r.0) capacity
            && not (streams.at_eof r.1)
            && not (streams.has_error r.1))
          ≡ false =
        elim (Bool-cases (ltb (length r.0) capacity)) [
          | inr e ↦ ground (arith, e)
          | inl e ↦ ground (arith, file.short (capacity - 0) s (ground arith))
        ] in
      let first : (ltb 0 capacity && not (streams.at_eof s) && not (streams.has_error s)) ≡ true =
        ground (arith, pos, eof, error) in
      rw (first, stops) (second_round capacity s r.1 r.0 (file.takes (capacity - 0) s) most stops)

  -- What a parse of a file answers: the stream had an error while it was read; or the text is too
  -- long for the limit; or the text is parsed.
  abbrev pub Loads : Sizes → Memory → Profile → Limits → S → Outcome Failure Document → Type 0
  Loads sizes granted profile l s r =
      ((streams.has_error (read_stream streams (l.maximum_bytes + 1) s).1 ≡ true)
        × (r ≡ err (failure_of io)))
      ⊎ (((l.maximum_bytes < length (left s)) × (r ≡ err (failure_of limit)))
          ⊎ ((length (left s) ≤ l.maximum_bytes)
              × (r ≡ document_parse sizes granted (left s) profile (some l))))

  loaded :
      (sizes : Sizes) (granted : Memory) (profile : Profile) (l : Limits) (s : S)
      → streams.closes (read_stream streams (l.maximum_bytes + 1) s).1 ≡ true
      → Reads (l.maximum_bytes + 1) s (read_loop streams 2 (l.maximum_bytes + 1) [] s)
      → Loads sizes granted profile l s (
          parse_bytes streams sizes granted profile l (
            close_stream streams
              (l.maximum_bytes + 1)
              (read_stream streams (l.maximum_bytes + 1) s)))
  unfolding read_stream close_stream parse_bytes
  loaded sizes granted profile l s closes (same, most, how) =
      let capacity = l.maximum_bytes + 1 in
      let bytes = (read_loop streams 2 capacity [] s).0 in
      let t = (read_loop streams 2 capacity [] s).1 in
      elim (Bool-cases (streams.has_error t)) [
        | inl e ↦ inl (e, rw e refl)
        | inr e ↦ elim (Bool-cases (leb capacity (length bytes))) [
          | inl over ↦
              let long : capacity ≤ length bytes = ground arith in
              inr (
                inl (
                  omega (arith, ap length same, length-append bytes (left t), long),
                  rw (e, closes, over) refl,
                ))
          | inr fits ↦
              let short : length bytes < capacity = ground arith in
              let all : bytes ≡ left s = elim how [
                | inl full ↦ absurd (omega (arith, full, short))
                | inr (inl none') ↦
                    sym (append-nil bytes) ∙ (ap (λ x. bytes ++ x) (sym none') ∙ same)
                | inr (inr bad) ↦ absurd (ground (arith, e, bad))
              ] in
              inr (
                inr (
                  omega (arith, ap length all, short),
                  rw (e, closes, fits)
                      (ap (λ x. document_parse sizes granted x profile (some l)) all),
                ))
        ]
      ]

  -- Parsing a file that could be opened and closed, with memory for its buffer.
  pub document_parse_file-Loads :
      (sizes : Sizes) (granted : Memory) (profile : Profile) (requested : Option Limits)
      (l : Limits) (s : S)
      → limits_resolve requested ≡ ok l
      → streams.at_eof s ≡ false
      → streams.has_error s ≡ false
      → streams.closes (read_stream streams (l.maximum_bytes + 1) s).1 ≡ true
      → Loads sizes granted profile l s
          (document_parse_file streams sizes granted true profile requested (some s))
  unfolding document_parse_file parse_limited parse_opened
  document_parse_file-Loads sizes granted profile requested l s limits eof error closes =
      rw limits (
        loaded sizes granted profile l s closes
          (read_loop-Reads (l.maximum_bytes + 1) s (omega arith) eof error))
