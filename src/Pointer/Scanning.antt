-- ===== src/Pointer/Scanning.antt =====
-- The scan of src/pointer.c ends, behind the limit, and stays inside its array of frames.
use maelys_json.Base.{
  ℕ, zero, suc, ◌+◌, ◌≤◌, ◌<◌, ◌≡◌, refl, false, ◌||◌, List, [], ◌∷◌, Bytes, length, ltb, ◌==◌,
  if◌then◌else◌, arith, Bool-cases, inl, inr,
}
use maelys_json.Parser.State.{is_space}
use maelys_json.Pointer.{
  Frame, is_delimiter, byte_at, string_loop, skip_string, skip_word, on_top, on_comma, on_colon,
  on_string, pop_frame, scan_step, scan_loop,
}
use maelys_json.Types.{depth_ceiling}

string_loop-le : (fuel : ℕ) (bytes : Bytes) (pos : ℕ) → pos ≤ string_loop fuel bytes pos
unfolding string_loop
string_loop-le zero bytes pos = omega arith
string_loop-le (suc fuel) bytes pos =
    let step : ℕ = if byte_at bytes pos == b'\\' then 2 else 1 in
    ground (arith, string_loop-le fuel bytes (pos + step))

skip_string-lt : (bytes : Bytes) (pos : ℕ) → pos < length bytes → pos < skip_string bytes pos
unfolding skip_string
skip_string-lt bytes pos h = ground (arith, string_loop-le (length bytes) bytes (pos + 1))

skip_word-le : (fuel : ℕ) (bytes : Bytes) (pos : ℕ) → pos ≤ skip_word fuel bytes pos
unfolding skip_word
skip_word-le zero bytes pos = omega arith
skip_word-le (suc fuel) bytes pos = ground (arith, skip_word-le fuel bytes (pos + 1))

skip_word-lt :
    (bytes : Bytes) (pos : ℕ)
    → pos < length bytes
    → is_delimiter (byte_at bytes pos) ≡ false
    → pos < skip_word (length bytes) bytes pos
skip_word-lt bytes pos h e = go (length bytes) (omega arith)
  where
    go : (fuel : ℕ) → 0 < fuel → pos < skip_word fuel bytes pos
    go zero p = absurd (omega arith)
    go (suc fuel) p = unfold skip_word in ground (arith, skip_word-le fuel bytes (pos + 1), h, e)

length-on_top : (f : Frame → Frame) (frames : List Frame) → length (on_top f frames) ≡ length frames
length-on_top f [] = refl
length-on_top f (top ∷ frames) = refl

length-pop_frame : (frames : List Frame) → length (pop_frame frames) ≤ length frames
length-pop_frame [] = omega arith
length-pop_frame (top ∷ frames) = omega arith

-- A round goes on by a byte at least, and pushes only where there is room.
abbrev Advances : ℕ → List Frame × ℕ → Type 0
Advances pos (frames, next) = (pos < next) × (length frames ≤ depth_ceiling)

scan_step-Advances :
    (bytes : Bytes) (frames : List Frame) (pos : ℕ)
    → pos < length bytes
    → length frames ≤ depth_ceiling
    → Advances pos (scan_step bytes frames pos)
unfolding scan_step is_delimiter
scan_step-Advances bytes frames pos h fits =
    let byte = byte_at bytes pos in
    elim (Bool-cases (is_space byte)) [
      | inl e ↦ rw e (omega arith, fits)
      | inr space ↦ elim (Bool-cases (byte == b'{' || byte == b'[')) [
        | inl e ↦ rw (space, e) (omega arith, ground arith)
        | inr open' ↦ elim (Bool-cases (byte == b'}' || byte == b']')) [
          | inl e ↦ rw (space, open', e) (omega arith, omega (arith, length-pop_frame frames))
          | inr close ↦ elim (Bool-cases (byte == b',')) [
            | inl e ↦
                rw (space, open', close, e)
                  (omega arith, omega (arith, length-on_top on_comma frames))
            | inr comma ↦ elim (Bool-cases (byte == b':')) [
              | inl e ↦
                  rw (space, open', close, comma, e)
                    (omega arith, omega (arith, length-on_top on_colon frames))
              | inr colon ↦ elim (Bool-cases (byte == b'"')) [
                | inl e ↦
                    rw (space, open', close, comma, colon, e)
                      (
                        skip_string-lt bytes pos h,
                        omega (
                          arith,
                          length-on_top (on_string bytes pos (skip_string bytes pos)) frames,
                        ),
                      )
                | inr quote ↦
                    rw (space, open', close, comma, colon, quote)
                      (skip_word-lt bytes pos h (ground (arith, space, close, comma, colon)), fits)
              ]
            ]
          ]
        ]
      ]
    ]

-- The scan ends at the limit or behind it, with no more frames than the array has.
abbrev pub Scans : ℕ → List Frame × ℕ → Type 0
Scans limit (frames, pos) = (limit ≤ pos) × (length frames ≤ depth_ceiling)

scan_loop-steps :
    (fuel : ℕ) (bytes : Bytes) (limit : ℕ) (frames : List Frame) (pos : ℕ)
    → limit ≤ length bytes
    → length frames ≤ depth_ceiling
    → limit ≤ fuel + pos
    → Scans limit (scan_loop fuel bytes limit frames pos)
unfolding scan_loop
scan_loop-steps zero bytes limit frames pos inside fits enough = (omega arith, fits)
scan_loop-steps (suc fuel) bytes limit frames pos inside fits enough =
    elim (Bool-cases (ltb pos limit)) [
      | inr e ↦ rw (e, scan_loop) (ground arith, fits)
      | inl e ↦
          let below : pos < limit = ground arith in
          let step = scan_step-Advances bytes frames pos (omega arith) fits in
          rw (e, scan_loop)
            (scan_loop-steps fuel bytes limit (scan_step bytes frames pos).0
              (scan_step bytes frames pos).1 inside step.1 (omega (arith, step.0)))
    ]

-- Up to any limit inside the input, the scan with the limit as fuel ends there or behind it, with
-- no more frames than the array has.
pub scan_loop-Scans :
    (bytes : Bytes) (limit : ℕ)
    → limit ≤ length bytes
    → Scans limit (scan_loop limit bytes limit [] 0)
scan_loop-Scans bytes limit inside =
    scan_loop-steps limit bytes limit [] 0 inside (omega arith) (omega arith)
