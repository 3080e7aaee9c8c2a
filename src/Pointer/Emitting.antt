-- ===== src/Pointer/Emitting.antt =====
-- The buffer of `maelys_json_error_pointer` of src/pointer.c: as with snprintf, a prefix is stored
-- and the whole length is the result.
use maelys_json.Base.{
  ℕ, zero, suc, ◌+◌, ◌-◌, ◌≤◌, ◌<◌, ◌≡◌, refl, sym, ap, ap₂, ◌∙◌, Bool, true, false, not, ◌||◌,
  List, [], ◌∷◌, ◌++◌, append-nil, append_assoc, Bytes, length, length-append, take, ltb, ◌==◌,
  if◌then◌else◌, arith, Bool-cases, inl, inr,
}
use maelys_json.Pointer.{
  Frame, Emitter, emit_byte, emit_finish, emit_characters, emit_token, index_digits, emit_digits,
  emit_index, key_bytes, emit_key, scan, emit_frames, new_emitter, error_pointer,
}

-- The text of a pointer, whatever the buffer is.
unfoldable pub escaped_token : Bytes → Bytes
escaped_token [] = []
escaped_token (b ∷ bs) =
    (if b == b'~' then b'~' ∷ b'0' ∷ [] else if b == b'/' then b'~' ∷ b'1' ∷ [] else b ∷ [])
    ++ escaped_token bs

unfoldable pub pointer_text : (ℕ → Bool) → Bytes → List Frame → ℕ → Bytes
pointer_text keys bytes [] i = []
pointer_text keys bytes (f ∷ frames) i =
    if f.is_object
    then if not f.has_key || not f.in_value
      then []
      else (b'/' ∷ escaped_token (key_bytes (keys i) bytes f))
        ++ pointer_text keys bytes frames (i + 1)
    else (b'/' ∷ index_digits (f.index + 1) f.index []) ++ pointer_text keys bytes frames (i + 1)

-- The emitter behind a text.
abbrev emitted : ℕ → Bytes → Emitter
emitted capacity out = record {
  buffer = take (capacity - 1) out;
  capacity = capacity;
  length = length out;
}

take_all : (n : ℕ) (xs : Bytes) → length xs ≤ n → take n xs ≡ xs
take_all zero [] h = refl
take_all zero (x ∷ xs) h = absurd (omega arith)
take_all (suc n) [] h = refl
take_all (suc n) (x ∷ xs) h = ap (λ t. x ∷ t) (take_all n xs (omega arith))

take-append : (n : ℕ) (xs ys : Bytes) → n ≤ length xs → take n (xs ++ ys) ≡ take n xs
take-append zero xs ys h = refl
take-append (suc n) [] ys h = absurd (omega arith)
take-append (suc n) (x ∷ xs) ys h = ap (λ t. x ∷ t) (take-append n xs ys (omega arith))

emit_byte-emitted :
    (capacity b : ℕ) (out : Bytes)
    → emit_byte b (emitted capacity out) ≡ emitted capacity (out ++ b ∷ [])
unfolding emit_byte
emit_byte-emitted capacity b out =
    let longer = length-append out (b ∷ []) in
    let same : (if ltb (length out + 1) capacity
          then take (capacity - 1) out ++ b ∷ []
          else take (capacity - 1) out)
        ≡ take (capacity - 1) (out ++ b ∷ []) =
      elim (Bool-cases (ltb (length out + 1) capacity)) [
        | inl e ↦
            let fits : length out + 1 ≤ capacity - 1 = ground arith in
            rw e (
              ap (λ t. t ++ b ∷ []) (take_all (capacity - 1) out (omega (arith, fits)))
              ∙ sym (take_all (capacity - 1) (out ++ b ∷ []) (omega (arith, fits, longer))))
        | inr e ↦
            let full : capacity - 1 ≤ length out = ground arith in
            rw e (sym (take-append (capacity - 1) out (b ∷ []) full))
      ] in
    ap₂ (λ x n. record { buffer = x; capacity = capacity; length = n }) same (sym longer)

-- A step that appends a text.
abbrev Appends : Bytes → (Emitter → Emitter) → Type 0
Appends out f =
    (capacity : ℕ) (before : Bytes) → f (emitted capacity before) ≡ emitted capacity (before ++ out)

Appends-byte : (b : ℕ) → Appends (b ∷ []) (emit_byte b)
Appends-byte b capacity before = emit_byte-emitted capacity b before

Appends-nothing : Appends [] (λ e. e)
Appends-nothing capacity before = ap (emitted capacity) (sym (append-nil before))

Appends-then :
    (x y : Bytes) (f g : Emitter → Emitter)
    → Appends x f
    → Appends y g
    → Appends (x ++ y) (λ e. g (f e))
Appends-then x y f g h k capacity before =
    ap g (h capacity before)
    ∙ (k capacity (before ++ x) ∙ ap (emitted capacity) (append_assoc before x y))

Appends-if :
    (b : Bool) (x y : Bytes) (f g : Emitter → Emitter)
    → Appends x f
    → Appends y g
    → Appends (if b then x else y) (λ e. if b then f e else g e)
Appends-if true x y f g h k = h
Appends-if false x y f g h k = k

-- The bytes of one character, and how the code emits them.
abbrev character : ℕ → Bytes
character b = if b == b'~' then b'~' ∷ b'0' ∷ [] else if b == b'/' then b'~' ∷ b'1' ∷ [] else b ∷ []

abbrev emit_character : ℕ → Emitter → Emitter
emit_character b e =
    if b == b'~'
    then emit_byte b'0' (emit_byte b'~' e)
    else if b == b'/'
    then emit_byte b'1' (emit_byte b'~' e)
    else emit_byte b e

pair-Appends : (a b : ℕ) → Appends (a ∷ b ∷ []) (λ e. emit_byte b (emit_byte a e))
pair-Appends a b =
    Appends-then (a ∷ []) (b ∷ []) (emit_byte a) (emit_byte b) (Appends-byte a) (Appends-byte b)

character-Appends : (b : ℕ) → Appends (character b) (emit_character b)
character-Appends b =
    Appends-if (b == b'~') (b'~' ∷ b'0' ∷ []) (if b == b'/' then b'~' ∷ b'1' ∷ [] else b ∷ [])
      (λ e. emit_byte b'0' (emit_byte b'~' e))
      (λ e. if b == b'/' then emit_byte b'1' (emit_byte b'~' e) else emit_byte b e)
      (pair-Appends b'~' b'0')
      (Appends-if (b == b'/') (b'~' ∷ b'1' ∷ []) (b ∷ []) (λ e. emit_byte b'1' (emit_byte b'~' e))
        (emit_byte b) (pair-Appends b'~' b'1') (Appends-byte b))

characters-Appends : (bs : Bytes) → Appends (escaped_token bs) (emit_characters bs)
unfolding emit_characters escaped_token
characters-Appends [] = Appends-nothing
characters-Appends (b ∷ bs) =
    Appends-then (character b) (escaped_token bs) (emit_character b) (emit_characters bs)
      (character-Appends b) (characters-Appends bs)

digits-Appends : (bs : Bytes) → Appends bs (emit_digits bs)
unfolding emit_digits
digits-Appends [] = Appends-nothing
digits-Appends (b ∷ bs) =
    Appends-then (b ∷ []) bs (emit_byte b) (emit_digits bs) (Appends-byte b) (digits-Appends bs)

token-Appends : (bytes : Bytes) → Appends (b'/' ∷ escaped_token bytes) (emit_token bytes)
unfolding emit_token
token-Appends bytes =
    Appends-then (b'/' ∷ []) (escaped_token bytes) (emit_byte b'/') (emit_characters bytes)
      (Appends-byte b'/') (characters-Appends bytes)

index-Appends : (n : ℕ) → Appends (b'/' ∷ index_digits (n + 1) n []) (emit_index n)
unfolding emit_index
index-Appends n =
    let digits = index_digits (n + 1) n [] in
    Appends-then (b'/' ∷ []) digits (emit_byte b'/') (emit_digits digits) (Appends-byte b'/')
      (digits-Appends digits)

frames-Appends :
    (keys : ℕ → Bool) (bytes : Bytes) (frames : List Frame) (i : ℕ)
    → Appends (pointer_text keys bytes frames i) (emit_frames keys bytes frames i)
unfolding pointer_text emit_frames emit_key
frames-Appends keys bytes [] i = Appends-nothing
frames-Appends keys bytes (f ∷ frames) i =
    let key = key_bytes (keys i) bytes f in
    let out = pointer_text keys bytes frames (i + 1) in
    let more = emit_frames keys bytes frames (i + 1) in
    let rest = frames-Appends keys bytes frames (i + 1) in
    let token =
      Appends-then (b'/' ∷ escaped_token key) out (emit_token key) more (token-Appends key) rest in
    let number =
      Appends-then (b'/' ∷ index_digits (f.index + 1) f.index []) out (emit_index f.index) more
        (index-Appends f.index) rest in
    Appends-if f.is_object
      (if not f.has_key || not f.in_value then [] else (b'/' ∷ escaped_token key) ++ out)
      ((b'/' ∷ index_digits (f.index + 1) f.index []) ++ out)
      (λ e. if not f.has_key || not f.in_value then e else more (emit_token key e))
      (λ e. more (emit_index f.index e))
      (Appends-if (not f.has_key || not f.in_value) [] ((b'/' ∷ escaped_token key) ++ out) (λ e. e)
        (λ e. more (emit_token key e)) Appends-nothing token)
      number

start : (capacity : ℕ) → new_emitter capacity ≡ emitted capacity []
start capacity =
    ap (λ x. record { buffer = x; capacity = capacity; length = 0 })
      (sym (take_all (capacity - 1) [] (omega arith)))

-- Where the input is not empty and the frames are granted, the result is the length of the
-- pointer's text, and the buffer has as much of it as fits in front of a final NUL.
pub error_pointer-text :
    (keys : ℕ → Bool) (bytes : Bytes) (offset capacity : ℕ)
    → 0 < length bytes
    → error_pointer true keys bytes offset capacity ≡ (
        let frames = scan bytes (if ltb offset (length bytes) then offset else length bytes) in
        let out = pointer_text keys bytes frames 0 in
        (if capacity == 0 then [] else take (capacity - 1) out ++ 0 ∷ [], length out))
unfolding error_pointer emit_finish
error_pointer-text keys bytes offset capacity pos =
    let limit = if ltb offset (length bytes) then offset else length bytes in
    let some' : (length bytes == 0) ≡ false = ground arith in
    rw some' (
      ap (λ (e : Emitter). (emit_finish e, e.length))
        (ap (emit_frames keys bytes (scan bytes limit) 0) (start capacity)
          ∙ frames-Appends keys bytes (scan bytes limit) 0 capacity []))
