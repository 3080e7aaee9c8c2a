-- ===== src/Serializer/Text/Spells.antt =====
-- What the strings of src/serialize.c are: the text, escaped, between two quotes.
use maelys_json.Base.{
  ℕ, zero, suc, ◌+◌, ◌-◌, ◌/◌, ◌%◌, ◌^◌, ◌≤◌, ◌≡◌, refl, ap, Bool, true, false, ◌&&◌, [], ◌∷◌, ◌++◌,
  some, Bytes, length, drop, leb, Outcome, if◌then◌else◌, arith,
}
use maelys_json.Common.Escape.{canonical_escape}
use maelys_json.Serializer.Buffer.{Serializer, append, append_byte}
use maelys_json.Serializer.Buffer.Emits.{
  Holds, Emits, Emits-bind, Emits-nothing, Emits-if, append-Emits,
}
use maelys_json.Serializer.Text.{u16_escape, append_point, append_characters, append_string}
use maelys_json.Types.{Error}
use maelys_json.Utf8.Points.{utf8_decode}

-- The escape of a code point beyond ASCII: one unit, or a surrogate pair.
unfoldable pub point_escapes : ℕ → Bytes
point_escapes point =
    if leb 0x10000 point
    then u16_escape (0xd800 + (point - 0x10000) / 2 ^ 10)
      ++ u16_escape (0xdc00 + (point - 0x10000) % 0x400)
    else u16_escape point

-- The characters of a text: by byte, or with `ascii` by code point beyond ASCII.
unfoldable pub spelled : ℕ → Bool → Bytes → Bytes
spelled fuel ascii [] = []
spelled zero ascii (b ∷ bs) = []
spelled (suc fuel) ascii (b ∷ bs) = elim (leb 0x80 b && ascii) [
  | true ↦
      point_escapes (utf8_decode (b ∷ bs)).0
      ++ spelled fuel ascii (drop ((utf8_decode (b ∷ bs)).1 - 1) bs)
  | false ↦ canonical_escape b ++ spelled fuel ascii bs
]

unfoldable pub quoted : Bool → Bytes → Bytes
quoted ascii bytes = (b'"' ∷ []) ++ (spelled (length bytes) ascii bytes ++ b'"' ∷ [])

length-drop-le : (n : ℕ) (xs : Bytes) → length (drop n xs) ≤ length xs
length-drop-le zero xs = omega arith
length-drop-le (suc n) [] = omega arith
length-drop-le (suc n) (x ∷ xs) = omega (arith, length-drop-le n xs)

module _ (granted : ℕ → Bool) (indent ascii : Bool) (maximum : ℕ) where
  append_point-Emits :
      (point : ℕ) (s : Serializer)
      → Holds granted indent ascii maximum s
      → Emits granted indent ascii maximum
          (some (point_escapes point))
          s
          (append_point granted point s)
  unfolding append_point point_escapes
  append_point-Emits point s h =
      let high = u16_escape (0xd800 + (point - 0x10000) / 2 ^ 10) in
      let low = u16_escape (0xdc00 + (point - 0x10000) % 0x400) in
      Emits-if granted indent ascii maximum (leb 0x10000 point) (leb 0x10000 point) _ _ s _ _ refl
        (Emits-bind granted indent ascii maximum (some high) (some low) s (append granted high s)
          (append granted low) (append-Emits granted indent ascii maximum high s h)
          (λ r k. append-Emits granted indent ascii maximum low r k))
        (append-Emits granted indent ascii maximum (u16_escape point) s h)

  -- The branches of `append_characters`, on one test.
  split-Emits :
      (b b' : Bool) (x y : Bytes) (s : Serializer) (m n : Outcome Error Serializer)
      → b' ≡ b
      → Emits granted indent ascii maximum (some x) s m
      → Emits granted indent ascii maximum (some y) s n
      → Emits granted indent ascii maximum
          (some (elim b [ true ↦ x | false ↦ y ]))
          s
          (elim b' [ true ↦ m | false ↦ n ])
  split-Emits true true x y s m n e h k = h
  split-Emits false false x y s m n e h k = k
  split-Emits true false x y s m n e h k = cc
  split-Emits false true x y s m n e h k = cc

  append_characters-Emits :
      (fuel : ℕ) (bytes : Bytes) (s : Serializer)
      → length bytes ≤ fuel
      → Holds granted indent ascii maximum s
      → Emits granted indent ascii maximum
          (some (spelled fuel ascii bytes))
          s
          (append_characters fuel granted bytes s)
  unfolding append_characters spelled
  append_characters-Emits fuel [] s le h = Emits-nothing granted indent ascii maximum s h
  append_characters-Emits zero (b ∷ bs) s le h = absurd (omega arith)
  append_characters-Emits (suc fuel) (b ∷ bs) s le h =
      let decoded = utf8_decode (b ∷ bs) in
      let behind = drop (decoded.1 - 1) bs in
      split-Emits (leb 0x80 b && ascii) (leb 0x80 b && s.ascii) _ _ s _ _
        (ap (λ a. leb 0x80 b && a) h.1)
        (Emits-bind granted indent ascii maximum (some (point_escapes decoded.0))
          (some (spelled fuel ascii behind)) s (append_point granted decoded.0 s)
          (append_characters fuel granted behind) (append_point-Emits decoded.0 s h)
          (λ r k.
            append_characters-Emits fuel behind r (omega (arith, length-drop-le (decoded.1 - 1) bs))
              k))
        (Emits-bind granted indent ascii maximum (some (canonical_escape b))
          (some (spelled fuel ascii bs)) s (append granted (canonical_escape b) s)
          (append_characters fuel granted bs)
          (append-Emits granted indent ascii maximum (canonical_escape b) s h)
          (λ r k. append_characters-Emits fuel bs r (omega arith) k))

  pub append_string-Emits :
      (bytes : Bytes) (s : Serializer)
      → Holds granted indent ascii maximum s
      → Emits granted indent ascii maximum
          (some (quoted ascii bytes))
          s
          (append_string granted bytes s)
  unfolding append_string quoted
  append_string-Emits bytes s h =
      Emits-bind granted indent ascii maximum (some (b'"' ∷ []))
        (some (spelled (length bytes) ascii bytes ++ b'"' ∷ [])) s (append_byte granted b'"' s) _
        (append-Emits granted indent ascii maximum (b'"' ∷ []) s h)
        (λ r k.
          Emits-bind granted indent ascii maximum (some (spelled (length bytes) ascii bytes))
            (some (b'"' ∷ [])) r (append_characters (length bytes) granted bytes r)
            (append_byte granted b'"')
            (append_characters-Emits (length bytes) bytes r (omega arith) k)
            (λ t l. append-Emits granted indent ascii maximum (b'"' ∷ []) t l))
