-- ===== src/Serializer/Buffer/Emits.antt =====
-- What a step of src/serialize.c writes: bytes behind those that stand in the buffer, unless memory
-- runs out or the limit is too small for them.
use maelys_json.Base.{
  ℕ, zero, suc, ◌+◌, ◌-◌, ◌*◌, ◌^◌, ◌≤◌, ◌<◌, ◌≡◌, ◌⊎◌, inl, inr, refl, sym, ap, ◌∙◌, Bool, true,
  false, [], ◌∷◌, ◌++◌, append-nil, append_assoc, Option, none, some, Bytes, length, length-append,
  replicate, ltb, leb, ◌==◌, Outcome, ok, err, ◌>>=◌, if◌then◌else◌, arith,
}
use maelys_json.Serializer.Buffer.{
  Serializer, size, capacity_loop, new_capacity, reserve, append, append_byte, append_spaces,
  append_break, indent_width,
}
use maelys_json.Types.{Error, limit, memory, size_max}

-- The doubling of `capacity_loop`, without its tests.
doubled : ℕ → ℕ → ℕ
doubled zero capacity = capacity
doubled (suc fuel) capacity = doubled fuel (capacity * 2)

capacity_loop_enough :
    (fuel maximum needed capacity : ℕ)
    → needed ≤ capacity
    → needed ≤ capacity_loop fuel maximum needed capacity
unfolding capacity_loop
capacity_loop_enough zero maximum needed capacity h = h
capacity_loop_enough (suc fuel) maximum needed capacity h = ground arith

le-capacity_loop :
    (fuel maximum needed capacity : ℕ)
    → needed ≤ maximum
    → maximum < doubled fuel capacity
    → needed ≤ capacity_loop fuel maximum needed capacity
unfolding capacity_loop doubled
le-capacity_loop zero maximum needed capacity h k = omega arith
le-capacity_loop (suc fuel) maximum needed capacity h k = ground (
  arith,
  capacity_loop_enough fuel maximum needed maximum h,
  le-capacity_loop fuel maximum needed (capacity * 2) h k,
)

doubled_64 : (capacity : ℕ) → doubled 64 capacity ≡ capacity * 2 ^ 64
unfolding doubled
doubled_64 capacity = omega arith

-- The new buffer has room.
le-new_capacity :
    (s : Serializer) (needed : ℕ)
    → needed ≤ s.maximum
    → s.maximum ≤ size_max
    → needed ≤ new_capacity s needed
unfolding new_capacity
le-new_capacity s needed h k =
    let start : ℕ = if s.capacity == 0 then 128 else s.capacity in
    let pos : 1 ≤ start = ground arith in
    le-capacity_loop 64 s.maximum needed start h (omega (arith, doubled_64 start))

abbrev pub joined : Option Bytes → Option Bytes → Option Bytes
joined (some a) (some b) = some (a ++ b)
joined (some a) none = none
joined none y = none

-- The two branches of a test.
pub split_if :
    {A : Type 0} (P : A → Type 0) (b : Bool) (x y : A)
    → (b ≡ true → P x)
    → (b ≡ false → P y)
    → P (if b then x else y)
split_if P true x y h k = h refl
split_if P false x y h k = k refl

-- A line break and the indentation of a level, in indented output.
abbrev pub break_bytes : Bool → ℕ → Bytes
break_bytes indent level = if indent then b'\n' ∷ replicate (level * indent_width) b' ' else []

-- A request for memory that is not met.
abbrev pub Denied : (ℕ → Bool) → Type 0
Denied granted = (n : ℕ) × (granted n ≡ false)

module _ (granted : ℕ → Bool) (indent ascii : Bool) (maximum : ℕ) where
  -- The settings, and a buffer that holds the bytes and is within the limit.
  abbrev pub Holds : Serializer → Type 0
  Holds s =
      (s.indent ≡ indent)
      × (s.ascii ≡ ascii)
      × (s.maximum ≡ maximum)
      × (size s ≤ s.capacity)
      × (size s ≤ maximum)
      × (maximum ≤ size_max)

  abbrev pub Emits : Option Bytes → Serializer → Outcome Error Serializer → Type 0
  Emits (some out) s (ok r) = (r.bytes ≡ s.bytes ++ out) × Holds r
  Emits (some out) s (err e) =
      ((e ≡ memory) × Denied granted) ⊎ ((e ≡ limit) × (maximum < size s + length out))
  Emits none s (ok r) = ⊥
  Emits none s (err e) = Unit

  emitted_behind :
      (a : Bytes) (y : Option Bytes) (s r : Serializer) (m : Outcome Error Serializer)
      → r.bytes ≡ s.bytes ++ a
      → Emits y r m
      → Emits (joined (some a) y) s m
  emitted_behind a (some b) s r (ok t) e (h, holds) =
      (h ∙ (ap (λ x. x ++ b) e ∙ append_assoc s.bytes a b), holds)
  emitted_behind a (some b) s r (err x) e (inl h) = inl h
  emitted_behind a (some b) s r (err x) e (inr (h, k)) =
      inr (h, omega (arith, ap length e, length-append s.bytes a, length-append a b))
  emitted_behind a none s r (ok t) e h = h
  emitted_behind a none s r (err x) e h = tt

  pub Emits-bind :
      (x y : Option Bytes) (s : Serializer) (m : Outcome Error Serializer)
      (f : Serializer → Outcome Error Serializer)
      → Emits x s m
      → ((r : Serializer) → Holds r → Emits y r (f r))
      → Emits (joined x y) s (m >>= f)
  Emits-bind (some a) y s (ok r) f (e, holds) k = emitted_behind a y s r (f r) e (k r holds)
  Emits-bind (some a) (some b) s (err e) f (inl h) k = inl h
  Emits-bind (some a) (some b) s (err e) f (inr (h, h')) k =
      inr (h, omega (arith, length-append a b))
  Emits-bind (some a) none s (err e) f h k = tt
  Emits-bind none y s (ok r) f h k = absurd h
  Emits-bind none y s (err e) f h k = tt

  pub Emits-nothing : (s : Serializer) → Holds s → Emits (some []) s (ok s)
  Emits-nothing s h = (sym (append-nil s.bytes), h)

  -- Room for what is appended, in the buffer and under the limit.
  abbrev Reserved : ℕ → Serializer → Outcome Error Serializer → Type 0
  Reserved extra s (ok r) =
      (r.bytes ≡ s.bytes)
      × (r.indent ≡ s.indent)
      × (r.ascii ≡ s.ascii)
      × (r.maximum ≡ s.maximum)
      × (size s + extra ≤ r.capacity)
      × (size s + extra ≤ maximum)
  Reserved extra s (err e) =
      ((e ≡ memory) × Denied granted) ⊎ ((e ≡ limit) × (maximum < size s + extra))

  reserve-Reserved :
      (extra : ℕ) (s : Serializer) → Holds s → Reserved extra s (reserve granted extra s)
  unfolding reserve
  reserve-Reserved extra s h =
      split_if (Reserved extra s) (ltb (s.maximum - size s) extra) _ _
        (λ full. inr (refl, ground arith))
        (λ fits.
          let within : size s + extra ≤ maximum = ground arith in
          split_if (Reserved extra s) (leb (size s + extra) s.capacity) _ _
            (λ room. (refl, refl, refl, refl, ground arith, within))
            (λ more.
              split_if (Reserved extra s) (granted s.requests) _ _
                (λ _. (
                  refl,
                  refl,
                  refl,
                  refl,
                  le-new_capacity s (size s + extra) (omega arith) (omega arith),
                  within,
                ))
                (λ no'. inl (refl, (s.requests, no')))))

  stored-Emits :
      (bytes : Bytes) (s : Serializer) (m : Outcome Error Serializer)
      → Holds s
      → Reserved (length bytes) s m
      → Emits (some bytes) s (m >>= λ r. ok (record r { bytes = r.bytes ++ bytes }))
  stored-Emits bytes s (ok r) h (same, indent', ascii', maximum', room, within) =
      let longer = length-append r.bytes bytes in
      let equal = ap length same in
      (
        ap (λ x. x ++ bytes) same,
        (indent' ∙ h.0, ascii' ∙ h.1, maximum' ∙ h.2, omega arith, omega arith, h.5),
      )
  stored-Emits bytes s (err e) h k = k

  pub append-Emits :
      (bytes : Bytes) (s : Serializer) → Holds s → Emits (some bytes) s (append granted bytes s)
  unfolding append
  append-Emits [] s h = Emits-nothing s h
  append-Emits (b ∷ bs) s h =
      stored-Emits (b ∷ bs) s (reserve granted (length (b ∷ bs)) s) h
        (reserve-Reserved (length (b ∷ bs)) s h)

  append_spaces-Emits :
      (n : ℕ) (s : Serializer)
      → Holds s
      → Emits (some (replicate n b' ')) s (append_spaces granted n s)
  unfolding append_spaces
  append_spaces-Emits zero s h = Emits-nothing s h
  append_spaces-Emits (suc n) s h =
      Emits-bind (some (b' ' ∷ [])) (some (replicate n b' ')) s (append_byte granted b' ' s)
        (append_spaces granted n) (append-Emits (b' ' ∷ []) s h) (λ r k. append_spaces-Emits n r k)

  -- A test of a setting.
  pub Emits-if :
      (b b' : Bool) (x y : Bytes) (s : Serializer) (m n : Outcome Error Serializer)
      → b' ≡ b
      → Emits (some x) s m
      → Emits (some y) s n
      → Emits (some (if b then x else y)) s (if b' then m else n)
  Emits-if true true x y s m n e h k = h
  Emits-if false false x y s m n e h k = k
  Emits-if true false x y s m n e h k = cc
  Emits-if false true x y s m n e h k = cc

  pub append_break-Emits :
      (level : ℕ) (s : Serializer)
      → Holds s
      → Emits (some (break_bytes indent level)) s (append_break granted level s)
  unfolding append_break
  append_break-Emits level s h =
      Emits-if indent s.indent _ [] s _ (ok s) h.0
        (Emits-bind (some (b'\n' ∷ [])) (some (replicate (level * indent_width) b' ')) s
          (append_byte granted b'\n' s) (append_spaces granted (level * indent_width))
          (append-Emits (b'\n' ∷ []) s h) (λ r k. append_spaces-Emits (level * indent_width) r k))
        (Emits-nothing s h)
