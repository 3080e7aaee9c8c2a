-- ===== src/Parser/State/Runs.antt =====
-- What a step of src/parser.c ensures when it succeeds, and how the steps of a sequence compose.
use maelys_json.Base.{
  ℕ, zero, suc, ◌+◌, ◌≤◌, ◌≡◌, refl, ap, ◌∙◌, Bool, true, false, [], ◌∷◌, List, length, set, arith,
  ok, err, ◌>>=◌, if◌then◌else◌,
}
use maelys_json.Parser.State.{
  Parser, failed, out_of_fuel, Parsed, size, at_end, advance, skip_loop, skip_space,
}

-- `P` holds of the result, if there is one, and the fuel did not run out.
abbrev pub Runs : {A : Type 0} → (A → Parser → Type 0) → Parsed A → Type 0
Runs P (ok r) = P r.0 r.1
Runs P (err (failed e at)) = Unit
Runs P (err out_of_fuel) = ⊥

module _ {A B : Type 0} where
  pub Runs-bind :
      (P : A → Parser → Type 0) (Q : B → Parser → Type 0) (m : Parsed A) (f : A × Parser → Parsed B)
      → Runs P m
      → ((a : A) (q : Parser) → P a q → Runs Q (f (a, q)))
      → Runs Q (m >>= f)
  Runs-bind P Q (ok r) f h k = k r.0 r.1 h
  Runs-bind P Q (err (failed e at)) f h k = tt
  Runs-bind P Q (err out_of_fuel) f h k = h

module _ {A : Type 0} where
  pub Runs-mono :
      (P Q : A → Parser → Type 0) (m : Parsed A)
      → ((a : A) (q : Parser) → P a q → Q a q)
      → Runs P m
      → Runs Q m
  Runs-mono P Q (ok r) f h = f r.0 r.1 h
  Runs-mono P Q (err (failed e at)) f h = tt
  Runs-mono P Q (err out_of_fuel) f h = h

  pub Runs-if :
      (P : A → Parser → Type 0) (b : Bool) (x y : Parsed A)
      → (b ≡ true → Runs P x)
      → (b ≡ false → Runs P y)
      → Runs P (if b then x else y)
  Runs-if P true x y h k = h refl
  Runs-if P false x y h k = k refl

abbrev pub count : Parser → ℕ
count p = length p.document.tokens

-- The offset is in the input, and the tokens fit the array.
abbrev pub Within : Parser → Type 0
Within p = (p.offset ≤ size p) × (count p ≤ p.document.token_capacity)

-- From `p` to `q` the input and the capacities stay, at least `n` bytes are read, and the arena
-- takes no more than the bytes read and the tokens made.
abbrev pub Steps : ℕ → Parser → Parser → Type 0
Steps n p q =
    Within q
    × (size q ≡ size p)
    × (q.document.token_capacity ≡ p.document.token_capacity)
    × (q.document.arena_capacity ≡ p.document.arena_capacity)
    × (p.offset + n ≤ q.offset)
    × (q.document.arena_used + (p.offset + count p) ≤ p.document.arena_used + (q.offset + count q))
    × (count p ≤ count q)

pub Steps-trans : (n m : ℕ) (p q r : Parser) → Steps n p q → Steps m q r → Steps (n + m) p r
Steps-trans n m p q r h k = omega arith

-- The same document, `n` bytes further or more.
abbrev pub Reads : ℕ → Parser → Parser → Type 0
Reads n p q = (q.document ≡ p.document) × (p.offset + n ≤ q.offset) × (q.offset ≤ size p)

pub Reads-Steps : (n : ℕ) (p q : Parser) → Within p → Reads n p q → Steps n p q
Reads-Steps n p q w (same, far, near) =
    let bytes = ap (λ d. length d.bytes) same in
    let tokens = ap (λ d. length d.tokens) same in
    let capacity = ap (λ d. d.token_capacity) same in
    let arena = ap (λ d. d.arena_capacity) same in
    let used = ap (λ d. d.arena_used) same in omega arith

pub advance-Reads : (p : Parser) → at_end p ≡ false → Reads 1 p (advance p)
unfolding at_end
advance-Reads p h = (refl, omega arith, ground arith)

skip_loop-Reads : (fuel : ℕ) (p : Parser) → p.offset ≤ size p → Reads 0 p (skip_loop fuel p)
unfolding skip_loop at_end
skip_loop-Reads zero p h = (refl, omega arith, h)
skip_loop-Reads (suc fuel) p h = ground (arith, skip_loop-Reads fuel (advance p))

pub skip_space-Reads : (p : Parser) → p.offset ≤ size p → Reads 0 p (skip_space p)
unfolding skip_space
skip_space-Reads p h = skip_loop-Reads (size p) p h

-- A write in an array keeps its length.
pub length-set {ℓ} : {A : Type ℓ} (xs : List A) (i : ℕ) (v : A) → length (set xs i v) ≡ length xs
length-set [] i v = refl
length-set (x ∷ xs) zero v = refl
length-set (x ∷ xs) (suc i) v = omega (arith, length-set xs i v)

pub Reads-trans : (n m : ℕ) (p q r : Parser) → Reads n p q → Reads m q r → Reads (n + m) p r
Reads-trans n m p q r (same, far, near) (same', far', near') =
    let bytes = ap (λ d. length d.bytes) same in (same' ∙ same, omega arith, omega arith)
