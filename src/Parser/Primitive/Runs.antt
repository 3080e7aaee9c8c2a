-- ===== src/Parser/Primitive/Runs.antt =====
-- `parse_primitive` ends, reads a byte at least, and a number's text fits the arena.
use maelys_json.Base.{
  ℕ, zero, suc, ◌-◌, ◌≤◌, ◌<◌, ◌≡◌, refl, sym, ap, ◌∙◌, Bool, false, [], Option, none, some, Bytes,
  length, take, drop, arith,
}
use maelys_json.Common.Number.{number_syntax}
use maelys_json.Document.{Token}
use maelys_json.Document.Access.{same_bytes}
use maelys_json.Parser.Primitive.{
  lexeme_end, lexeme_kind, store_primitive, add_primitive, parse_primitive,
}
use maelys_json.Parser.State.{Parser, size, at_end, advance, add_token, update_token, slice}
use maelys_json.Parser.State.Runs.{Runs, Runs-bind, count, Within, Steps, Reads}
use maelys_json.Parser.State.Tokens.{Adds, add_token-Runs, count-update_token}
use maelys_json.Parser.Strings.{store_text}
use maelys_json.Parser.Strings.Runs.{Stores, length-slice}
use maelys_json.Types.{Kind, none_kind, object, array, string, number, boolean, null}

lexeme_end-Reads : (fuel : ℕ) (p : Parser) → p.offset ≤ size p → Reads 0 p (lexeme_end fuel p)
unfolding lexeme_end at_end
lexeme_end-Reads zero p h = (refl, omega arith, h)
lexeme_end-Reads (suc fuel) p h = ground (arith, lexeme_end-Reads fuel (advance p))

lexeme_kind-nil : lexeme_kind [] ≡ none
unfolding lexeme_kind same_bytes number_syntax
lexeme_kind-nil = refl

none-some : {A : Type 0} {a : A} → none ≡ some a → ⊥
none-some h = cc

-- A lexeme with a kind is not empty.
lexeme_pos :
    (bytes : Bytes) (start end : ℕ) (k : Kind × Bool)
    → lexeme_kind (slice bytes start end) ≡ some k
    → start < end
lexeme_pos bytes start end k h = go (end - start) h refl
  where
    go : (n : ℕ) → lexeme_kind (take n (drop start bytes)) ≡ some k → n ≡ end - start → start < end
    go zero h e = absurd (none-some (sym lexeme_kind-nil ∙ h))
    go (suc n) h e = omega arith

store_primitive-Stores :
    (kind : Kind) (index : ℕ) (lexeme : Bytes) (n : ℕ) (p : Parser)
    → length lexeme ≤ n
    → Stores n p 0 (store_primitive kind index lexeme p)
unfolding store_primitive store_text
store_primitive-Stores number index lexeme n p h = (
  refl,
  refl,
  refl,
  refl,
  omega arith,
  count-update_token index (λ t. record t { end = p.offset; text = some lexeme }) p,
)
store_primitive-Stores none_kind index lexeme n p h = (refl, refl, refl, refl, omega arith, refl)
store_primitive-Stores object index lexeme n p h = (refl, refl, refl, refl, omega arith, refl)
store_primitive-Stores array index lexeme n p h = (refl, refl, refl, refl, omega arith, refl)
store_primitive-Stores string index lexeme n p h = (refl, refl, refl, refl, omega arith, refl)
store_primitive-Stores boolean index lexeme n p h = (refl, refl, refl, refl, omega arith, refl)
store_primitive-Stores null index lexeme n p h = (refl, refl, refl, refl, omega arith, refl)

-- The parts of `parse_primitive` together.
primitive-Steps :
    (p q r s t : Parser)
    → Within p
    → Reads 0 p q
    → p.offset < q.offset
    → Adds q r
    → (s.document.arena_used ≡ r.document.arena_used)
      × (size s ≡ size r)
      × (s.offset ≡ r.offset)
      × (s.document.token_capacity ≡ r.document.token_capacity)
      × (s.document.arena_capacity ≡ r.document.arena_capacity)
      × (count s ≡ count r)
    → Stores (q.offset - p.offset) s 0 t
    → Steps 1 p t
primitive-Steps p q r s t w (same, far, near) pos added updated stored =
    let bytes = ap (λ d. length d.bytes) same in
    let tokens = ap (λ d. length d.tokens) same in
    let capacity = ap (λ d. d.token_capacity) same in
    let arena = ap (λ d. d.arena_capacity) same in
    let used = ap (λ d. d.arena_used) same in omega arith

add_primitive-Runs :
    (parent : Option ℕ) (p q : Parser) (k : Option (Kind × Bool))
    → Within p
    → Reads 0 p q
    → lexeme_kind (slice q.document.bytes p.offset q.offset) ≡ k
    → Runs (λ index. Steps 1 p) (add_primitive parent p.offset k q)
unfolding add_primitive
add_primitive-Runs parent p q none w read e = tt
add_primitive-Runs parent p q (some (kind, value)) w read e =
    let lexeme = slice q.document.bytes p.offset q.offset in
    Runs-bind (λ index r. Adds q r × (index ≡ count q)) (λ index. Steps 1 p)
      (add_token kind p.offset parent false q) _ (add_token-Runs kind p.offset parent false q)
      (λ index r added.
        let change : Token → Token = λ t. record t { end = r.offset; boolean_value = value } in
        let s = update_token index change r in
        primitive-Steps p q r s (store_primitive kind index lexeme s) w read
          (lexeme_pos q.document.bytes p.offset q.offset (kind, value) e) added.0
          (refl, refl, refl, refl, refl, count-update_token index change r)
          (store_primitive-Stores kind index lexeme (q.offset - p.offset) s
            (length-slice q.document.bytes p.offset q.offset)))

pub parse_primitive-Runs :
    (parent : Option ℕ) (p : Parser)
    → Within p
    → Runs (λ index. Steps 1 p) (parse_primitive parent p)
unfolding parse_primitive
parse_primitive-Runs parent p w =
    add_primitive-Runs parent p (lexeme_end (size p) p) _ w (lexeme_end-Reads (size p) p w.0) refl
