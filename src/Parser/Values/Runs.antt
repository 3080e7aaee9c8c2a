-- ===== src/Parser/Values/Runs.antt =====
-- `parse_value` ends on fuel in proportion to the input, and what it reads pays for the arena.
use maelys_json.Base.{
  ℕ, zero, suc, ◌+◌, ◌*◌, ◌≤◌, ◌≡◌, refl, Bool, true, false, not, ◌||◌, Option, some, arith, leb,
  ◌==◌, if◌then◌else◌, Bool-cases, inl, inr,
}
use maelys_json.Parser.Primitive.Runs.{parse_primitive-Runs}
use maelys_json.Parser.State.{
  Parser, Parsed, size, skip_space, at_end, current, advance, add_token, container_delimiter,
}
use maelys_json.Parser.State.Runs.{
  Runs, Runs-bind, Runs-mono, Runs-if, count, Within, Steps, Steps-trans, Reads, Reads-Steps,
  advance-Reads, skip_space-Reads,
}
use maelys_json.Parser.State.Tokens.{
  Adds, add_token-Runs, advance_le, container_delimiter-Runs, count-update_token,
}
use maelys_json.Parser.Strings.{parse_string}
use maelys_json.Parser.Strings.Runs.{parse_string-Runs}
use maelys_json.Parser.Values.{
  Start, nothing, braces, brackets, quotes, other, start_of, colon, close, opened, closes,
  parse_value, parse_object, members, parse_array, elements,
}
use maelys_json.Types.{Kind, object, array}

-- What is true of a byte that opens a value, or of a container that closes at once: there is one.
Opens : Start → Parser → Type 0
Opens nothing p = Unit
Opens _ p = at_end p ≡ false

start-Opens :
    (p : Parser) (b c d : Bool)
    → at_end p ≡ false
    → Opens (if b then braces else if c then brackets else if d then quotes else other) p
unfolding Opens
start-Opens p true c d h = h
start-Opens p false true d h = h
start-Opens p false false true h = h
start-Opens p false false false h = h

start_of-Opens : (p : Parser) → Opens (start_of p) p
unfolding start_of Opens
start_of-Opens p = elim (Bool-cases (at_end p)) [
  | inl e ↦ rw e tt
  | inr e ↦ rw e (start-Opens p (current p == b'{') (current p == b'[') (current p == b'"') e)
]

closes-more : (closing : ℕ) (p : Parser) → closes closing p ≡ true → at_end p ≡ false
unfolding closes
closes-more closing p h = ground arith

spaces-Steps : (n : ℕ) (p q : Parser) → Steps n p q → Steps n p (skip_space q)
spaces-Steps n p q h =
    let w = h.0 in let k = Reads-Steps 0 q (skip_space q) w (skip_space-Reads q w.0) in omega arith

next-Steps : (n : ℕ) (p q : Parser) → Steps n p q → at_end q ≡ false → Steps (n + 1) p (advance q)
next-Steps n p q h more =
    Steps-trans n 1 p q (advance q) h (Reads-Steps 1 q (advance q) h.0 (advance-Reads q more))

close-Runs : (index n : ℕ) (p q : Parser) → Steps n p q → Runs (λ index'. Steps n p) (close index q)
unfolding close
close-Runs index n p q h =
    let kept = count-update_token index (λ t. record t { end = q.offset }) q in omega arith

colon-Runs : (n : ℕ) (p q : Parser) → Steps n p q → Runs (λ at. Steps (n + 1) p) (colon q)
unfolding colon
colon-Runs n p q h =
    Runs-if _ (at_end q || not (current q == b':')) _ _ (λ _. tt)
      (λ more. next-Steps n p q h (ground arith))

opened-Runs :
    (kind : Kind) (parent : Option ℕ) (depth : ℕ) (p : Parser)
    → Within p
    → at_end p ≡ false
    → Runs (λ index. Steps 1 p) (opened kind parent depth p)
unfolding opened
opened-Runs kind parent depth p w more =
    Runs-if _ (leb p.limits.maximum_depth depth) _ _ (λ _. tt)
      (λ _.
        Runs-bind (λ index q. Adds p q × (index ≡ count p)) (λ index. Steps 1 p)
          (add_token kind p.offset parent false p) _ (add_token-Runs kind p.offset parent false p)
          (λ index q added.
            let room = advance_le p more in spaces-Steps 1 p (advance q) (omega arith)))

-- The two branches of a test, the calls in them under `elim`.
test-Runs :
    (P : ℕ → Parser → Type 0) (b : Bool) (x y : Parsed ℕ)
    → (b ≡ true → Runs P x)
    → (b ≡ false → Runs P y)
    → Runs P (elim b [ true ↦ x | false ↦ y ])
test-Runs P true x y h k = h refl
test-Runs P false x y h k = k refl

start-Runs :
    (P : ℕ → Parser → Type 0) (p : Parser) (s : Start) (a b c d e : Parsed ℕ)
    → Opens s p
    → Runs P a
    → (at_end p ≡ false → Runs P b)
    → (at_end p ≡ false → Runs P c)
    → Runs P d
    → Runs P e
    → Runs P (elim s [ nothing ↦ a | braces ↦ b | brackets ↦ c | quotes ↦ d | other ↦ e ])
unfolding Opens
start-Runs P p nothing a b c d e h ha hb hc hd he = ha
start-Runs P p braces a b c d e h ha hb hc hd he = hb h
start-Runs P p brackets a b c d e h ha hb hc hd he = hc h
start-Runs P p quotes a b c d e h ha hb hc hd he = hd
start-Runs P p other a b c d e h ha hb hc hd he = he

-- A container, once opened: closed at once, or by the loop.
body-Runs :
    (n closing index : ℕ) (p q : Parser) (rest : Parsed ℕ)
    → Steps n p q
    → (at_end q ≡ false → Runs (λ i. Steps n p) (close index (advance q)))
    → Runs (λ i. Steps n p) rest
    → Runs
        (λ i. Steps n p)
        (elim (closes closing q) [ true ↦ close index (advance q) | false ↦ rest ])
body-Runs n closing index p q rest h k l =
    test-Runs _ (closes closing q) _ _ (λ c. k (closes-more closing q c)) (λ _. l)

weaker : (n : ℕ) (p q : Parser) → Steps (n + 1) p q → Steps n p q
weaker n p q h = omega arith

mutual
  unfolding parse_value

  value-Runs :
      (fuel : ℕ) (parent : Option ℕ) (depth : ℕ) (p : Parser)
      → Within p
      → 3 * size p + 1 ≤ 3 * p.offset + fuel
      → Runs (λ index. Steps 1 p) (parse_value fuel parent depth p)
  value-Runs zero parent depth p w f = absurd (omega arith)
  value-Runs (suc fuel) parent depth p w f =
      let q = skip_space p in
      let s = Reads-Steps 0 p q w (skip_space-Reads p w.0) in
      let far : (m : Parsed ℕ) → Runs (λ i. Steps 1 q) m → Runs (λ i. Steps 1 p) m =
        λ m. Runs-mono (λ i. Steps 1 q) (λ i. Steps 1 p) m (λ i r. Steps-trans 0 1 p q r s) in
      start-Runs (λ index. Steps 1 p) q (start_of q) _ _ _ _ _ (start_of-Opens q) tt
        (λ more. far _ (object-Runs fuel parent depth q s.0 more (omega arith)))
        (λ more. far _ (array-Runs fuel parent depth q s.0 more (omega arith)))
        (far _ (
          Runs-mono (λ i. Steps 2 q) (λ i. Steps 1 q) _ (λ i. weaker 1 q)
            (parse_string-Runs parent false q s.0)))
        (far _ (parse_primitive-Runs parent q s.0))

  object-Runs :
      (fuel : ℕ) (parent : Option ℕ) (depth : ℕ) (p : Parser)
      → Within p
      → at_end p ≡ false
      → 3 * size p ≤ 3 * p.offset + fuel
      → Runs (λ index. Steps 1 p) (parse_object fuel parent depth p)
  object-Runs zero parent depth p w more f = absurd (let room = advance_le p more in omega arith)
  object-Runs (suc fuel) parent depth p w more f =
      Runs-bind (λ index. Steps 1 p) (λ index. Steps 1 p) (opened object parent depth p) _
        (opened-Runs object parent depth p w more)
        (λ index q h.
          body-Runs 1 b'}' index p q (members fuel index depth q) h
            (λ more'.
              close-Runs index 1 p (advance q) (weaker 1 p (advance q) (next-Steps 1 p q h more')))
            (Runs-mono (λ i. Steps 1 q) (λ i. Steps 1 p) (members fuel index depth q)
              (λ i r k. weaker 1 p r (Steps-trans 1 1 p q r h k))
              (members-Runs fuel index depth q h.0 (omega arith))))

  members-Runs :
      (fuel index depth : ℕ) (p : Parser)
      → Within p
      → 3 * size p + 2 ≤ 3 * p.offset + fuel
      → Runs (λ index. Steps 1 p) (members fuel index depth p)
  members-Runs zero index depth p w f = absurd (omega arith)
  members-Runs (suc fuel) index depth p w f =
      Runs-bind (λ i. Steps 2 p) (λ i. Steps 1 p) (parse_string (some index) true p) _
        (parse_string-Runs (some index) true p w)
        (λ key q h.
          Runs-bind (λ i. Steps 3 p) (λ i. Steps 1 p) (colon (skip_space q)) _
            (colon-Runs 2 p (skip_space q) (spaces-Steps 2 p q h))
            (λ at r k.
              Runs-bind (λ i. Steps 1 r) (λ i. Steps 1 p)
                (parse_value fuel (some index) (depth + 1) r) _
                (value-Runs fuel (some index) (depth + 1) r k.0 (omega arith))
                (λ value s l.
                  let read = Steps-trans 3 1 p r s k l in
                  Runs-bind (λ i. Reads 1 s) (λ i. Steps 1 p) (container_delimiter b'}' s) _
                    (container_delimiter-Runs b'}' s l.0.0)
                    (λ closed t d.
                      let all = Steps-trans 4 1 p s t read (Reads-Steps 1 s t l.0 d) in
                      test-Runs (λ i. Steps 1 p) closed (close index t) (members fuel index depth t)
                        (λ c. close-Runs index 1 p t (omega arith))
                        (λ c.
                          Runs-mono (λ i. Steps 1 t) (λ i. Steps 1 p) (members fuel index depth t)
                            (λ i u m. omega arith)
                            (members-Runs fuel index depth t all.0 (omega arith)))))))

  array-Runs :
      (fuel : ℕ) (parent : Option ℕ) (depth : ℕ) (p : Parser)
      → Within p
      → at_end p ≡ false
      → 3 * size p ≤ 3 * p.offset + fuel
      → Runs (λ index. Steps 1 p) (parse_array fuel parent depth p)
  array-Runs zero parent depth p w more f = absurd (let room = advance_le p more in omega arith)
  array-Runs (suc fuel) parent depth p w more f =
      Runs-bind (λ index. Steps 1 p) (λ index. Steps 1 p) (opened array parent depth p) _
        (opened-Runs array parent depth p w more)
        (λ index q h.
          body-Runs 1 b']' index p q (elements fuel index depth q) h
            (λ more'.
              close-Runs index 1 p (advance q) (weaker 1 p (advance q) (next-Steps 1 p q h more')))
            (Runs-mono (λ i. Steps 1 q) (λ i. Steps 1 p) (elements fuel index depth q)
              (λ i r k. weaker 1 p r (Steps-trans 1 1 p q r h k))
              (elements-Runs fuel index depth q h.0 (omega arith))))

  elements-Runs :
      (fuel index depth : ℕ) (p : Parser)
      → Within p
      → 3 * size p + 2 ≤ 3 * p.offset + fuel
      → Runs (λ index. Steps 1 p) (elements fuel index depth p)
  elements-Runs zero index depth p w f = absurd (omega arith)
  elements-Runs (suc fuel) index depth p w f =
      Runs-bind (λ i. Steps 1 p) (λ i. Steps 1 p) (parse_value fuel (some index) (depth + 1) p) _
        (value-Runs fuel (some index) (depth + 1) p w (omega arith))
        (λ value s l.
          Runs-bind (λ i. Reads 1 s) (λ i. Steps 1 p) (container_delimiter b']' s) _
            (container_delimiter-Runs b']' s l.0.0)
            (λ closed t d.
              let all = Steps-trans 1 1 p s t l (Reads-Steps 1 s t l.0 d) in
              test-Runs (λ i. Steps 1 p) closed (close index t) (elements fuel index depth t)
                (λ c. close-Runs index 1 p t (omega arith))
                (λ c.
                  Runs-mono (λ i. Steps 1 t) (λ i. Steps 1 p) (elements fuel index depth t)
                    (λ i u m. omega arith) (elements-Runs fuel index depth t all.0 (omega arith)))))

-- Parsing a value anywhere in the input ends on fuel of three for each byte that is left and one.
-- A value that is parsed has read a byte at least and stays in the input, its tokens fit the token
-- array, and the arena has taken no more bytes than were read and tokens made.
pub parse_value-Runs :
    (fuel : ℕ) (parent : Option ℕ) (depth : ℕ) (p : Parser)
    → Within p
    → 3 * size p + 1 ≤ 3 * p.offset + fuel
    → Runs (λ index. Steps 1 p) (parse_value fuel parent depth p)
parse_value-Runs fuel parent depth p w f = value-Runs fuel parent depth p w f
