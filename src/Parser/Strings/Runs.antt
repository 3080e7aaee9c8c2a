-- ===== src/Parser/Strings/Runs.antt =====
-- `parse_string` ends, reads at least its two quotes, and its text fits the arena.
use maelys_json.Base.{
  ℕ, zero, suc, ◌+◌, ◌-◌, ◌≤◌, ◌<◌, ◌≡◌, refl, ap, Bool, not, ◌&&◌, ◌||◌, [], ◌∷◌, Option, none,
  some, Bytes, length, take, drop, arith, ltb, ◌==◌, Outcome, ok, err, ◌>>=◌,
}
use maelys_json.Keyset.{keyset_insert, keyset_insert_last}
use maelys_json.Parser.State.{
  Parser, failed, out_of_fuel, Parsed, size, token_key, at_end, current, advance, add_token, slice,
}
use maelys_json.Parser.State.Runs.{Runs, Runs-bind, Runs-mono, Runs-if, count, Within, Steps}
use maelys_json.Parser.State.Tokens.{Adds, add_token-Runs, advance_le, count-update_token}
use maelys_json.Parser.Strings.{
  is_ascii_profile, scan_loop, scan_string_body, scanned, mark_superseded, supersede, key_failure,
  add_unique, add_key, store_text, decode_text, parse_string,
}
use maelys_json.Types.{Error, Profile, rfc8259, contract_ascii, rfc8259_last_wins, string}
use maelys_json.Utf8.Literal.{Decoded, text, bad, stuck, decode_string}
use maelys_json.Utf8.Literal.Sizes.{Fits, Fits-mono, decode_string-Fits}

-- The closing quote, at or behind `offset`, and the parser behind it.
abbrev pub Closes : ℕ → Parser → ℕ → Parser → Type 0
Closes offset p end q =
    (q.document ≡ p.document) × (offset ≤ end) × (q.offset ≡ end + 1) × (end < size p)

scan_loop-Runs :
    (fuel offset : ℕ) (p : Parser)
    → size p < p.offset + fuel
    → offset ≤ p.offset
    → p.offset ≤ size p
    → Runs (Closes offset p) (scan_loop fuel p)
unfolding scan_loop
scan_loop-Runs zero offset p f l h = absurd (omega arith)
scan_loop-Runs (suc fuel) offset p f l h =
    Runs-if _ (at_end p) _ _ (λ _. tt)
      (λ more.
        let next = advance_le p more in
        Runs-if _ (current p == b'"') _ _ (λ _. (refl, l, refl, omega arith))
          (λ _.
            Runs-if _ (ltb (current p) 0x20) _ _ (λ _. tt)
              (λ _.
                Runs-if _
                  (is_ascii_profile p.profile && (current p == b'\\' || ltb 0x7e (current p))) _ _
                  (λ _. tt)
                  (λ _.
                    Runs-if _ (current p == b'\\') _ _
                      (λ _.
                        Runs-if _ (at_end (advance p)) _ _ (λ _. tt)
                          (λ more'.
                            scan_loop-Runs fuel offset (advance (advance p)) (omega arith)
                              (omega arith) (advance_le (advance p) more')))
                      (λ _.
                        scan_loop-Runs fuel offset (advance p) (omega arith) (omega arith) next)))))

scanned-Runs :
    (P : ℕ → Parser → Type 0) (p : Parser) (opening : ℕ) (m : Parsed ℕ)
    → Runs P m
    → Runs P (scanned p opening m)
unfolding scanned
scanned-Runs P p opening (ok r) h = h
scanned-Runs P p opening (err (failed e none)) h = tt
scanned-Runs P p opening (err (failed e (some at))) h = tt
scanned-Runs P p opening (err out_of_fuel) h = h

-- The same position and sizes: only marks and the key set differ.
abbrev Same : Parser → ℕ → Parser → Type 0
Same p a q =
    (size q ≡ size p)
    × (q.offset ≡ p.offset)
    × (q.document.token_capacity ≡ p.document.token_capacity)
    × (q.document.arena_capacity ≡ p.document.arena_capacity)
    × (q.document.arena_used ≡ p.document.arena_used)
    × (count q ≡ count p)

supersede-Same : (previous : Option ℕ) (p : Parser) → Same p 0 (supersede previous p)
unfolding supersede
supersede-Same none p = (refl, refl, refl, refl, refl, refl)
supersede-Same (some previous) p =
    (refl, refl, refl, refl, refl, count-update_token previous mark_superseded p)

keyed-Runs :
    {A : Type 0} (P : ℕ → Parser → Type 0) (p : Parser) (opening : ℕ) (o : Outcome Error A)
    (f : A → Parsed ℕ)
    → ((a : A) → Runs P (f a))
    → Runs P (key_failure p opening o >>= f)
unfolding key_failure
keyed-Runs P p opening (ok a) f h = h a
keyed-Runs P p opening (err e) f h = tt

add_unique-Runs : (index opening : ℕ) (p : Parser) → Runs (Same p) (add_unique index opening p)
unfolding add_unique
add_unique-Runs index opening p =
    keyed-Runs (Same p) p opening (keyset_insert (token_key p.document) p.growth p.keys index) _
      (λ keys. (refl, refl, refl, refl, refl, refl))

add_key-Runs :
    (profile : Profile) (index opening : ℕ) (p : Parser)
    → Runs (Same p) (add_key profile index opening p)
unfolding add_key
add_key-Runs rfc8259_last_wins index opening p =
    keyed-Runs (Same p) p opening (keyset_insert_last (token_key p.document) p.growth p.keys index)
      _ (λ inserted. supersede-Same inserted.1 (record p { keys = inserted.0 }))
add_key-Runs rfc8259 index opening p = add_unique-Runs index opening p
add_key-Runs contract_ascii index opening p = add_unique-Runs index opening p

pub length-slice : (bytes : Bytes) (start end : ℕ) → length (slice bytes start end) ≤ end - start
length-slice bytes start end = length-take (end - start) (drop start bytes)
  where
    length-take : (n : ℕ) (xs : Bytes) → length (take n xs) ≤ n
    length-take zero xs = omega arith
    length-take (suc n) [] = omega arith
    length-take (suc n) (x ∷ xs) = omega (arith, length-take n xs)

-- The text is stored: the arena takes at most its bytes and a NUL.
abbrev pub Stores : ℕ → Parser → ℕ → Parser → Type 0
Stores n p a q =
    (size q ≡ size p)
    × (q.offset ≡ p.offset)
    × (q.document.token_capacity ≡ p.document.token_capacity)
    × (q.document.arena_capacity ≡ p.document.arena_capacity)
    × (q.document.arena_used ≤ p.document.arena_used + (n + 1))
    × (count q ≡ count p)

decode_text-Runs :
    (index start end n : ℕ) (d : Decoded) (p : Parser)
    → Fits n d
    → Runs (Stores n p) (decode_text index start end d p)
unfolding decode_text store_text
decode_text-Runs index start end n (text bytes) p h = (
  refl,
  refl,
  refl,
  refl,
  omega arith,
  count-update_token index (λ t. record t { end = end; text = some bytes }) p,
)
decode_text-Runs index start end n (bad e at) p h = tt
decode_text-Runs index start end n stuck p h = h

-- The parts of `parse_string` together.
string-Steps :
    (p q r s : Parser) (end : ℕ)
    → Within p
    → Closes (p.offset + 1) p end q
    → Adds q r
    → Stores (end - (p.offset + 1)) r 0 s
    → (t : Parser) → Same s 0 t
    → Steps 2 p t
string-Steps p q r s end w (same, after, at, inside) added stored t kept =
    let bytes = ap (λ d. length d.bytes) same in
    let tokens = ap (λ d. length d.tokens) same in
    let capacity = ap (λ d. d.token_capacity) same in
    let arena = ap (λ d. d.arena_capacity) same in
    let used = ap (λ d. d.arena_used) same in omega arith

pub parse_string-Runs :
    (parent : Option ℕ) (object_key : Bool) (p : Parser)
    → Within p
    → Runs (λ index q. Steps 2 p q) (parse_string parent object_key p)
unfolding parse_string scan_string_body
parse_string-Runs parent object_key p w =
    Runs-if _ (at_end p || not (current p == b'"')) _ _ (λ _. tt)
      (λ quote.
        let start = p.offset + 1 in
        let inside : start ≤ size p = advance_le p (ground arith) in
        Runs-bind (Closes start p) _ (scanned p p.offset (scan_string_body (advance p))) _
          (scanned-Runs (Closes start p) p p.offset (scan_string_body (advance p))
            (scan_loop-Runs (size p + 1) start (advance p) (omega arith) (omega arith) inside))
          (λ end q closed.
            Runs-bind (λ index r. Adds q r × (index ≡ count q)) _
              (add_token string start parent object_key q) _
              (add_token-Runs string start parent object_key q)
              (λ index r added.
                let literal = slice r.document.bytes start end in
                Runs-bind (Stores (end - start) r) _
                  (decode_text index start end (decode_string r.profile literal) r) _
                  (decode_text-Runs index start end (end - start) (decode_string r.profile literal)
                    r
                    (Fits-mono (decode_string r.profile literal)
                      (length-slice r.document.bytes start end)
                      (decode_string-Fits r.profile literal)))
                  (λ index' s stored.
                    let all = string-Steps p q r s end w closed added.0 stored in
                    Runs-if _ object_key _ _
                      (λ _.
                        Runs-mono (Same s) (λ a. Steps 2 p) (add_key s.profile index' p.offset s)
                          (λ a t same. all t same) (add_key-Runs s.profile index' p.offset s))
                      (λ _. all s (refl, refl, refl, refl, refl, refl))))))
