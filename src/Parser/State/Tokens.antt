-- ===== src/Parser/State/Tokens.antt =====
-- What `add_token`, `container_delimiter` and a change of one token keep.
use maelys_json.Base.{
  ℕ, ◌+◌, ◌≤◌, ◌≡◌, refl, ◌∙◌, Bool, false, not, [], ◌∷◌, ◌++◌, List, Option, none, some, length,
  length-append, arith, leb, ◌==◌,
}
use maelys_json.Document.{Token}
use maelys_json.Parser.State.{
  Parser, size, at_end, advance, current, skip_space, append_last, links_append, new_token,
  add_token, update_token, container_delimiter,
}
use maelys_json.Parser.State.Runs.{
  Runs, Runs-if, count, Reads, advance-Reads, Reads-trans, skip_space-Reads, length-set,
}
use maelys_json.Types.{Kind}

length-append_last :
    (tokens : List Token) (last : Option ℕ) (index : ℕ)
    → length (append_last tokens last index) ≡ length tokens
unfolding append_last
length-append_last tokens none index = refl
length-append_last tokens (some last) index = length-set tokens last _

pub length-links_append :
    (tokens : List Token) (parent : Option ℕ) (index : ℕ)
    → length (links_append tokens parent index) ≡ length tokens
unfolding links_append
length-links_append tokens none index = refl
length-links_append tokens (some parent) index =
    length-set (append_last tokens _ index) parent _ ∙ length-append_last tokens _ index

-- A new token: the input, the offset and the arena stay, and the token fits.
abbrev pub Adds : Parser → Parser → Type 0
Adds p q =
    (size q ≡ size p)
    × (q.offset ≡ p.offset)
    × (q.document.token_capacity ≡ p.document.token_capacity)
    × (q.document.arena_capacity ≡ p.document.arena_capacity)
    × (q.document.arena_used ≡ p.document.arena_used)
    × (count q ≡ count p + 1)
    × (count q ≤ q.document.token_capacity)

pub add_token-Runs :
    (kind : Kind) (start : ℕ) (parent : Option ℕ) (object_key : Bool) (p : Parser)
    → Runs (λ index q. Adds p q × (index ≡ count p)) (add_token kind start parent object_key p)
unfolding add_token
add_token-Runs kind start parent object_key p =
    let tokens = p.document.tokens ++ new_token kind start parent object_key ∷ [] in
    let more : length (links_append tokens parent (count p)) ≡ count p + 1 = omega (
      arith,
      length-links_append tokens parent (count p),
      length-append p.document.tokens (new_token kind start parent object_key ∷ []),
    ) in
    Runs-if _ (leb p.document.token_capacity (count p)) _ _ (λ _. tt)
      (λ room. ((refl, refl, refl, refl, refl, more, ground arith), refl))

pub count-update_token :
    (index : ℕ) (change : Token → Token) (p : Parser)
    → count (update_token index change p) ≡ count p
count-update_token index change p = length-set p.document.tokens index _

pub advance_le : (p : Parser) → at_end p ≡ false → (advance p).offset ≤ size p
unfolding at_end
advance_le p h = ground arith

pub container_delimiter-Runs :
    (closing : ℕ) (p : Parser)
    → p.offset ≤ size p
    → Runs (λ closed q. Reads 1 p q) (container_delimiter closing p)
unfolding container_delimiter
container_delimiter-Runs closing p h =
    let p' = skip_space p in
    let p'' = advance p' in
    let spaces = skip_space-Reads p h in
    Runs-if _ (at_end p') _ _ (λ _. tt)
      (λ more.
        let next = Reads-trans 0 1 p p' p'' spaces (advance-Reads p' more) in
        Runs-if _ (current p' == closing) _ _ (λ _. next)
          (λ _.
            Runs-if _ (not (current p' == b',')) _ _ (λ _. tt)
              (λ _.
                Reads-trans 1 0 p p'' (skip_space p'') next
                  (skip_space-Reads p'' (advance_le p' more)))))
