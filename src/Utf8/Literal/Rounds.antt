-- ===== src/Utf8/Literal/Rounds.antt =====
-- The rounds of the decoding loop, an equation for each branch.
use maelys_json.Base.{
  ℕ, suc, ◌+◌, ◌-◌, ◌≤◌, ◌≡◌, inl, inr, refl, ap, true, false, [], ◌∷◌, ◌++◌, none, some, Bytes,
  length, ◌==◌, arith, Bool-cases,
}
use maelys_json.Types.{syntax, utf8}
use maelys_json.Utf8.Validate.{utf8_valid_prefix, utf8_validate}
use maelys_json.Utf8.Literal.{escape, plain_run, bad, decode_loop}

pub plain_run-append : (bs : Bytes) → (plain_run bs).0 ++ (plain_run bs).1 ≡ bs
unfolding plain_run
plain_run-append [] = refl
plain_run-append (b ∷ bs) = elim (Bool-cases (b == b'\\')) [
  | inl e ↦ rw e
  | inr e ↦ rw e (ap (λ t. b ∷ t) (plain_run-append bs))
]

pub plain_run_pos : (b : ℕ) (bs : Bytes) → (b == b'\\') ≡ false → 1 ≤ length (plain_run (b ∷ bs)).0
unfolding plain_run
plain_run_pos b bs e = rw e (omega arith)

-- One round of the loop.
pub loop_escape :
    (f b : ℕ) (bs : Bytes) (at : ℕ) (out : Bytes) {t r : Bytes}
    → (b == b'\\') ≡ true
    → escape bs ≡ some (t, r)
    → decode_loop (suc f) (b ∷ bs) at out
      ≡ decode_loop f r (at + 1 + (length bs - length r)) (out ++ t)
unfolding decode_loop
loop_escape f b bs at out e h = rw (e, decode_loop, h, decode_loop)

pub loop_bad_escape :
    (f b : ℕ) (bs : Bytes) (at : ℕ) (out : Bytes)
    → (b == b'\\') ≡ true
    → escape bs ≡ none
    → decode_loop (suc f) (b ∷ bs) at out ≡ bad syntax at
unfolding decode_loop
loop_bad_escape f b bs at out e h = rw (e, decode_loop, h, decode_loop)

pub loop_run :
    (f b : ℕ) (bs : Bytes) (at : ℕ) (out : Bytes)
    → (b == b'\\') ≡ false
    → utf8_validate (plain_run (b ∷ bs)).0 ≡ true
    → decode_loop (suc f) (b ∷ bs) at out
      ≡ decode_loop f
          (plain_run (b ∷ bs)).1
          (at + length (plain_run (b ∷ bs)).0)
          (out ++ (plain_run (b ∷ bs)).0)
unfolding decode_loop utf8_validate
loop_run f b bs at out e h = rw (e, decode_loop, h, decode_loop)

pub loop_bad_run :
    (f b : ℕ) (bs : Bytes) (at : ℕ) (out : Bytes)
    → (b == b'\\') ≡ false
    → utf8_validate (plain_run (b ∷ bs)).0 ≡ false
    → decode_loop (suc f) (b ∷ bs) at out ≡ bad utf8 (at + utf8_valid_prefix (plain_run (b ∷ bs)).0)
unfolding decode_loop utf8_validate
loop_bad_run f b bs at out e h = rw (e, decode_loop, h, decode_loop)
