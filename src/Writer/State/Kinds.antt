-- ===== src/Writer/State/Kinds.antt =====
-- The kinds of the nodes on the stack of src/writer.c, which no later step changes.
use maelys_json.Base.{
  ℕ, zero, suc, ◌<◌, ◌≡◌, refl, ap₂, ◌∙◌, List, [], ◌∷◌, ◌++◌, length, get_or, set, All, arith,
}
use maelys_json.Types.{Kind}
use maelys_json.Writer.State.{Node, no_node}
use maelys_json.Parser.State.Runs.{length-set}

abbrev pub kind_at : List Node → ℕ → Kind
kind_at nodes i = (get_or nodes i no_node).kind

abbrev pub kinds : List Node → List ℕ → List Kind
kinds nodes [] = []
kinds nodes (i ∷ stack) = kind_at nodes i ∷ kinds nodes stack

-- The same kinds in the same places.
abbrev pub SameKinds : List Node → List Node → Type 0
SameKinds xs ys = (length xs ≡ length ys) × ((i : ℕ) → kind_at xs i ≡ kind_at ys i)

pub SameKinds-trans : (xs ys zs : List Node) → SameKinds xs ys → SameKinds ys zs → SameKinds xs zs
SameKinds-trans xs ys zs h k = (h.0 ∙ k.0, λ i. h.1 i ∙ k.1 i)

kind_at-set :
    (xs : List Node) (i : ℕ) (v : Node)
    → v.kind ≡ kind_at xs i
    → (j : ℕ) → kind_at (set xs i v) j ≡ kind_at xs j
kind_at-set [] i v e j = refl
kind_at-set (x ∷ xs) zero v e zero = e
kind_at-set (x ∷ xs) zero v e (suc j) = refl
kind_at-set (x ∷ xs) (suc i) v e zero = refl
kind_at-set (x ∷ xs) (suc i) v e (suc j) = kind_at-set xs i v e j

-- A change of one node that keeps its kind.
pub set-SameKinds :
    (xs : List Node) (i : ℕ) (v : Node) → v.kind ≡ kind_at xs i → SameKinds (set xs i v) xs
set-SameKinds xs i v e = (length-set xs i v, kind_at-set xs i v e)

pub kind_at-append :
    (xs ys : List Node) (i : ℕ) → i < length xs → kind_at (xs ++ ys) i ≡ kind_at xs i
kind_at-append [] ys i h = absurd (omega arith)
kind_at-append (x ∷ xs) ys zero h = refl
kind_at-append (x ∷ xs) ys (suc i) h = kind_at-append xs ys i (omega arith)

pub kind_at-last : (xs : List Node) (n : Node) → kind_at (xs ++ n ∷ []) (length xs) ≡ n.kind
kind_at-last [] n = refl
kind_at-last (x ∷ xs) n = kind_at-last xs n

pub kinds-SameKinds :
    (xs ys : List Node) (stack : List ℕ) → SameKinds xs ys → kinds xs stack ≡ kinds ys stack
kinds-SameKinds xs ys [] h = refl
kinds-SameKinds xs ys (i ∷ stack) h = ap₂ ◌∷◌ (h.1 i) (kinds-SameKinds xs ys stack h)

pub kinds-append :
    (xs ys : List Node) (stack : List ℕ)
    → All (λ i. i < length xs) stack
    → kinds (xs ++ ys) stack ≡ kinds xs stack
kinds-append xs ys [] h = refl
kinds-append xs ys (i ∷ stack) (below, h) =
    ap₂ ◌∷◌ (kind_at-append xs ys i below) (kinds-append xs ys stack h)
