-- ===== src/Object/Prototype/Apart.antt =====
-- The nodes of a forest, and lists of nodes that are all different.
use oos.Prelude.{ℕ, ◌≡◌, false, Option, some, List, [], ◌∷◌, ◌++◌, arith, ◌==◌, AllOf}
use oos.Object.Prototype.{Nodes}
use oos.Object.Prototype.Forest.{Forest, nil, tree, Chain}

-- The nodes and the sentinels of a forest.
abbrev pub addresses : Forest → List ℕ
addresses nil = []
addresses (tree x f k cs rest) = x ∷ f ∷ k ∷ addresses cs ++ addresses rest

-- The forest with one more tree behind the last.
abbrev pub snoc : Forest → ℕ → ℕ → ℕ → Forest
snoc nil y f k = tree y f k nil nil
snoc (tree x g j cs rest) y f k = tree x g j cs (snoc rest y f k)

abbrev pub last_sibling : ℕ → Forest → ℕ
last_sibling p nil = p
last_sibling p (tree x f k cs rest) = last_sibling x rest

abbrev pub IsApart : ℕ → ℕ → Type 0
IsApart a b = (a == b) ≡ false

abbrev pub Distinct : List ℕ → Type 0
Distinct [] = Unit
Distinct (x ∷ xs) = AllOf (IsApart x) xs × Distinct xs

pub IsApart-sym : (a b : ℕ) → IsApart a b → IsApart b a
IsApart-sym a b h = ground (arith, h)

pub AllOf-left {κ} : (P : ℕ → Type κ) (xs ys : List ℕ) → AllOf P (xs ++ ys) → AllOf P xs
AllOf-left P [] ys h = tt
AllOf-left P (x ∷ xs) ys h = (h.0, AllOf-left P xs ys h.1)

pub AllOf-right {κ} : (P : ℕ → Type κ) (xs ys : List ℕ) → AllOf P (xs ++ ys) → AllOf P ys
AllOf-right P [] ys h = h
AllOf-right P (x ∷ xs) ys h = AllOf-right P xs ys h.1

pub Distinct-right : (xs ys : List ℕ) → Distinct (xs ++ ys) → Distinct ys
Distinct-right [] ys h = h
Distinct-right (x ∷ xs) ys h = Distinct-right xs ys h.1

pub Distinct-left : (xs ys : List ℕ) → Distinct (xs ++ ys) → Distinct xs
Distinct-left [] ys h = tt
Distinct-left (x ∷ xs) ys h = (AllOf-left (IsApart x) xs ys h.0, Distinct-left xs ys h.1)

pub AllOf-both {κ κ' κ''} :
    (P : ℕ → Type κ) (Q : ℕ → Type κ') (R : ℕ → Type κ'') (xs : List ℕ)
    → ((x : ℕ) → P x → Q x → R x)
    → AllOf P xs
    → AllOf Q xs
    → AllOf R xs
AllOf-both P Q R [] k h g = tt
AllOf-both P Q R (x ∷ xs) k h g = (k x h.0 g.0, AllOf-both P Q R xs k h.1 g.1)

-- In a list without repetitions, the elements of the first part are apart from those of the second.
pub Distinct-IsApart : (xs ys : List ℕ) → Distinct (xs ++ ys) → AllOf (λ x. AllOf (IsApart x) ys) xs
Distinct-IsApart [] ys h = tt
Distinct-IsApart (x ∷ xs) ys h = (AllOf-right (IsApart x) xs ys h.0, Distinct-IsApart xs ys h.1)

pub last_sibling_lem :
    (P : ℕ → Type 0) (x : ℕ) (ts : Forest) → P x → AllOf P (addresses ts) → P (last_sibling x ts)
last_sibling_lem P x nil h g = h
last_sibling_lem P x (tree y f k cs rest) h (u, (v, (w, g))) =
    last_sibling_lem P y rest u (AllOf-right P (addresses cs) (addresses rest) g)

pub Chain-last_sibling :
    (h : Nodes) (ts : Forest) (parent : Option ℕ) (l d p : ℕ)
    → Chain h parent l d p ts
    → (h l).prev ≡ some (last_sibling p ts)
Chain-last_sibling h nil parent l d p c = c.1
Chain-last_sibling h (tree x f k cs rest) parent l d p
      (n, v, ne, q, dx, fx, lx, fp, fl, under, behind) =
    Chain-last_sibling h rest parent l d x behind
