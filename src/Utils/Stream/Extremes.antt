-- ===== src/Utils/Stream/Extremes.antt =====
-- The smallest and the largest element of a stream of numbers.
use oos.Prelude.{
  AllOf, ℕ, zero, suc, ◌≤◌, ◌<◌, ◌≡◌, refl, sym, ap, ◌∙◌, ◌⊎◌, inl, inr, none, some, List, [], ◌∷◌,
  arith, length, get_elem?,
}
use oos.Prelude.Outcome.{Outcome, ok}
use oos.Utils.Stream.Processor.{Pull, Lists}
use oos.Utils.Stream.Terminals.{min, max, smaller, larger}
use oos.Utils.Stream.Fold.{reduce-fold_first}
use oos.Utils.Stream.Spec.{fold}

-- `m` is an element, and `R` relates it to every element.
abbrev pub IsExtreme : (ℕ → ℕ → Type 0) → ℕ → List ℕ → Type 0
IsExtreme R m xs = ((i : ℕ) × (get_elem? xs i ≡ some m)) × AllOf (R m) xs

-- A function that picks, of two numbers, the one that `R` relates to both.
module _ (R : ℕ → ℕ → Type 0) (pick : ℕ → ℕ → ℕ)
    (picks : (x y : ℕ) → (pick x y ≡ x) ⊎ (pick x y ≡ y))
    (low : (m x y : ℕ) → R m (pick x y) → R m x × R m y) (self : (x : ℕ) → R x x) where
  fold-IsExtreme : (x : ℕ) (xs : List ℕ) → IsExtreme R (fold pick x xs) (x ∷ xs)
  fold-IsExtreme x [] = ((0, refl), (self x, tt))
  fold-IsExtreme x (y ∷ xs) =
      let ((i, e), (r, rs)) = fold-IsExtreme (pick x y) xs in
      let (rx, ry) = low (fold pick (pick x y) xs) x y r in (place i e (picks x y), (rx, (ry, rs)))
    where
      place :
          (i : ℕ)
          → get_elem? (pick x y ∷ xs) i ≡ some (fold pick (pick x y) xs)
          → (pick x y ≡ x) ⊎ (pick x y ≡ y)
          → (j : ℕ) × (get_elem? (x ∷ y ∷ xs) j ≡ some (fold pick (pick x y) xs))
      place zero e (inl p) = (0, sym (ap some p) ∙ e)
      place zero e (inr p) = (1, sym (ap some p) ∙ e)
      place (suc i) e p = (suc (suc i), e)

-- Of a stream of numbers that lists `x ∷ xs`, `min` gives an element that is at most every element,
-- and `max` one that every element is at most; of a stream without an element both give nothing.
pub min-max-IsExtreme {ℓ} :
    {S : Type ℓ} (process : S → Outcome (Pull S ℕ)) (n x : ℕ) (s t : S) (xs : List ℕ)
    → suc (length xs) < n
    → Lists process s (x ∷ xs)
    → Lists process t []
    → ((m : ℕ) × (min process n s ≡ ok (some m)) × IsExtreme ◌≤◌ m (x ∷ xs))
      × ((m : ℕ) × (max process n s ≡ ok (some m)) × IsExtreme (λ a b. b ≤ a) m (x ∷ xs))
      × (min process n t ≡ ok none)
      × (max process n t ≡ ok none)
unfolding min max
min-max-IsExtreme process n x s t xs h l e = (
  (
    fold smaller x xs,
    reduce-fold_first process smaller n s (x ∷ xs) h l,
    fold-IsExtreme ◌≤◌ smaller (λ a b. ground arith) (λ m a b r. ground arith) (λ a. omega arith) x
        xs,
  ),
  (
    fold larger x xs,
    reduce-fold_first process larger n s (x ∷ xs) h l,
    fold-IsExtreme (λ a b. b ≤ a) larger (λ a b. ground arith) (λ m a b r. ground arith)
        (λ a. omega arith) x xs,
  ),
  reduce-fold_first process smaller n t [] (omega arith) e,
  reduce-fold_first process larger n t [] (omega arith) e,
)
