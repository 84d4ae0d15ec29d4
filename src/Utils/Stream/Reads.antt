-- ===== src/Utils/Stream/Reads.antt =====
-- The operations of a stream that give one result.
use oos.Prelude.{
  ℕ, zero, suc, ◌-◌, ◌^◌, ◌<◌, ◌≡◌, refl, ap, ◌∙◌, inl, inr, Bool, true, false, not, some, List, [],
  ◌∷◌, arith, if◌then◌else◌, Bool-cases, length, get_elem?, drop,
}
use oos.Prelude.Outcome.{Outcome, ok, ◌>>=◌}
use oos.Utils.Stream.Processor.{Pull, Lists}
use oos.Utils.Stream.Stages.{counted, skip_process}
use oos.Utils.Stream.Terminals.{
  begin, collect, count, last, first, any, all, none_of, break_loop, at,
}
use oos.Utils.Stream.Count.{Lists-skip}
use oos.Utils.Stream.Fold.{reduce-fold_first, break_loop-any, collect-Lists, count-Lists}
use oos.Utils.Stream.Spec.{fold, fold_first, any_of, all_of}

module _ {ℓ} {A : Type ℓ} where
  any_of-not :
      (p : A → Bool) (xs : List A)
      → (if any_of (λ a. not (p a)) xs then false else true) ≡ all_of p xs
  any_of-not p [] = refl
  any_of-not p (x ∷ xs) = elim (Bool-cases (p x)) [
    | inl e ↦ rw e (any_of-not p xs)
    | inr e ↦ rw e refl
  ]

  fold_last :
      (x : A) (xs : List A) → some (fold (λ a next. next) x xs) ≡ get_elem? (x ∷ xs) (length xs)
  fold_last x [] = refl
  fold_last x (y ∷ xs) = fold_last y xs

  last_lem : (xs : List A) → fold_first (λ a next. next) xs ≡ get_elem? xs (length xs - 1)
  last_lem [] = refl
  last_lem (x ∷ xs) = let e : suc (length xs) - 1 ≡ length xs = omega arith in rw e (fold_last x xs)

  get-drop : (i : ℕ) (xs : List A) → get_elem? (drop i xs) 0 ≡ get_elem? xs i
  get-drop zero xs = refl
  get-drop (suc i) [] = refl
  get-drop (suc i) (x ∷ xs) = get-drop i xs

module _ {ℓ κ} {S : Type ℓ} {A : Type κ} (process : S → Outcome (Pull S A)) where
  decide :
      (test : A → Bool) (found : Bool) (n : ℕ) (s : S) (xs : List A)
      → length xs < n
      → Lists process s xs
      → (begin process s >>= λ it. break_loop process test found n it)
        ≡ ok (if any_of test xs then found else not found)
  unfolding begin break_loop
  decide test found zero s xs h l = absurd (omega arith)
  decide test found (suc n) s [] h (t, e) = rw e refl
  decide test found (suc n) s (x ∷ xs) h (t, e, l) =
      rw e (break_loop-any process test found (suc n) x t xs (omega arith) l)

  first-Lists : (s : S) (xs : List A) → Lists process s xs → first process s ≡ ok (get_elem? xs 0)
  unfolding first begin
  first-Lists s [] (t, e) = rw e refl
  first-Lists s (x ∷ xs) (t, e, l) = rw e refl

pub at-Lists {ℓ κ} :
    {S : Type ℓ} {A : Type κ} (process : S → Outcome (Pull S A)) (i : ℕ) (s : S) (xs : List A)
    → length xs < 2 ^ 64
    → Lists process s xs
    → at process i s ≡ ok (get_elem? xs i)
unfolding at
at-Lists process i s xs h l =
    first-Lists (skip_process process i) (counted s) (drop i xs) (Lists-skip process i s xs h l)
    ∙ ap ok (get-drop i xs)

-- For a stream that lists `xs`, of fewer than `2 ^ 64` elements, and more fuel than elements:
-- `collect` gives `xs`, `count` its length, `first`, `last` and `at` the elements at these positions
-- or nothing, and `any`, `all` and `none` say whether some, every or no element passes the test.
pub reads-Lists {ℓ κ} :
    {S : Type ℓ} {A : Type κ} (process : S → Outcome (Pull S A)) (pred : A → Bool) (i n : ℕ) (s : S)
    (xs : List A)
    → length xs < n
    → length xs < 2 ^ 64
    → Lists process s xs
    → (collect process n s ≡ ok xs)
      × (count process n s ≡ ok (length xs))
      × (first process s ≡ ok (get_elem? xs 0))
      × (last process n s ≡ ok (get_elem? xs (length xs - 1)))
      × (at process i s ≡ ok (get_elem? xs i))
      × (any process pred n s ≡ ok (any_of pred xs))
      × (all process pred n s ≡ ok (all_of pred xs))
      × (none_of process pred n s ≡ ok (not (any_of pred xs)))
unfolding last any all none_of
reads-Lists process pred i n s xs h g l = (
  collect-Lists process n s xs h l,
  count-Lists process n s xs h l,
  first-Lists process s xs l,
  (reduce-fold_first process (λ x next. next) n s xs h l ∙ ap ok (last_lem xs)),
  at-Lists process i s xs g l,
  (decide process pred true n s xs h l ∙ ap ok (if_true (any_of pred xs))),
  (decide process (λ a. not (pred a)) false n s xs h l ∙ ap ok (any_of-not pred xs)),
  (decide process pred false n s xs h l ∙ ap ok (if_false (any_of pred xs))),
)
  where
    if_true : (b : Bool) → (if b then true else false) ≡ b
    if_true true = refl
    if_true false = refl

    if_false : (b : Bool) → (if b then false else true) ≡ not b
    if_false true = refl
    if_false false = refl
