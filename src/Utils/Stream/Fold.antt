-- ===== src/Utils/Stream/Fold.antt =====
-- The operations that read a stream, against the list of its elements.
use oos.Prelude.{
  ℕ, zero, suc, ◌+◌, ◌<◌, ◌≡◌, refl, sym, ap, ◌∙◌, inl, inr, Bool, not, some, List, [], ◌∷◌, ◌++◌,
  append-nil, append_assoc, arith, if◌then◌else◌, Bool-cases, length,
}
use oos.Prelude.Outcome.{Outcome, ok}
use oos.Utils.Stream.Processor.{Pull, Lists}
use oos.Utils.Stream.Terminals.{
  valid, begin, increment, loop, reduce_from, reduce, collect, count, break_loop,
}
use oos.Utils.Stream.Spec.{fold, fold_first, any_of}

module _ {ℓ κ} {S : Type ℓ} {A : Type κ} (process : S → Outcome (Pull S A)) where
  -- The iterator at the element `a`, from a state that lists the others.
  loop-fold {κ'} :
      {B : Type κ'} (accu : B → A → B) (n : ℕ) (b : B) (a : A) (t : S) (xs : List A)
      → suc (length xs) < n
      → Lists process t xs
      → loop process accu n b (record { processor = t; value = some a; state = valid })
        ≡ ok (fold accu (accu b a) xs)
  unfolding loop increment
  loop-fold accu zero b a t xs h l = absurd (omega arith)
  loop-fold accu (suc zero) b a t xs h l = absurd (omega arith)
  loop-fold accu (suc (suc n)) b a t [] h (u, e) = rw e refl
  loop-fold accu (suc (suc n)) b a t (x ∷ xs) h (u, e, l) =
      rw e (loop-fold accu (suc n) (accu b a) x u xs (omega arith) l)

  pub reduce_from-fold {κ'} :
      {B : Type κ'} (accu : B → A → B) (n : ℕ) (b : B) (s : S) (xs : List A)
      → length xs < n
      → Lists process s xs
      → reduce_from process accu n b s ≡ ok (fold accu b xs)
  unfolding reduce_from begin loop
  reduce_from-fold accu zero b s xs h l = absurd (omega arith)
  reduce_from-fold accu (suc n) b s [] h (t, e) = rw e refl
  reduce_from-fold accu (suc n) b s (x ∷ xs) h (t, e, l) =
      rw e (loop-fold accu (suc n) b x t xs (omega arith) l)

  pub reduce-fold_first :
      (accu : A → A → A) (n : ℕ) (s : S) (xs : List A)
      → length xs < n
      → Lists process s xs
      → reduce process accu n s ≡ ok (fold_first accu xs)
  unfolding reduce begin increment loop
  reduce-fold_first accu zero s xs h l = absurd (omega arith)
  reduce-fold_first accu (suc n) s [] h (t, e) = rw e refl
  reduce-fold_first accu (suc n) s (x ∷ []) h (t, e, (u, d)) = rw (e, d) refl
  reduce-fold_first accu (suc n) s (x ∷ y ∷ xs) h (t, e, (u, d, l)) =
      rw (e, d) (rw (loop-fold accu (suc n) x y u xs (omega arith) l) refl)

  pub break_loop-any :
      (test : A → Bool) (found : Bool) (n : ℕ) (a : A) (t : S) (xs : List A)
      → suc (length xs) < n
      → Lists process t xs
      → break_loop process test found n (record { processor = t; value = some a; state = valid })
        ≡ ok (if any_of test (a ∷ xs) then found else not found)
  unfolding break_loop increment
  break_loop-any test found zero a t xs h l = absurd (omega arith)
  break_loop-any test found (suc zero) a t xs h l = absurd (omega arith)
  break_loop-any test found (suc (suc n)) a t [] h (u, e) = elim (Bool-cases (test a)) [
    | inl p ↦ rw p refl
    | inr p ↦ rw (p, e) refl
  ]
  break_loop-any test found (suc (suc n)) a t (x ∷ xs) h (u, e, l) = elim (Bool-cases (test a)) [
    | inl p ↦ rw p refl
    | inr p ↦ rw (p, e) (break_loop-any test found (suc n) x u xs (omega arith) l)
  ]

  fold_snoc : (acc xs : List A) → fold (λ result a. result ++ (a ∷ [])) acc xs ≡ acc ++ xs
  fold_snoc acc [] = sym (append-nil acc)
  fold_snoc acc (x ∷ xs) = fold_snoc (acc ++ (x ∷ [])) xs ∙ append_assoc acc (x ∷ []) xs

  fold-suc : (c : ℕ) (xs : List A) → fold (λ d a. suc d) c xs ≡ c + length xs
  fold-suc c [] = omega arith
  fold-suc c (x ∷ xs) = omega (arith, fold-suc (suc c) xs)

  pub collect-Lists :
      (n : ℕ) (s : S) (xs : List A)
      → length xs < n
      → Lists process s xs
      → collect process n s ≡ ok xs
  unfolding collect
  collect-Lists n s xs h l =
      reduce_from-fold (λ result a. result ++ (a ∷ [])) n [] s xs h l ∙ ap ok (fold_snoc [] xs)

  pub count-Lists :
      (n : ℕ) (s : S) (xs : List A)
      → length xs < n
      → Lists process s xs
      → count process n s ≡ ok (length xs)
  unfolding count
  count-Lists n s xs h l =
      reduce_from-fold (λ c a. suc c) n 0 s xs h l ∙ ap ok (fold-suc 0 xs ∙ omega arith)
