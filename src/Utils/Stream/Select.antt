-- ===== src/Utils/Stream/Select.antt =====
-- The stages that choose elements by a predicate, those that change each element, and `peek`.
use oos.Prelude.{
  ◌≡◌, ◌++◌, ℕ, zero, suc, ◌≤◌, ◌<◌, refl, inl, inr, Bool, true, false, List, [], ◌∷◌, map, arith,
  Bool-cases, length,
}
use oos.Prelude.Outcome.{Outcome}
use oos.Utils.Stream.Processor.{ListsWith, Pull, Lists, Lists-Remaining, Remaining}
use oos.Utils.Stream.Stages.{
  SkipWhile, Peeked, filter_process, peek_process, take_while_process, skip_while_process,
  map_process,
}
use oos.Utils.Stream.Spec.{keep, take_while, drop_while}

module _ {ℓ κ} {S : Type ℓ} {A : Type κ} (process : S → Outcome (Pull S A)) where
  module _ (pred : A → Bool) (fuel : ℕ) where
    -- One call of `filter`, with `n` turns, and the calls behind it.
    filter-Remaining :
        (n : ℕ) (s : S) (xs : List A)
        → length xs < n
        → n ≤ fuel
        → Lists process s xs
        → Remaining
            (filter_process process pred fuel)
            (filter_process process pred n s)
            (keep pred xs)
    unfolding filter_process
    filter-Remaining zero s xs h g l = absurd (omega arith)
    filter-Remaining (suc n) s [] h g (t, e) = (t, rw e refl)
    filter-Remaining (suc n) s (x ∷ xs) h g (t, e, l) = elim (Bool-cases (pred x)) [
      | inl p ↦
          let more = filter-Remaining fuel t xs (omega arith) (omega arith) l in
          rw (e, p)
            (t, refl, Lists-Remaining (filter_process process pred fuel) t (keep pred xs) more)
      | inr p ↦ rw (e, p) (filter-Remaining n t xs (omega arith) (omega arith) l)
    ]

    pub Lists-filter :
        (s : S) (xs : List A)
        → length xs < fuel
        → Lists process s xs
        → Lists (filter_process process pred fuel) s (keep pred xs)
    Lists-filter s xs h l =
        Lists-Remaining (filter_process process pred fuel) s (keep pred xs)
          (filter-Remaining fuel s xs h (omega arith) l)

    -- Once an element does not fit, `skip_while` passes every element on.
    skip_while-passes :
        (n : ℕ) (s : S) (xs : List A)
        → 0 < n
        → n ≤ fuel
        → Lists process s xs
        → Remaining
            (skip_while_process process pred fuel)
            (skip_while_process process pred n (record { successor = s; should_skip = false }))
            xs
    unfolding skip_while_process
    skip_while-passes zero s xs h g l = absurd (omega arith)
    skip_while-passes (suc n) s [] h g (t, e) =
        (record { successor = t; should_skip = false }, rw e refl)
    skip_while-passes (suc n) s (x ∷ xs) h g (t, e, l) =
        let next : SkipWhile S = record { successor = t; should_skip = false } in
        let more = skip_while-passes fuel t xs (omega arith) (omega arith) l in
        (next, rw e refl, Lists-Remaining (skip_while_process process pred fuel) next xs more)

    skip_while-Remaining :
        (n : ℕ) (s : S) (xs : List A)
        → length xs < n
        → n ≤ fuel
        → Lists process s xs
        → Remaining
            (skip_while_process process pred fuel)
            (skip_while_process process pred n (record { successor = s; should_skip = true }))
            (drop_while pred xs)
    unfolding skip_while_process
    skip_while-Remaining zero s xs h g l = absurd (omega arith)
    skip_while-Remaining (suc n) s [] h g (t, e) =
        (record { successor = t; should_skip = true }, rw e refl)
    skip_while-Remaining (suc n) s (x ∷ xs) h g (t, e, l) = elim (Bool-cases (pred x)) [
      | inl p ↦ rw (e, p) (skip_while-Remaining n t xs (omega arith) (omega arith) l)
      | inr p ↦
          rw (e, p)
            (let next : SkipWhile S = record { successor = t; should_skip = false } in
              let more = skip_while-passes fuel t xs (omega arith) (omega arith) l in
              (next, refl, Lists-Remaining (skip_while_process process pred fuel) next xs more))
    ]

    pub Lists-skip_while :
        (s : S) (xs : List A)
        → length xs < fuel
        → Lists process s xs
        → Lists
            (skip_while_process process pred fuel)
            (record { successor = s; should_skip = true })
            (drop_while pred xs)
    Lists-skip_while s xs h l =
        Lists-Remaining (skip_while_process process pred fuel)
          (record { successor = s; should_skip = true }) (drop_while pred xs)
          (skip_while-Remaining fuel s xs h (omega arith) l)

  pub Lists-take_while :
      (pred : A → Bool) (s : S) (xs : List A)
      → Lists process s xs
      → Lists (take_while_process process pred) s (take_while pred xs)
  unfolding take_while_process
  Lists-take_while pred s [] (t, e) = (t, rw e refl)
  Lists-take_while pred s (x ∷ xs) (t, e, l) = elim (Bool-cases (pred x)) [
    | inl p ↦ rw p (t, rw (e, p) refl, Lists-take_while pred t xs l)
    | inr p ↦ rw p (t, rw (e, p) refl)
  ]

  pub Lists-map {κ'} :
      {B : Type κ'} (f : A → B) (s : S) (xs : List A)
      → Lists process s xs
      → Lists (map_process process f) s (map f xs)
  unfolding map_process
  Lists-map f s [] (t, e) = (t, rw e refl)
  Lists-map f s (x ∷ xs) (t, e, l) = (t, rw e refl, Lists-map f t xs l)

  pub Lists-peek :
      (s : Peeked S A) (xs : List A)
      → Lists process s.successor xs
      → ListsWith (peek_process process) (λ given t. t.seen ≡ given) s.seen s xs
  unfolding peek_process
  Lists-peek s [] (t, e) = (refl, record s { successor = t }, rw e refl, refl)
  Lists-peek s (x ∷ xs) (t, e, l) =
      let next : Peeked S A = record { successor = t; seen = s.seen ++ x ∷ [] } in
      (refl, next, rw e refl, Lists-peek next xs l)
