-- ===== src/Utils/Stream/Count.antt =====
-- The stages that count their elements: `take`, `skip` and `every`.
use native.Mathlib.Nat.{suc-mod, mod_self, mod-eq_of_lt, zero-mod}
use oos.Prelude.{
  ℕ, zero, suc, ◌+◌, ◌-◌, ◌%◌, ◌^◌, ◌<◌, ◌≡◌, refl, ap, ◌∙◌, true, false, List, [], ◌∷◌, arith, ltb,
  ◌==◌, lt→ltb, length, take, drop, drop_all,
}
use oos.Prelude.Outcome.{Outcome}
use oos.Utils.Stream.Processor.{Pull, Lists, Lists-Remaining, Remaining, Starts}
use oos.Utils.Stream.Stages.{
  Counted, counted, count_next, take_process, skip_process, skip_loop, every_process, every_loop,
}
use oos.Utils.Stream.Spec.{every_nth}

module _ {ℓ κ} {S : Type ℓ} {A : Type κ} (process : S → Outcome (Pull S A)) (count : ℕ)
    (h64 : count < 2 ^ 64) where
  -- `c` elements have passed, and `k` more may.
  take-Lists :
      (k c : ℕ) (s : S) (xs : List A)
      → c + k ≡ count
      → Lists process s xs
      → Lists (take_process process count) (record { successor = s; current_count = c }) (take k xs)
  unfolding take_process
  take-Lists zero c s [] h (t, e) = (record { successor = t; current_count = c }, rw e refl)
  take-Lists zero c s (x ∷ xs) h (t, e, l) =
      let d : ltb c count ≡ false = ground (arith, h) in
      (count_next (record { successor = s; current_count = c }) t, rw (e, d) refl)
  take-Lists (suc k) c s [] h (t, e) = (record { successor = t; current_count = c }, rw e refl)
  take-Lists (suc k) c s (x ∷ xs) h (t, e, l) =
      let d : ltb c count ≡ true = lt→ltb c count (omega arith) in
      let w : suc c % 2 ^ 64 ≡ suc c = omega arith in
      (
        record { successor = t; current_count = suc c },
        rw (e, d, w) refl,
        take-Lists k (suc c) t xs (omega arith) l,
      )

  -- An endless successor gives the elements too, and `take` asks it for one more.
  take-Starts :
      (k c : ℕ) (s : S) (xs : List A)
      → c + k ≡ count
      → k < length xs
      → Starts process s xs
      → Lists (take_process process count) (record { successor = s; current_count = c }) (take k xs)
  unfolding take_process
  take-Starts k c s [] h g l = absurd (omega arith)
  take-Starts zero c s (x ∷ xs) h g (t, e, l) =
      let d : ltb c count ≡ false = ground (arith, h) in
      (count_next (record { successor = s; current_count = c }) t, rw (e, d) refl)
  take-Starts (suc k) c s (x ∷ xs) h g (t, e, l) =
      let d : ltb c count ≡ true = lt→ltb c count (omega arith) in
      let w : suc c % 2 ^ 64 ≡ suc c = omega arith in
      (
        record { successor = t; current_count = suc c },
        rw (e, d, w) refl,
        take-Starts k (suc c) t xs (omega arith) (omega arith) l,
      )

  pub Lists-take :
      (s : S) (xs : List A)
      → Lists process s xs
      → Lists (take_process process count) (counted s) (take count xs)
  Lists-take s xs l = take-Lists count 0 s xs (omega arith) l

  pub Starts-take :
      (s : S) (xs : List A)
      → count < length xs
      → Starts process s xs
      → Lists (take_process process count) (counted s) (take count xs)
  Starts-take s xs h l = take-Starts count 0 s xs (omega arith) h l

module _ {ℓ κ} {S : Type ℓ} {A : Type κ} (process : S → Outcome (Pull S A)) (count : ℕ) where
  -- One call of `skip` with `n` turns, after `c` elements, so that `k` are still to be left out.
  skip-Remaining :
      (n k c : ℕ) (s : S) (xs : List A)
      → k < n
      → k ≡ count - c
      → c + length xs < 2 ^ 64
      → Lists process s xs
      → Remaining
          (skip_process process count)
          (skip_loop process count n (record { successor = s; current_count = c }))
          (drop k xs)
  unfolding skip_process skip_loop
  skip-Remaining zero k c s xs g h b l = absurd (omega arith)
  skip-Remaining (suc n) k c s [] g h b (t, e) =
      rw (drop_all {A = A} k [] (omega arith))
        (record { successor = t; current_count = c }, rw e refl)
  skip-Remaining (suc n) zero c s (x ∷ xs) g h b (t, e, l) =
      let d : ltb c count ≡ false = ground (arith, h) in
      let w : suc c % 2 ^ 64 ≡ suc c = omega arith in
      let next : Counted S = record { successor = t; current_count = suc c } in
      let more =
        skip-Remaining (suc count) 0 (suc c) t xs (omega arith) (omega arith) (omega arith) l in
      rw (e, d, w) (next, refl, Lists-Remaining (skip_process process count) next xs more)
  skip-Remaining (suc n) (suc k) c s (x ∷ xs) g h b (t, e, l) =
      let d : ltb c count ≡ true = lt→ltb c count (omega arith) in
      let w : suc c % 2 ^ 64 ≡ suc c = omega arith in
      rw (e, d, w) (skip-Remaining n k (suc c) t xs (omega arith) (omega arith) (omega arith) l)

  pub Lists-skip :
      (s : S) (xs : List A)
      → length xs < 2 ^ 64
      → Lists process s xs
      → Lists (skip_process process count) (counted s) (drop count xs)
  unfolding skip_process
  Lists-skip s xs h l =
      Lists-Remaining (skip_process process count) (counted s) (drop count xs)
        (skip-Remaining (suc count) count 0 s xs (omega arith) (omega arith) (omega arith) l)

module _ {ℓ κ} {S : Type ℓ} {A : Type κ} (process : S → Outcome (Pull S A)) (every : ℕ) where
  -- One call of `every` with `n` turns, after `c` elements, so that `k` are still to be left out.
  every-Remaining :
      (n k c : ℕ) (s : S) (xs : List A)
      → k < n
      → suc (c % every) + k ≡ every
      → c + length xs < 2 ^ 64
      → Lists process s xs
      → Remaining
          (every_process process every)
          (every_loop process every n (record { successor = s; current_count = c }))
          (every_nth every k xs)
  unfolding every_process every_loop
  every-Remaining zero k c s xs g h b l = absurd (omega arith)
  every-Remaining (suc n) k c s [] g h b (t, e) =
      (record { successor = t; current_count = c }, rw e refl)
  every-Remaining (suc n) zero c s (x ∷ xs) g h b (t, e, l) =
      let z : (every == 0) ≡ false = ground (arith, h) in
      let w : suc c % 2 ^ 64 ≡ suc c = omega arith in
      let f : suc (c % every) ≡ every = omega (arith, h) in
      let d : suc c % every ≡ 0 = suc-mod c every ∙ ap (λ (i : ℕ). i % every) f ∙ mod_self every in
      let next : Counted S = record { successor = t; current_count = suc c } in
      let more =
        every-Remaining (suc every) (every - 1) (suc c) t xs (omega arith) (rw d (omega arith))
          (omega arith) l in
      rw (e, z, w, d) (next, refl, Lists-Remaining (every_process process every) next _ more)
  every-Remaining (suc n) (suc k) c s (x ∷ xs) g h b (t, e, l) =
      let z : (every == 0) ≡ false = ground (arith, h) in
      let w : suc c % 2 ^ 64 ≡ suc c = omega arith in
      let f : suc c % every ≡ suc (c % every) = suc-mod c every ∙ mod-eq_of_lt (omega arith) in
      let d : (suc c % every == 0) ≡ false = rw f (ground arith) in
      rw (e, z, w, d)
        (every-Remaining n k (suc c) t xs (omega arith) (rw f (omega arith)) (omega arith) l)

  -- The first element that is left is that at the position `every - 1`.
  pub Lists-every :
      (s : S) (xs : List A)
      → 0 < every
      → length xs < 2 ^ 64
      → Lists process s xs
      → Lists (every_process process every) (counted s) (every_nth every (every - 1) xs)
  unfolding every_process
  Lists-every s xs g h l =
      let z : suc (0 % every) + (every - 1) ≡ every = rw (zero-mod every) (omega arith) in
      Lists-Remaining (every_process process every) (counted s) (every_nth every (every - 1) xs)
        (every-Remaining (suc every) (every - 1) 0 s xs (omega arith) z (omega arith) l)
