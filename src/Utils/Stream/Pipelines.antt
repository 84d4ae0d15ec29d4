-- ===== src/Utils/Stream/Pipelines.antt =====
-- Streams put together: what each stage makes of the elements of the stream before it, and what is
-- collected behind several.
use oos.Prelude.{
  ℕ, zero, suc, ◌+◌, ◌*◌, ◌^◌, ◌≤◌, ◌<◌, ◌≡◌, refl, ap, inl, inr, Bool, true, List, [], ◌∷◌, ◌++◌,
  map, arith, Bool-cases, length, take, drop, length-take,
}
use oos.Prelude.Outcome.{Outcome, ok}
use oos.Utils.Stream.Processor.{Pull, Lists, ListsWith, Starts, Beginning, Starts-Beginning}
use oos.Utils.Stream.Sources.{counter_process, make_counter}
use oos.Utils.Stream.Stages.{
  counted, filter_process, peek_process, take_process, take_while_process, skip_process,
  skip_while_process, map_process, make_flatmap, flatmap_process, both, concat_process,
}
use oos.Utils.Stream.Terminals.{collect, count_if}
use oos.Utils.Stream.Select.{
  Lists-filter, Lists-skip_while, Lists-take_while, Lists-map, Lists-peek,
}
use oos.Utils.Stream.Count.{Lists-take, Starts-take, Lists-skip}
use oos.Utils.Stream.Join.{Lists-concat, Lists-flatmap}
use oos.Utils.Stream.Fold.{collect-Lists, count-Lists}
use oos.Utils.Stream.Numbers.{progression, counter-progression, length-progression}
use oos.Utils.Stream.Spec.{keep, take_while, drop_while, flat_map}

length-keep {ℓ} : {A : Type ℓ} (p : A → Bool) (xs : List A) → length (keep p xs) ≤ length xs
length-keep p [] = omega arith
length-keep p (x ∷ xs) = elim (Bool-cases (p x)) [
  | inl e ↦ rw e (omega (arith, length-keep p xs))
  | inr e ↦ rw e (omega (arith, length-keep p xs))
]

-- Behind a stream that lists `xs`, of fewer than `2 ^ 64` elements, with more fuel than elements and a
-- `count` below `2 ^ 64`: `filter` and `count` of a predicate keep and count the elements that fit;
-- `take_while` lists those in front of the first that does not fit and `skip_while` the others; `take`
-- lists the first `count` and `skip` the others; `map` lists the images; and `peek` lists the same
-- elements, where at each moment the callback has been called with the elements given so far, in order.
pub stages-Lists {ℓ κ κ'} :
    {S : Type ℓ} {A : Type κ} {B : Type κ'} (process : S → Outcome (Pull S A)) (pred : A → Bool)
    (f : A → B) (count fuel : ℕ) (s : S) (xs : List A)
    → count < 2 ^ 64
    → length xs < 2 ^ 64
    → length xs < fuel
    → Lists process s xs
    → Lists (filter_process process pred fuel) s (keep pred xs)
      × (count_if process pred fuel s ≡ ok (length (keep pred xs)))
      × Lists (take_while_process process pred) s (take_while pred xs)
      × Lists
          (skip_while_process process pred fuel)
          (record { successor = s; should_skip = true })
          (drop_while pred xs)
      × Lists (take_process process count) (counted s) (take count xs)
      × Lists (skip_process process count) (counted s) (drop count xs)
      × Lists (map_process process f) s (map f xs)
      × ListsWith
          (peek_process process)
          (λ given t. t.seen ≡ given)
          []
          (record { successor = s; seen = [] })
          xs
unfolding count_if
stages-Lists process pred f count fuel s xs c b h l =
    let kept = Lists-filter process pred fuel s xs h l in
    (
      kept,
      count-Lists (filter_process process pred fuel) fuel s (keep pred xs)
          (omega (arith, length-keep pred xs)) kept,
      Lists-take_while process pred s xs l,
      Lists-skip_while process pred fuel s xs h l,
      Lists-take process count c s xs l,
      Lists-skip process count s xs b l,
      Lists-map process f s xs l,
      Lists-peek process (record { successor = s; seen = [] }) xs l,
    )

-- Behind two streams that list `xs` and `ys`, `concat` lists `xs ++ ys`; behind a stream that lists
-- `xs`, with more fuel than elements, `flatmap` lists the elements of the containers that the function
-- makes of each element, in order.
pub joins-Lists {ℓ ℓ' κ κ'} :
    {S : Type ℓ} {T : Type ℓ'} {A : Type κ} {B : Type κ'} (process : S → Outcome (Pull S A))
    (process_next : T → Outcome (Pull T A)) (f : A → List B) (fuel : ℕ) (s : S) (t : T)
    (xs ys : List A)
    → length xs < fuel
    → Lists process s xs
    → Lists process_next t ys
    → Lists (concat_process process process_next) (both s t) (xs ++ ys)
      × Lists (flatmap_process process f fuel) (make_flatmap s) (flat_map f xs)
joins-Lists process process_next f fuel s t xs ys h l k =
    (Lists-concat process process_next s t xs ys l k, Lists-flatmap process f fuel s xs h l)

module _ {ℓ κ} {S : Type ℓ} {A : Type κ} (process : S → Outcome (Pull S A)) where
  filter-Beginning :
      (pred : A → Bool) (fuel n : ℕ) (s : S) (xs : List A)
      → length xs < n
      → n ≤ fuel
      → Starts process s xs
      → Beginning
          (filter_process process pred fuel)
          (filter_process process pred n s)
          (keep pred xs)
  unfolding filter_process
  filter-Beginning pred fuel zero s xs h g l = absurd (omega arith)
  filter-Beginning pred fuel (suc n) s [] h g l = tt
  filter-Beginning pred fuel (suc n) s (x ∷ xs) h g (t, e, l) = elim (Bool-cases (pred x)) [
    | inl p ↦
        let more = filter-Beginning pred fuel fuel t xs (omega arith) (omega arith) l in
        rw (e, p)
          (t, refl, Starts-Beginning (filter_process process pred fuel) t (keep pred xs) more)
    | inr p ↦ rw (e, p) (filter-Beginning pred fuel n t xs (omega arith) (omega arith) l)
  ]

  map-Starts {κ'} :
      {B : Type κ'} (f : A → B) (s : S) (xs : List A)
      → Starts process s xs
      → Starts (map_process process f) s (map f xs)
  unfolding map_process
  map-Starts f s [] l = tt
  map-Starts f s (x ∷ xs) (t, e, l) = (t, rw e refl, map-Starts f t xs l)

length-map {ℓ κ} :
    {A : Type ℓ} {B : Type κ} (f : A → B) (xs : List A) → length (map f xs) ≡ length xs
length-map f [] = refl
length-map f (x ∷ xs) = ap suc (length-map f xs)

-- An endless stream ends behind `take`: if more than `count` of the numbers that a counter starts
-- with, within its width, fit the predicate, then the first `count` of the images of those that fit
-- are collected behind `filter`, `map` and `take`.
pub counter-take {κ} :
    {B : Type κ} (pred : ℕ → Bool) (f : ℕ → B) (w from incr n count fuel : ℕ)
    → from + n * incr < 2 ^ w
    → count < length (keep pred (progression from incr (suc n)))
    → count < 2 ^ 64
    → suc n < fuel
    → count < fuel
    → collect
        (take_process (map_process (filter_process (counter_process w incr) pred fuel) f) count)
        fuel
        (counted (make_counter from))
      ≡ ok (take count (map f (keep pred (progression from incr (suc n)))))
counter-take pred f w from incr n count fuel b h c g k =
    let xs = progression from incr (suc n) in
    let counts = counter-progression w from incr n b in
    let process = counter_process w incr in
    let kept =
      Starts-Beginning (filter_process process pred fuel) (make_counter from) (keep pred xs) (
        filter-Beginning process pred fuel fuel (make_counter from) xs
          (omega (arith, length-progression from incr (suc n))) (omega arith) counts) in
    let mapped =
      map-Starts (filter_process process pred fuel) f (make_counter from) (keep pred xs) kept in
    collect-Lists _ fuel (counted (make_counter from)) (take count (map f (keep pred xs)))
      (omega (arith, length-take count (map f (keep pred xs))))
      (Starts-take _ count c (make_counter from) (map f (keep pred xs))
        (omega (arith, length-map f (keep pred xs))) mapped)
