-- ===== src/Utils/Stream/Tests.antt =====
-- The streams at concrete inputs, some of them those of test/utils/StreamsTest.cpp.
use oos.Prelude.{
  AllOf, ℕ, suc, ◌+◌, ◌-◌, ◌*◌, ◌%◌, ◌<◌, ◌≡◌, refl, Bool, true, false, some, List, [], ◌∷◌, ◌++◌,
  arith, ◌==◌, length, get_elem?,
}
use oos.Prelude.Outcome.{ok, undefined}
use oos.Utils.Stream.Processor.{ListsWith, Lists}
use oos.Utils.Stream.Sources.{
  make_from, container_process, make_range, range_process, make_counter, counter_process,
}
use oos.Utils.Stream.Stages.{
  counted, make_flatmap, make_pack_every, both, filter_process, peek_process, take_process,
  take_while_process, skip_process, skip_while_process, map_process, every_process, every_loop,
  pack_every_process, pack_loop, flatmap_process, concat_process,
}
use oos.Utils.Stream.Terminals.{
  collect, reduce_from, loop, begin, increment, count, count_if, first, last, at, any, all, none_of,
  join,
}
use oos.Utils.Stream.Numbers.{Lists-container, range-progression}
use oos.Utils.Stream.Reads.{reads-Lists}
use oos.Utils.Stream.Packs.{pack_every-parts}
use oos.Utils.Stream.Pipelines.{stages-Lists, joins-Lists, counter-take}
use oos.Utils.Stream.Spec.{flat_map}

abbrev even : ℕ → Bool
even n = n % 2 == 0

abbrev few : List ℕ
few = 4 ∷ 7 ∷ 2 ∷ []

range_and_every :
    collect (every_process (range_process 32 1) 3) 20 (counted (make_range 1 12))
    ≡ ok (3 ∷ 6 ∷ 9 ∷ 12 ∷ [])
unfolding collect reduce_from begin loop increment every_process every_loop range_process
range_and_every = refl

packs_of_three :
    collect (pack_every_process (range_process 32 1) 3) 20 (make_pack_every 3 (make_range 1 7))
    ≡ ok ((1 ∷ 2 ∷ 3 ∷ []) ∷ (4 ∷ 5 ∷ 6 ∷ []) ∷ [])
unfolding collect reduce_from begin loop increment pack_every_process pack_loop range_process
packs_of_three = refl

-- A range from a number to itself is empty, though the upper end belongs to every longer range.
range_of_one : collect (range_process 32 1) 20 (make_range 5 5) ≡ ok []
unfolding collect reduce_from begin loop increment range_process
range_of_one = refl

range_of_two : collect (range_process 32 1) 20 (make_range 5 6) ≡ ok (5 ∷ 6 ∷ [])
unfolding collect reduce_from begin loop increment range_process
range_of_two = refl

-- The behaviour of `join` on a stream without elements is undefined.
join_nothing : join container_process 5 (44 ∷ []) [] [] (make_from []) ≡ undefined
unfolding join begin container_process
join_nothing = refl

join_some :
    join container_process 5
      (44 ∷ [])
      (60 ∷ [])
      (62 ∷ [])
      (make_from ((65 ∷ []) ∷ (66 ∷ 67 ∷ []) ∷ []))
    ≡ ok (60 ∷ 65 ∷ 44 ∷ 66 ∷ 67 ∷ 62 ∷ [])
unfolding join begin increment loop container_process
join_some = refl

reads-Lists_example :
    (collect container_process 4 (make_from few) ≡ ok few)
    × (count container_process 4 (make_from few) ≡ ok 3)
    × (first container_process (make_from few) ≡ ok (some 4))
    × (last container_process 4 (make_from few) ≡ ok (some 2))
    × (at container_process 1 (make_from few) ≡ ok (some 7))
    × (any container_process even 4 (make_from few) ≡ ok true)
    × (all container_process even 4 (make_from few) ≡ ok false)
    × (none_of container_process even 4 (make_from few) ≡ ok false)
reads-Lists_example =
    reads-Lists container_process even 1 4 (make_from few) few (omega arith) (omega arith)
      (Lists-container few)

stages-Lists_example :
    Lists (filter_process container_process even 4) (make_from few) (4 ∷ 2 ∷ [])
    × (count_if container_process even 4 (make_from few) ≡ ok 2)
    × Lists (take_while_process container_process even) (make_from few) (4 ∷ [])
    × Lists
        (skip_while_process container_process even 4)
        (record { successor = make_from few; should_skip = true })
        (7 ∷ 2 ∷ [])
    × Lists (take_process container_process 2) (counted (make_from few)) (4 ∷ 7 ∷ [])
    × Lists (skip_process container_process 2) (counted (make_from few)) (2 ∷ [])
    × Lists (map_process container_process suc) (make_from few) (5 ∷ 8 ∷ 3 ∷ [])
    × ListsWith
        (peek_process container_process)
        (λ given t. t.seen ≡ given)
        []
        (record { successor = make_from few; seen = [] })
        few
stages-Lists_example =
    stages-Lists container_process even suc 2 4 (make_from few) few (omega arith) (omega arith)
      (omega arith) (Lists-container few)

joins-Lists_example :
    Lists
      (concat_process container_process container_process)
      (both (make_from few) (make_from (1 ∷ [])))
      (4 ∷ 7 ∷ 2 ∷ 1 ∷ [])
    × Lists
        (flatmap_process container_process (λ n. n ∷ n ∷ []) 4)
        (make_flatmap (make_from few))
        (4 ∷ 4 ∷ 7 ∷ 7 ∷ 2 ∷ 2 ∷ [])
joins-Lists_example =
    joins-Lists container_process container_process (λ n. n ∷ n ∷ []) 4 (make_from few)
      (make_from (1 ∷ [])) few (1 ∷ []) (omega arith) (Lists-container few)
      (Lists-container (1 ∷ []))

counter-take_example :
    collect
      (take_process (map_process (filter_process (counter_process 32 1) even 20) suc) 3)
      20
      (counted (make_counter 6))
    ≡ ok (7 ∷ 9 ∷ 11 ∷ [])
counter-take_example =
    counter-take even suc 32 6 1 8 3 20 (omega arith) (omega arith) (omega arith) (omega arith)
      (omega arith)

range-progression_example : Lists (range_process 8 2) (make_range 3 8) (3 ∷ 5 ∷ 7 ∷ [])
range-progression_example = range-progression 8 3 8 2 (omega arith) (omega arith)

pack_every-parts_example :
    ((ps : List (List ℕ)) × (rest : List ℕ) × Lists
        (pack_every_process container_process 2)
        (make_pack_every 2 (make_from few))
        ps
      × (flat_map (λ p. p) ps ++ rest ≡ few)
      × AllOf (λ p. length p ≡ 2) ps
      × (length rest < 2))
    × ((ys : List ℕ) × Lists (every_process container_process 2) (counted (make_from few)) ys
        × ((i : ℕ) → get_elem? ys i ≡ get_elem? few (2 - 1 + i * 2)))
pack_every-parts_example =
    pack_every-parts container_process 2 (make_from few) few (omega arith) (omega arith)
      (omega arith) (Lists-container few)
