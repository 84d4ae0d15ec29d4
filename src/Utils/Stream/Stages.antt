-- ===== src/Utils/Stream/Stages.antt =====
-- The processors that stand behind another one, their `successor_`, whose `process` is the parameter
-- `process` here. A state holds the successor's state and the counters of the class; the predicate
-- and the number that a stage is made with are arguments.
--
-- The loops that stop at the latest after a known number of turns count them down; those of `filter`,
-- `skip_while` and `flatmap` run as long as the successor gives elements that do not fit, so they take
-- fuel.
use oos.Prelude.{
  ℕ, zero, suc, ◌%◌, ◌^◌, Bool, true, false, not, ◌&&◌, Option, none, some, List, [], ◌∷◌, ◌++◌,
  ltb, leb, ◌==◌, if◌then◌else◌,
}
use oos.Prelude.Outcome.{Outcome, ok, undefined, out_of_fuel, ◌>>=◌}
use oos.Utils.Stream.Processor.{Pull, yields, ends}
use oos.Utils.Stream.Sources.{ContainerState, make_from, container_process}

-- A successor with the counter `current_count_` of `take`, `skip` and `every`, a `std::size_t`.
pub record Counted {ℓ} (S : Type ℓ) : Type ℓ where
  pub successor : S
  pub current_count : ℕ

-- `current_count_++`
abbrev pub count_next {ℓ} : {S : Type ℓ} → Counted S → S → Counted S
count_next s t = record { successor = t; current_count = suc s.current_count % 2 ^ 64 }

abbrev pub counted {ℓ} : {S : Type ℓ} → S → Counted S
counted s = record { successor = s; current_count = 0 }

pub record SkipWhile {ℓ} (S : Type ℓ) : Type ℓ where
  pub successor : S
  pub should_skip : Bool

-- The values that the callback of `peek` has been called with, in order.
pub record Peeked {ℓ κ} (S : Type ℓ) (A : Type κ) : Type (ℓ ⊔ κ) where
  pub successor : S
  pub seen : List A

-- `value_` holds the elements of the current pack, `[]` for no vector before the first call.
pub record Packing {ℓ κ} (S : Type ℓ) (A : Type κ) : Type (ℓ ⊔ κ) where
  pub successor : S
  pub current_packsize : ℕ
  pub value : List A

abbrev pub make_pack_every {ℓ κ} : {S : Type ℓ} {A : Type κ} → ℕ → S → Packing S A
make_pack_every packsize s = record { successor = s; current_packsize = packsize; value = [] }

module _ {ℓ κ} {S : Type ℓ} {A : Type κ} (process : S → Outcome (Pull S A)) where
  -- `filter_element_processor::process_impl`
  unfoldable pub filter_process : (A → Bool) → ℕ → S → Outcome (Pull S A)
  filter_process pred zero s = out_of_fuel
  filter_process pred (suc n) s = process s >>= λ p. elim p [
    | yields a t ↦ let rest = filter_process pred n t in if pred a then ok (yields a t) else rest
    | ends t ↦ ok (ends t)
  ]

  unfoldable pub peek_process : Peeked S A → Outcome (Pull (Peeked S A) A)
  peek_process s = process s.successor >>= λ p. elim p [
    | yields a t ↦ ok (yields a (record { successor = t; seen = s.seen ++ a ∷ [] }))
    | ends t ↦ ok (ends (record s { successor = t }))
  ]

  -- At most `n` turns, and with `every_process` at most `every` of them.
  unfoldable pub every_loop : ℕ → ℕ → Counted S → Outcome (Pull (Counted S) A)
  every_loop every zero s = out_of_fuel
  every_loop every (suc n) s = process s.successor >>= λ p. elim p [
    | yields a t ↦
        let next = count_next s t in
        let rest = every_loop every n next in
        if every == 0
        then undefined
        else if next.current_count % every == 0
        then ok (yields a next)
        else rest
    | ends t ↦ ok (ends (record s { successor = t }))
  ]

  unfoldable pub every_process : ℕ → Counted S → Outcome (Pull (Counted S) A)
  every_process every = every_loop every (suc every)

  unfoldable pub take_process : ℕ → Counted S → Outcome (Pull (Counted S) A)
  take_process count s = process s.successor >>= λ p. elim p [
    | yields a t ↦
        let next = count_next s t in
        if ltb s.current_count count then ok (yields a next) else ok (ends next)
    | ends t ↦ ok (ends (record s { successor = t }))
  ]

  unfoldable pub take_while_process : (A → Bool) → S → Outcome (Pull S A)
  take_while_process pred s = process s >>= λ p. elim p [
    | yields a t ↦ if not (pred a) then ok (ends t) else ok (yields a t)
    | ends t ↦ ok (ends t)
  ]

  -- At most `n` turns, and with `skip_process` at most one more than `count`.
  unfoldable pub skip_loop : ℕ → ℕ → Counted S → Outcome (Pull (Counted S) A)
  skip_loop count zero s = out_of_fuel
  skip_loop count (suc n) s = process s.successor >>= λ p. elim p [
    | yields a t ↦
        let next = count_next s t in
        let rest = skip_loop count n next in
        if ltb s.current_count count then rest else ok (yields a next)
    | ends t ↦ ok (ends (record s { successor = t }))
  ]

  unfoldable pub skip_process : ℕ → Counted S → Outcome (Pull (Counted S) A)
  skip_process count = skip_loop count (suc count)

  unfoldable pub skip_while_process : (A → Bool) → ℕ → SkipWhile S → Outcome (Pull (SkipWhile S) A)
  skip_while_process pred zero s = out_of_fuel
  skip_while_process pred (suc n) s = process s.successor >>= λ p. elim p [
    | yields a t ↦
        let rest = skip_while_process pred n (record s { successor = t }) in
        if s.should_skip && pred a
        then rest
        else ok (yields a (record { successor = t; should_skip = false }))
    | ends t ↦ ok (ends (record s { successor = t }))
  ]

  unfoldable pub map_process {κ'} : {B : Type κ'} → (A → B) → S → Outcome (Pull S B)
  map_process pred s =
      process s >>= λ p. elim p [ yields a t ↦ ok (yields (pred a) t) | ends t ↦ ok (ends t) ]

  -- The loop of `pack_every`: at most `n` tests of its condition.
  unfoldable pub pack_loop : ℕ → ℕ → Packing S A → Outcome (Pull (Packing S A) (List A))
  pack_loop packsize zero s = out_of_fuel
  pack_loop packsize (suc n) s =
      let full = record s { current_packsize = suc s.current_packsize % 2 ^ 64 } in
      if ltb s.current_packsize packsize
      then (process s.successor >>= λ p. elim p [
        | yields a t ↦
            pack_loop packsize n (record full { successor = t; value = s.value ++ (a ∷ []) })
        | ends t ↦ ok (ends (record full { successor = t }))
      ])
      else ok (yields s.value full)

  unfoldable pub pack_every_process : ℕ → Packing S A → Outcome (Pull (Packing S A) (List A))
  pack_every_process packsize s =
      pack_loop packsize (suc packsize) (
        if leb packsize s.current_packsize
        then record s { current_packsize = 0; value = [] }
        else s)

-- `flatmap`: `inner` is the state of `current_stream_`, the stream of the container that the function
-- made of the last element, and `none` for the default stream, which has no processor.
pub record Flat {ℓ κ} (S : Type ℓ) (B : Type κ) : Type (ℓ ⊔ κ) where
  pub successor : S
  pub first : Bool
  pub inner : Option (ContainerState B)

abbrev pub make_flatmap {ℓ κ} : {S : Type ℓ} {B : Type κ} → S → Flat S B
make_flatmap s = record { successor = s; first = true; inner = none }

-- `current_stream_.processor()->process()`, of a null pointer undefined behaviour.
abbrev pub inner_process {ℓ} :
    {B : Type ℓ} → Option (ContainerState B) → Outcome (Pull (ContainerState B) B)
inner_process none = undefined
inner_process (some c) = container_process c

module _ {ℓ κ κ'} {S : Type ℓ} {A : Type κ} {B : Type κ'} (process : S → Outcome (Pull S A)) where
  unfoldable pub flatmap_loop :
      (A → List B) → ℕ → S → Option (ContainerState B) → Outcome (Pull (Flat S B) B)
  flatmap_loop pred zero s inner = out_of_fuel
  flatmap_loop pred (suc n) s inner = process s >>= λ p. elim p [
    | yields a t ↦ container_process (make_from (pred a)) >>= λ q. elim q [
      | yields b next ↦ ok (yields b (record { successor = t; first = false; inner = some next }))
      | ends next ↦ flatmap_loop pred n t (some next)
    ]
    | ends t ↦ ok (ends (record { successor = t; first = false; inner = inner }))
  ]

  -- `flatmap_element_processor::process_impl`
  unfoldable pub flatmap_process : (A → List B) → ℕ → Flat S B → Outcome (Pull (Flat S B) B)
  flatmap_process pred n s =
      if s.first
      then flatmap_loop pred n s.successor s.inner
      else inner_process s.inner >>= λ q. elim q [
        | yields b next ↦ ok (yields b (record s { inner = some next }))
        | ends next ↦ flatmap_loop pred n s.successor (some next)
      ]

-- `concat`: the processors that are left of the two, each of which may be of a class of its own.
pub data Chain {ℓ κ} (S : Type ℓ) (T : Type κ) : Type (ℓ ⊔ κ) where
  both : S → T → Chain S T
  second : T → Chain S T
  empty : Chain S T

module _ {ℓ ℓ' κ} {S : Type ℓ} {T : Type ℓ'} {A : Type κ} (process : S → Outcome (Pull S A))
    (process_next : T → Outcome (Pull T A)) where
  -- The turns of the loop with one processor left.
  unfoldable pub second_process : T → Outcome (Pull (Chain S T) A)
  second_process t = process_next t >>= λ p. elim p [
    | yields a u ↦ ok (yields a (second u))
    | ends u ↦ ok (ends empty)
  ]

  unfoldable pub concat_process : Chain S T → Outcome (Pull (Chain S T) A)
  concat_process empty = ok (ends empty)
  concat_process (second t) = second_process t
  concat_process (both s t) = process s >>= λ p. elim p [
    | yields a u ↦ ok (yields a (both u t))
    | ends u ↦ second_process t
  ]
