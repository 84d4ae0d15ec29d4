-- ===== src/Utils/Stream/Sources.antt =====
-- The processors that a stream starts with: the elements of a container, a range and a counter of
-- numbers. The numbers are unsigned, of a width of `w` bits.
--
-- A call that moves the iterator behind the end of its container is undefined behaviour.
use oos.Prelude.{
  ℕ, ◌+◌, ◌%◌, ◌^◌, Bool, true, false, not, ◌&&◌, List, [], ◌∷◌, ltb, leb, if◌then◌else◌,
}
use oos.Prelude.Outcome.{Outcome, ok, undefined, ◌>>=◌}
use oos.Utils.Stream.Processor.{Pull, yields, ends}

-- `container_element_processor` and `iterator_element_processor`: `rest` is the range from `value_`
-- to `end_`.
pub record ContainerState {ℓ} (A : Type ℓ) : Type ℓ where
  pub first : Bool
  pub rest : List A

abbrev pub make_from {ℓ} : {A : Type ℓ} → List A → ContainerState A
make_from xs = record { first = true; rest = xs }

-- `value_ != end_`, and the value.
abbrev pub current {ℓ} : {A : Type ℓ} → List A → Pull (ContainerState A) A
current [] = ends (record { first = false; rest = [] })
current (x ∷ xs) = yields x (record { first = false; rest = x ∷ xs })

-- `++value_`
abbrev pub increment {ℓ} : {A : Type ℓ} → List A → Outcome (List A)
increment [] = undefined
increment (x ∷ xs) = ok xs

unfoldable pub container_process {ℓ} :
    {A : Type ℓ} → ContainerState A → Outcome (Pull (ContainerState A) A)
container_process s =
    if s.first then ok (current s.rest) else (increment s.rest >>= λ rest. ok (current rest))

-- `range_element_processor`
pub record RangeState : Type 0 where
  pub first : Bool
  pub to : ℕ
  pub current : ℕ

abbrev pub make_range : ℕ → ℕ → RangeState
make_range from to = record { first = true; to = to; current = from }

unfoldable pub range_process : ℕ → ℕ → RangeState → Outcome (Pull RangeState ℕ)
range_process w incr s =
    let current = (s.current + incr) % 2 ^ w in
    let next = record s { current = current } in
    if s.first && ltb s.current s.to
    then ok (yields s.current (record s { first = false }))
    else if not s.first
    then (if leb current s.to then ok (yields current next) else ok (ends next))
    else ok (ends s)

-- `counter_element_processor`
pub record CounterState : Type 0 where
  pub first : Bool
  pub current : ℕ

abbrev pub make_counter : ℕ → CounterState
make_counter from = record { first = true; current = from }

unfoldable pub counter_process : ℕ → ℕ → CounterState → Outcome (Pull CounterState ℕ)
counter_process w incr s =
    if s.first
    then ok (yields s.current (record s { first = false }))
    else let current = (s.current + incr) % 2 ^ w in
      ok (yields current (record s { current = current }))
