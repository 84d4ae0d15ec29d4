-- ===== src/Utils/Stream/Terminals.antt =====
-- The iterator over a processor, and the operations of `stream` that read a stream to its end or to
-- the element that decides them.
--
-- A loop takes fuel: more than the number of elements of the stream is enough. The dereference of an
-- iterator without a value is undefined behaviour.
use oos.Prelude.{
  ℕ, zero, suc, Bool, true, false, not, Option, none, some, List, [], ◌∷◌, ◌++◌, ltb, if◌then◌else◌,
}
use oos.Prelude.Outcome.{Outcome, ok, undefined, out_of_fuel, ◌>>=◌}
use oos.Utils.Stream.Processor.{Pull, yields, ends}
use oos.Utils.Stream.Stages.{counted, filter_process, skip_process}

pub data ProcessState : Type 0 where
  initial valid finished : ProcessState

-- `stream_element_processor_iterator`, with the processor's state.
pub record Iterator {ℓ κ} (S : Type ℓ) (A : Type κ) : Type (ℓ ⊔ κ) where
  pub processor : S
  pub value : Option A
  pub state : ProcessState

abbrev pub is_finished : ProcessState → Bool
is_finished finished = true
is_finished _ = false

module _ {ℓ κ} {S : Type ℓ} {A : Type κ} where
  -- `*it`
  abbrev pub dereference : Iterator S A → Outcome A
  dereference it = elim it.value [ none ↦ undefined | some a ↦ ok a ]

  -- `it == s.end()`: the end has the state `FINISHED`, and two such iterators are equal.
  abbrev pub at_end : Iterator S A → Bool
  at_end it = is_finished it.state

module _ {ℓ κ} {S : Type ℓ} {A : Type κ} (process : S → Outcome (Pull S A)) where
  unfoldable pub begin : S → Outcome (Iterator S A)
  begin s = process s >>= λ p. elim p [
    | yields a t ↦ ok (record { processor = t; value = some a; state = valid })
    | ends t ↦ ok (record { processor = t; value = none; state = finished })
  ]

  -- `++it`: at the end the value stays.
  unfoldable pub increment : Iterator S A → Outcome (Iterator S A)
  increment it = process it.processor >>= λ p. elim p [
    | yields a t ↦ ok (record { processor = t; value = some a; state = valid })
    | ends t ↦ ok (record it { processor = t; state = finished })
  ]

  -- `while (first != last) { result = accu(result, *first); ++first; }`, also the loop of
  -- `std::for_each` and of `std::distance`.
  unfoldable pub loop {κ'} : {B : Type κ'} → (B → A → B) → ℕ → B → Iterator S A → Outcome B
  loop accu zero result it = out_of_fuel
  loop accu (suc n) result it =
      if at_end it
      then ok result
      else (dereference it >>= λ a. increment it >>= λ next. loop accu n (accu result a) next)

  -- `reduce(identity, accu)`
  unfoldable pub reduce_from {κ'} : {B : Type κ'} → (B → A → B) → ℕ → B → S → Outcome B
  reduce_from accu n identity s = begin s >>= λ it. loop accu n identity it

  -- `reduce(accu)`: its loop reads `*first++`, which is the loop above.
  unfoldable pub reduce : (A → A → A) → ℕ → S → Outcome (Option A)
  reduce accu n s = begin s >>= λ first.
      if at_end first
      then ok none
      else (dereference first >>= λ result.
          increment first >>= λ next. loop accu n result next >>= λ r. ok (some r))

  -- `reduce_idfunc`
  unfoldable pub reduce_idfunc {κ'} :
      {B : Type κ'} → (A → B) → (B → A → B) → ℕ → S → Outcome (Option B)
  reduce_idfunc identity_fun accu n s = begin s >>= λ first.
      if at_end first
      then ok none
      else (dereference first >>= λ a.
          increment first >>= λ next. loop accu n (identity_fun a) next >>= λ r. ok (some r))

  -- `collect` into a vector, and `for_each` with a callback that keeps what it is called with.
  unfoldable pub collect : ℕ → S → Outcome (List A)
  collect n s = reduce_from (λ result a. result ++ (a ∷ [])) n [] s

  unfoldable pub count : ℕ → S → Outcome ℕ
  count n s = reduce_from (λ c a. suc c) n 0 s

  unfoldable pub last : ℕ → S → Outcome (Option A)
  last n s = reduce (λ x next. next) n s

  unfoldable pub first : S → Outcome (Option A)
  first s =
      begin s >>= λ it. if not (at_end it) then (dereference it >>= λ a. ok (some a)) else ok none

  -- `for (const T &val : *this) { if (test(val)) { result = found; break; } }`, where `result` is the
  -- opposite of `found` before.
  unfoldable pub break_loop : (A → Bool) → Bool → ℕ → Iterator S A → Outcome Bool
  break_loop test found zero it = out_of_fuel
  break_loop test found (suc n) it =
      if at_end it
      then ok (not found)
      else (dereference it >>= λ a.
          let rest = increment it >>= λ next. break_loop test found n next in
          if test a then ok found else rest)

  unfoldable pub any : (A → Bool) → ℕ → S → Outcome Bool
  any pred n s = begin s >>= λ it. break_loop pred true n it

  unfoldable pub all : (A → Bool) → ℕ → S → Outcome Bool
  all pred n s = begin s >>= λ it. break_loop (λ a. not (pred a)) false n it

  unfoldable pub none_of : (A → Bool) → ℕ → S → Outcome Bool
  none_of pred n s = begin s >>= λ it. break_loop pred false n it

module _ {ℓ κ} {S : Type ℓ} {A : Type κ} (process : S → Outcome (Pull S A)) where
  -- `count(pred)` is `filter(pred).count()`.
  unfoldable pub count_if : (A → Bool) → ℕ → S → Outcome ℕ
  count_if pred n s = count (filter_process process pred n) n s

  -- `at(index)` is `skip(index).first()`.
  unfoldable pub at : ℕ → S → Outcome (Option A)
  at index s = first (skip_process process index) (counted s)

-- The functions that `min` and `max` reduce with.
abbrev pub smaller : ℕ → ℕ → ℕ
smaller x next = if ltb x next then x else next

abbrev pub larger : ℕ → ℕ → ℕ
larger x next = if ltb next x then x else next

module _ {ℓ} {S : Type ℓ} (process : S → Outcome (Pull S ℕ)) where
  unfoldable pub min : ℕ → S → Outcome (Option ℕ)
  min n s = reduce process smaller n s

  unfoldable pub max : ℕ → S → Outcome (Option ℕ)
  max n s = reduce process larger n s

-- `join(delimiter, prefix, suffix)`: it reads the first element without a test.
module _ {ℓ} {S : Type ℓ} (process : S → Outcome (Pull S (List ℕ))) where
  unfoldable pub join : ℕ → List ℕ → List ℕ → List ℕ → S → Outcome (List ℕ)
  join n delimiter prefix suffix s = begin process s >>= λ first. dereference first >>= λ a.
      increment process first >>= λ next.
      loop process (λ result val. (result ++ delimiter) ++ val) n (prefix ++ a) next >>= λ result.
      ok (result ++ suffix)
