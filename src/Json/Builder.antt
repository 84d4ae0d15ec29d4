-- ===== src/Json/Builder.antt =====
-- src/json/json_parser.cpp: the callbacks, which build a value. A pointer on the stack is the path from
-- the root to the value that it points to; while it stands on the stack, nothing is added behind the
-- last element that it goes through. `none` is the exception of `on_value`.
pub mod Paths
pub mod Build
pub mod Values
pub mod RoundTrip
use oos.Prelude.{
  ℕ, zero, suc, Bool, true, false, List, [], ◌∷◌, ◌++◌, Option, none, some, if◌then◌else◌,
}
use oos.Prelude.Bytes.{Bytes}
use oos.Prelude.Fallible.{◌>>=◌}
use oos.Prelude.Outcome.{Outcome, ok, thrown, undefined, out_of_fuel}
use oos.Json.Value.{
  Json, Items, Fields, null, integer, real, boolean, string, object, array, no_items, no_fields,
  lookup, assign, push_item, last_item, set_last,
}
use oos.Json.Scalar.{
  CLibrary, Event, on_begin_object, on_end_object, on_begin_array, on_end_array, on_object_key,
  on_string, on_integer, on_real, on_bool, on_null,
}
use oos.Json.Parser.{parse_json}

-- A step to the member of a key, or to the last element.
pub data Step : Type 0 where
  member : Bytes → Step
  back : Step

-- The value behind a step, and the value with another one there.
unfoldable pub at_step : Step → Json → Option Json
unfolding lookup last_item
at_step (member k) (object fs) = lookup k fs
at_step back (array xs) = last_item xs
at_step _ v = none

unfoldable pub set_step : Step → Json → Json → Json
unfolding assign set_last
set_step (member k) x (object fs) = object (assign k x fs)
set_step back x (array xs) = array (set_last x xs)
set_step _ x v = v

unfoldable pub at : List Step → Json → Option Json
unfolding at_step
at [] v = some v
at (s ∷ p) v = at_step s v >>= λ w. at p w

unfoldable pub set_at : List Step → Json → Json → Json
unfolding at_step set_step
set_at [] x v = x
set_at (s ∷ p) x v = elim (at_step s v) [ none ↦ v | some w ↦ set_step s (set_at p x w) v ]

-- the members of `json_parser`, with `state_stack_` from its top on
pub record Builder : Type 0 where
  pub value : Json
  pub key : Bytes
  pub state_stack : List (List Step)

-- `top[key] = x` of an object, and `top.push_back(x)`, which makes an array of any other value
unfoldable pub add : Bytes → Json → Json → Json
unfolding assign push_item
add k x (object fs) = object (assign k x fs)
add k x (array xs) = array (push_item x xs)
add k x _ = array (push_item x no_items)

-- The step to what was added.
unfoldable pub added : Bytes → Json → Step
added k (object fs) = member k
added k _ = back

-- The value on top of the stack
unfoldable pub top : List Step → Builder → Json
unfolding at
top p b = elim (at p b.value) [ none ↦ null | some c ↦ c ]

-- `on_begin_object` and `on_begin_array`, of an empty value
unfoldable pub on_begin : Json → Builder → Builder
unfolding top add added set_at
on_begin x b = elim (b.state_stack) [
  | [] ↦ record b { value = x; state_stack = [] ∷ [] }
  | p ∷ ps ↦ record b {
    value = set_at p (add b.key x (top p b)) b.value;
    state_stack = (p ++ added b.key (top p b) ∷ []) ∷ p ∷ ps;
  }
]

-- `pop`, of a stack that is not empty
unfoldable pub on_end : Builder → Builder
on_end b = elim (b.state_stack) [ [] ↦ b | p ∷ ps ↦ record b { state_stack = ps } ]

-- A value that holds others
unfoldable pub is_container : Json → Bool
is_container (object fs) = true
is_container (array xs) = true
is_container _ = false

unfoldable pub on_value : Json → Builder → Option Builder
unfolding top add set_at is_container
on_value x b = elim (b.state_stack) [
  | [] ↦ some (record b { value = x })
  | p ∷ ps ↦
      if is_container (top p b)
      then some (record b { value = set_at p (add b.key x (top p b)) b.value })
      else none
]

unfoldable pub on_event : Event → Builder → Option Builder
unfolding on_begin on_end on_value
on_event on_begin_object b = some (on_begin (object no_fields) b)
on_event on_end_object b = some (on_end b)
on_event on_begin_array b = some (on_begin (array no_items) b)
on_event on_end_array b = some (on_end b)
on_event (on_object_key k) b = some (record b { key = k })
on_event (on_string s) b = on_value (string s) b
on_event (on_integer n) b = on_value (integer n) b
on_event (on_real x) b = on_value (real x) b
on_event (on_bool t) b = on_value (boolean t) b
on_event on_null b = on_value null b

unfoldable pub on_events : List Event → Builder → Option Builder
unfolding on_event
on_events [] b = some b
on_events (e ∷ es) b = on_event e b >>= λ later. on_events es later

-- `json_parser()`
abbrev pub json_parser : Builder
json_parser = record { value = null; key = []; state_stack = [] }

-- The part of a `std::string` in front of a 0 byte, as `c_str` gives it to a C function.
unfoldable pub c_str : Bytes → Bytes
c_str [] = []
c_str (zero ∷ cs) = []
c_str (suc c ∷ cs) = suc c ∷ c_str cs

-- What the callbacks make of the calls of a parse.
unfoldable pub build : Builder → Outcome (List Event) → Outcome Json
unfolding on_events
build b (ok es) = elim (on_events es (record b { state_stack = [] })) [
  | none ↦ thrown
  | some later ↦ ok later.value
]
build b thrown = thrown
build b undefined = undefined
build b out_of_fuel = out_of_fuel

-- `json_parser::parse` of a `std::string`, by a parser that may have been used before
unfoldable pub parse : CLibrary → Builder → Bytes → Outcome Json
unfolding parse_json build c_str
parse lib b s = build b (parse_json lib (c_str s))
