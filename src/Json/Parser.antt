-- ===== src/Json/Parser.antt =====
-- include/matador/json/generic_json_parser.hpp with src/json/generic_json_parser.cpp: the parser, as
-- the list of the calls that it makes of its callbacks. The cursor is the text that is left of a C
-- string, so that `[]` is its end; `next_char` at the end leaves the string, which is undefined.
-- Each call and each turn of a loop costs one unit of fuel.
--
-- The C library is an argument: `strtod`, with none where nothing is converted or `is_error` holds of
-- the result, and whether `errno` is `ERANGE` when the parse begins.
pub mod Reads
pub mod Arrays
pub mod Objects
pub mod RoundTrip
pub mod OpenStrings
pub mod Ending
use oos.Prelude.{
  ℕ, zero, suc, ◌+◌, ◌-◌, ◌*◌, ◌^◌, Bool, true, false, ◌&&◌, ◌||◌, List, [], ◌∷◌, ◌++◌, Option,
  none, some, length, ◌==◌, leb, ltb, if◌then◌else◌,
}
use oos.Prelude.Bytes.{Bytes, codes}
use oos.Prelude.Int.{ℤ, pos, negsuc}
use oos.Prelude.Outcome.{Outcome, ok, thrown, undefined, out_of_fuel, ◌>>=◌}
use oos.Json.Scalar.{
  CLibrary, Event, on_begin_object, on_end_object, on_begin_array, on_end_array, on_object_key,
  skip_ws, starts_with, parse_json_string, parse_scalar, parse_colon, parse_close, Parsed,
}

-- Two parts in a row, of which the second reads what the first has left.
abbrev pub then_parse : Parsed → (Bytes → Parsed) → Parsed
then_parse r f = r >>= λ (es, s). f s >>= λ (later, rest). ok (es ++ later, rest)

module _ (lib : CLibrary) where
  -- `on_parse_object` and `on_parse_array` are called behind the opening bracket. Both test for the
  -- end of the text behind the closing bracket, where it is not, so that `check_for_eos` is left out.
  unfoldable mutual
    unfolding parse_scalar parse_close parse_colon parse_json_string skip_ws

    pub parse_json_value : ℕ → Bytes → Parsed
    parse_json_value zero s = out_of_fuel
    parse_json_value (suc f) s = elim (skip_ws s) [
      | [] ↦ thrown
      | c ∷ cs ↦
          let opened = on_parse_object f cs in
          let listed = on_parse_array f cs in
          if c == b'{' then opened else if c == b'[' then listed else parse_scalar lib c (c ∷ cs)
    ]

    pub on_parse_object : ℕ → Bytes → Parsed
    on_parse_object zero s = out_of_fuel
    on_parse_object (suc f) s =
        let members = member_loop f (skip_ws s) in
        if starts_with b'}' (skip_ws s)
        then parse_close b'}' on_end_object s >>= (λ (es, rest). ok (on_begin_object ∷ es, rest))
        else members >>= (λ (es, rest). ok (on_begin_object ∷ es, rest))

    pub on_parse_array : ℕ → Bytes → Parsed
    on_parse_array zero s = out_of_fuel
    on_parse_array (suc f) s =
        let elements = element_loop f (skip_ws s) in
        if starts_with b']' (skip_ws s)
        then parse_close b']' on_end_array s >>= (λ (es, rest). ok (on_begin_array ∷ es, rest))
        else elements >>= (λ (es, rest). ok (on_begin_array ∷ es, rest))

    -- One turn of the loop over the members, and what follows it
    pub member_loop : ℕ → Bytes → Parsed
    member_loop zero s = out_of_fuel
    member_loop (suc f) s = parse_json_string s >>= λ (key, after_key).
        parse_colon after_key >>= λ after_colon.
        then_parse (ok (on_object_key key ∷ [], after_colon)) (λ at_value.
          then_parse (parse_json_value f at_value)
            (λ after_value. more_members f (skip_ws after_value)))

    pub more_members : ℕ → Bytes → Parsed
    more_members zero s = out_of_fuel
    more_members (suc f) [] = thrown
    more_members (suc f) (c ∷ cs) =
        let more = member_loop f cs in
        if c == b',' then more else parse_close b'}' on_end_object (c ∷ cs)

    pub element_loop : ℕ → Bytes → Parsed
    element_loop zero s = out_of_fuel
    element_loop (suc f) s =
        then_parse (parse_json_value f s) (λ after_value. more_elements f (skip_ws after_value))

    pub more_elements : ℕ → Bytes → Parsed
    more_elements zero s = out_of_fuel
    more_elements (suc f) [] = thrown
    more_elements (suc f) (c ∷ cs) =
        let more = element_loop f cs in
        if c == b',' then more else parse_close b']' on_end_array (c ∷ cs)

  -- Nothing but spaces may follow the root.
  unfoldable pub finish : List Event × Bytes → Outcome (List Event)
  unfolding skip_ws
  finish (es, rest) = elim (skip_ws rest) [ [] ↦ ok es | _ ∷ _ ↦ thrown ]

  -- `parse_json` of a C string
  unfoldable pub parse_json : Bytes → Outcome (List Event)
  unfolding parse_json_value finish
  parse_json s = parse_json_value (4 * length s + 4) s >>= (λ r. finish r)
