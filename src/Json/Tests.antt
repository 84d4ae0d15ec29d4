-- ===== src/Json/Tests.antt =====
-- Texts and values.
use oos.Prelude.{true, false, ℕ, ◌+◌, ◌*◌, ◌≡◌, ◌≢◌, refl, [], ◌∷◌, Option, none, some, arith}
use oos.Prelude.Bytes.{Bytes, codes}
use oos.Prelude.Int.{pos, negsuc}
use oos.Prelude.Outcome.{ok, thrown, undefined, out_of_fuel}
use oos.Json.Scalar.Ending.{Consumes}
use oos.Json.Builder.Values.{IsSorted}
use oos.Json.Value.{
  less, Json, null, integer, string, object, array, no_items, item, no_fields, field,
}
use oos.Json.Print.{str}
use oos.Json.Scalar.{CLibrary, on_string}
use oos.Json.Parser.{parse_json}
use oos.Json.Parser.Ending.{parse_json-ne-out_of_fuel}
use oos.Json.Parser.OpenStrings.{parse_json-open}
use oos.Json.Builder.{json_parser, parse}
use oos.Json.Builder.RoundTrip.{parse-str}

-- No text is a `double`, for tests without reals.
abbrev no_double : CLibrary
no_double = record { range_error = false; strtod = λ s. none }

-- A `double` is read from a digit, a point and a digit, as its tenths.
abbrev read_tenths : Bytes → Option (ℕ × Bytes)
read_tenths (a ∷ p ∷ b ∷ rest) = some (10 * a + b, rest)
read_tenths _ = none

abbrev tenths : CLibrary
tenths = record { range_error = false; strtod = read_tenths }

-- What a number out of range leaves.
abbrev after_error : CLibrary
after_error = record { range_error = true; strtod = λ s. none }

tenths-Consumes : Consumes tenths
tenths-Consumes [] x rest e = cc
tenths-Consumes (a ∷ []) x rest e = cc
tenths-Consumes (a ∷ p ∷ []) x rest e = cc
tenths-Consumes (a ∷ p ∷ b ∷ t) x rest e = ground arith

abbrev no_text : ℕ → Bytes
no_text x = []

-- {"a": null, "b": [1, -20, {}]}
abbrev sample : Json
sample = object (
    field (codes "a") null (
      field (codes "b")
        (array
          (item (integer (pos 1)) (item (integer (negsuc 19)) (item (object no_fields) no_items))))
        no_fields))

sample-IsSorted : IsSorted sample
unfolding less
sample-IsSorted = ((refl, tt), tt, (tt, (tt, (tt, (tt, tt))), tt))

-- The members of an object may come in any order.
parse_any_order :
    parse no_double json_parser (codes "{\"b\": [1, -20, {}], \"a\": null}") ≡ ok sample
unfolding parse
parse_any_order = refl

str_in_order : str no_text sample ≡ codes "{\"a\": null, \"b\": [1, -20, {}]}"
unfolding str
str_in_order = refl

parse_escapes :
    parse no_double json_parser (codes "[\"a\\n\\u00e4\"]")
    ≡ ok (array (item (string (b'a' ∷ 10 ∷ codes "\\u00e4")) no_items))
unfolding parse
parse_escapes = refl

-- A closing bracket is missing.
parse_open_array : parse no_double json_parser (codes "[1, 2") ≡ thrown
unfolding parse
parse_open_array = refl

-- The key of a member is read behind the end of the text.
parse_open_object : parse no_double json_parser (codes "{\"a\": 1,") ≡ undefined
unfolding parse
parse_open_object = refl

-- Behind a number out of range, 0 is refused and 1 is not.
parse_stale :
    (parse after_error json_parser (codes "[0]") ≡ thrown)
    × (parse after_error json_parser (codes "[1]") ≡ ok (array (item (integer (pos 1)) no_items)))
unfolding parse
parse_stale = (refl, refl)

parse_trailing : parse no_double json_parser (codes "[] 1") ≡ thrown
unfolding parse
parse_trailing = refl

-- A tab behind a number is not accepted.
parse_tab : parse no_double json_parser (b'[' ∷ b'1' ∷ 9 ∷ b']' ∷ []) ≡ thrown
unfolding parse
parse_tab = refl

-- A quote in a string is not escaped.
str_quote : str no_text (string (codes "\"")) ≡ codes "\"\"\""
unfolding str
str_quote = refl

parse_json-ne-out_of_fuel_example : parse_json tenths (codes "[1.5,{\"a\":") ≢ out_of_fuel
parse_json-ne-out_of_fuel_example =
    parse_json-ne-out_of_fuel tenths tenths-Consumes (codes "[1.5,{\"a\":")

parse-str_example : parse no_double json_parser (str no_text sample) ≡ ok sample
parse-str_example =
    parse-str no_text no_double refl sample json_parser (omega arith) sample-IsSorted

parse_json-open_example : parse_json no_double (codes "\"ab") ≡ ok (on_string (codes "ab") ∷ [])
parse_json-open_example = parse_json-open no_double (codes "ab") (omega arith)
