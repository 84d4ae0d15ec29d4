-- ===== src/Utils/Hex.antt =====
-- `strtol(s, &err, 16)` of the C library, as src/utils/url.cpp and src/http/request_parser.cpp call
-- it: on two characters, with a cast of the result to a `char`.
use oos.Prelude.{
  ℕ, ◌+◌, ◌-◌, ◌*◌, ◌%◌, Bool, ◌&&◌, ◌||◌, Option, none, some, ◌==◌, leb, if◌then◌else◌,
}

abbrev between : ℕ → ℕ → ℕ → Bool
between lo hi c = leb lo c && leb c hi

-- The value of a hexadecimal digit.
unfoldable pub hex_digit : ℕ → Option ℕ
hex_digit c =
    if between b'0' b'9' c
    then some (c - b'0')
    else if between b'A' b'F' c
    then some (c - b'A' + 10)
    else if between b'a' b'f' c
    then some (c - b'a' + 10)
    else none

abbrev get_or_zero : Option ℕ → ℕ
get_or_zero none = 0
get_or_zero (some x) = x

-- The number that the digits at the front are, behind a space or a sign; 0 where there are none.
unfoldable pub strtol_pair : ℕ → ℕ → ℕ
unfolding hex_digit
strtol_pair c d = elim (hex_digit c) [
  | some x ↦ elim (hex_digit d) [ none ↦ x | some y ↦ 16 * x + y ]
  | none ↦
      if c == b' ' || between 9 13 c || c == b'+'
      then get_or_zero (hex_digit d)
      else if c == b'-'
      then (256 - get_or_zero (hex_digit d)) % 256
      else 0
]
