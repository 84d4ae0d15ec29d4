-- ===== src/Http/Chars.antt =====
-- The character tests of src/http/request_parser.cpp: `isupper`, `isdigit`, `isalnum` and `ispunct`
-- of the C locale, which are false of bytes from 128 on, `strchr` in the two tables of the class,
-- and the conversions that it takes from the C library. A message holds no 0 byte where they are
-- called.
use oos.Prelude.{
  ℕ, ◌+◌, ◌-◌, ◌*◌, ◌%◌, ◌^◌, Bool, true, false, not, ◌&&◌, ◌||◌, [], ◌∷◌, Option, none, some, ◌==◌,
  leb, ltb, if◌then◌else◌,
}
use oos.Prelude.Bytes.{Bytes, codes}

abbrev between : ℕ → ℕ → ℕ → Bool
between lo hi c = leb lo c && leb c hi

unfoldable pub is_upper : ℕ → Bool
is_upper c = between b'A' b'Z' c

unfoldable pub is_lower : ℕ → Bool
is_lower c = between b'a' b'z' c

unfoldable pub is_digit : ℕ → Bool
is_digit c = between b'0' b'9' c

unfoldable pub is_alnum : ℕ → Bool
unfolding is_upper is_lower is_digit
is_alnum c = is_upper c || is_lower c || is_digit c

-- A printable character that is neither a space nor alphanumeric.
unfoldable pub is_punct : ℕ → Bool
unfolding is_alnum
is_punct c = between 33 126 c && not (is_alnum c)

-- `strchr(table, c) != nullptr` for a character that is not 0
unfoldable pub member : ℕ → Bytes → Bool
member c [] = false
member c (d ∷ ds) = if c == d then true else member c ds

abbrev pub url_special_char : Bytes
url_special_char = codes "-._~:/?#[]@!$&'()*+,;="

abbrev pub hex_char : Bytes
hex_char = codes "ABCDEF0123456789"

unfoldable pub is_url_char : ℕ → Bool
unfolding is_alnum member
is_url_char c = if is_alnum c then true else member c url_special_char

unfoldable pub is_hex_char : ℕ → Bool
unfolding is_alnum member
is_hex_char c = if is_alnum c then true else member c hex_char

unfoldable pub to_lower : ℕ → ℕ
unfolding is_upper
to_lower c = if is_upper c then c + 32 else c

-- `strcasecmp(a, b) == 0`
unfoldable pub equal_ignoring_case : Bytes → Bytes → Bool
unfolding to_lower
equal_ignoring_case [] [] = true
equal_ignoring_case (x ∷ xs) (y ∷ ys) =
    if to_lower x == to_lower y then equal_ignoring_case xs ys else false
equal_ignoring_case _ _ = false

-- The digits in front of a text, as a number with `acc` in front of them.
unfoldable pub decimal : ℕ → Bytes → ℕ
unfolding is_digit
decimal acc [] = acc
decimal acc (c ∷ cs) =
    let rest = decimal (10 * acc + (c - b'0')) cs in if is_digit c then rest else acc

-- `std::stoul` of a text with no space in front: an optional sign and digits; a negative number is
-- taken modulo 2^64. `none` is `invalid_argument`, where there is no digit, or `out_of_range`.
unfoldable pub stoul_digits : Bytes → Option ℕ
unfolding decimal
stoul_digits [] = none
stoul_digits (c ∷ cs) =
    if is_digit c
    then (let n = decimal 0 (c ∷ cs) in if ltb n (2 ^ 64) then some n else none)
    else none

unfoldable pub stoul : Bytes → Option ℕ
unfolding stoul_digits
stoul [] = none
stoul (c ∷ cs) =
    if c == b'+'
    then stoul_digits cs
    else if c == b'-'
    then (elim (stoul_digits cs) [ none ↦ none | some n ↦ some ((2 ^ 64 - n) % 2 ^ 64) ])
    else stoul_digits (c ∷ cs)
