-- ===== src/Json/Scalar.antt =====
-- include/matador/json/generic_json_parser.hpp with src/json/generic_json_parser.cpp: the strings,
-- numbers and words of the parser. A text is what is left of a C string, so that `[]` is its end.
-- `errno`, which `is_error` reads and nothing resets, is part of the library that the parser calls:
-- whether it is `ERANGE` when the parse begins. Within a parse it changes where the parse ends with an
-- exception; that `strtod` also sets it for a result too near to 0 to be exact is left out.
pub mod Ending
pub mod Reads
use oos.Prelude.{
  ℕ, zero, suc, ◌+◌, ◌-◌, ◌*◌, ◌^◌, Bool, true, false, ◌&&◌, ◌||◌, List, [], ◌∷◌, ◌++◌, Option,
  none, some, ◌==◌, leb, ltb, if◌then◌else◌,
}
use oos.Prelude.Bytes.{Bytes, codes}
use oos.Prelude.Int.{ℤ, pos, negsuc}
use oos.Prelude.Outcome.{Outcome, ok, thrown, undefined, ◌>>=◌}

-- The calls of the callbacks
pub data Event : Type 0 where
  on_begin_object on_end_object on_begin_array on_end_array on_null : Event
  on_object_key on_string : Bytes → Event
  on_integer : ℤ → Event
  on_real : ℕ → Event
  on_bool : Bool → Event

-- `isspace` of the C locale
abbrev pub is_space : ℕ → Bool
is_space c = c == 32 || leb 9 c && leb c 13

-- `skip_ws` of src/utils/string.cpp
unfoldable pub skip_ws : Bytes → Bytes
skip_ws [] = []
skip_ws (c ∷ cs) = let rest = skip_ws cs in if is_space c then rest else c ∷ cs

-- The character behind a backslash, and what it stands for.
unfoldable pub control : ℕ → Option ℕ
control c =
    if c == b'"' || c == b'\\' || c == b'/'
    then some c
    else if c == b'b'
    then some 8
    else if c == b'f'
    then some 12
    else if c == b'n'
    then some 10
    else if c == b'r'
    then some 13
    else if c == b't'
    then some 9
    else none

abbrev pub isxdigit : ℕ → Bool
isxdigit c = leb b'0' c && leb c b'9' || leb b'A' c && leb c b'F' || leb b'a' c && leb c b'f'

-- Where the loop of `parse_json_string` stands: between two characters, behind a backslash, or in
-- front of the last digits of a `\u`.
pub data Mode : Type 0 where
  plain escape : Mode
  hex : ℕ → Mode

abbrev pub after_digit : ℕ → Mode
after_digit zero = plain
after_digit (suc n) = hex n

-- The loop of `parse_json_string`. It ends at the end of the text too.
unfoldable pub string_loop : Mode → Bytes → Bytes → Outcome (Bytes × Bytes)
unfolding control
string_loop plain value [] = ok (value, [])
string_loop escape value [] = thrown
string_loop (hex n) value [] = thrown
string_loop plain value (c ∷ cs) =
    let escaped = string_loop escape value cs in
    let more = string_loop plain (value ++ c ∷ []) cs in
    if c == b'"' then ok (value, cs) else if c == b'\\' then escaped else more
string_loop escape value (c ∷ cs) =
    let unicode = string_loop (hex 3) (value ++ b'\\' ∷ b'u' ∷ []) cs in
    elim (control c) [
      | some x ↦ string_loop plain (value ++ x ∷ []) cs
      | none ↦ if c == b'u' then unicode else thrown
    ]
string_loop (hex n) value (c ∷ cs) =
    let more = string_loop (after_digit n) (value ++ c ∷ []) cs in
    if isxdigit c then more else thrown

-- `parse_json_string`. The end of the text passes the test for the quotes.
unfoldable pub parse_json_string : Bytes → Outcome (Bytes × Bytes)
unfolding skip_ws string_loop
parse_json_string s = elim (skip_ws s) [
  | [] ↦ undefined
  | c ∷ cs ↦ if c == b'"' then string_loop plain [] cs else thrown
]

abbrev pub is_digit : ℕ → Bool
is_digit c = leb b'0' c && leb c b'9'

-- The number of the digits in front, behind the number `n`, and the rest.
unfoldable pub digit_loop : ℕ → Bytes → ℕ × Bytes
digit_loop n [] = (n, [])
digit_loop n (c ∷ cs) =
    let rest = digit_loop (10 * n + (c - b'0')) cs in if is_digit c then rest else (n, c ∷ cs)

abbrev pub starts_digit : Bytes → Bool
starts_digit [] = false
starts_digit (c ∷ cs) = is_digit c

-- `strtoll(s, &end, 10)` of a text that begins with no space and no `+`, with `is_error` of
-- its own error: none where nothing is converted or the number is out of range.
unfoldable pub strtoll : Bytes → Option (ℤ × Bytes)
unfolding digit_loop
strtoll [] = none
strtoll (c ∷ cs) =
    if c == b'-'
    then (let (n, rest) = digit_loop 0 cs in
        if starts_digit cs && leb n (2 ^ 63)
        then some (elim n [ zero ↦ pos 0 | suc k ↦ negsuc k ], rest)
        else none)
    else (let (n, rest) = digit_loop 0 (c ∷ cs) in
        if is_digit c && ltb n (2 ^ 63) then some (pos n, rest) else none)

-- The `switch` on the character behind a number
unfoldable pub ends_number : Bytes → Bool
ends_number [] = true
ends_number (c ∷ cs) = c == 10 || c == b' ' || c == b',' || c == b']' || c == b'}'

abbrev pub starts_with : ℕ → Bytes → Bool
starts_with c [] = false
starts_with c (d ∷ s) = d == c

-- The characters that follow the first one of `null`, `true` or `false`
unfoldable pub compare_string : Bytes → Bytes → Outcome Bytes
compare_string [] s = ok s
compare_string (x ∷ xs) [] = thrown
compare_string (x ∷ xs) (c ∷ s) = let rest = compare_string xs s in if c == x then rest else thrown

abbrev pub Parsed : Type 0
Parsed = Outcome (List Event × Bytes)

-- A value of one call
abbrev pub single : Event → Bytes → Parsed
single e rest = ok (e ∷ [], rest)

unfoldable pub parse_json_bool : Bytes → Parsed
unfolding compare_string
parse_json_bool [] = thrown
parse_json_bool (c ∷ cs) =
    if c == b't'
    then compare_string (codes "rue") cs >>= (λ s. single (on_bool true) s)
    else if c == b'f'
    then compare_string (codes "alse") cs >>= (λ s. single (on_bool false) s)
    else thrown

unfoldable pub parse_json_null : Bytes → Parsed
unfolding compare_string
parse_json_null [] = thrown
parse_json_null (c ∷ cs) = compare_string (codes "ull") cs >>= (λ s. single on_null s)

-- A colon, behind a key
unfoldable pub parse_colon : Bytes → Outcome Bytes
unfolding skip_ws
parse_colon s = elim (skip_ws s) [ [] ↦ thrown | c ∷ cs ↦ if c == b':' then ok cs else thrown ]

-- The closing bracket, behind the last element
unfoldable pub parse_close : ℕ → Event → Bytes → Parsed
unfolding skip_ws
parse_close bracket e s = elim (skip_ws s) [
  | [] ↦ thrown
  | c ∷ cs ↦ if c == bracket then single e cs else thrown
]

-- What the parser reads of the C library: whether `errno` is `ERANGE` from a conversion before, and
-- `strtod` with `is_error` of its result, the number with the rest of the text.
pub record CLibrary : Type 0 where
  pub range_error : Bool
  pub strtod : Bytes → Option (ℕ × Bytes)

-- `is_error` of an integer that is converted and in range: 0 and the bounds of the type are refused
-- where `errno` is `ERANGE` from before.
unfoldable pub is_error : Bool → ℤ → Bool
is_error false n = false
is_error true (pos n) = n == 0 || n == 2 ^ 63 - 1
is_error true (negsuc n) = n == 2 ^ 63 - 1

module _ (lib : CLibrary) where
  -- `parse_json_number` and `on_parse_number`
  unfoldable pub parse_json_number : Bytes → Parsed
  unfolding strtoll ends_number is_error
  parse_json_number s = elim (strtoll s) [
    | none ↦ thrown
    | some (n, rest) ↦
        if is_error lib.range_error n
        then thrown
        else if starts_with b'.' rest
        then (elim (lib.strtod s) [
          | none ↦ thrown
          | some (x, left) ↦ if ends_number left then single (on_real x) left else thrown
        ])
        else if ends_number rest
        then single (on_integer n) rest
        else thrown
  ]

  -- The values that are not nested; `s` begins with the character `c` of the `switch`.
  unfoldable pub parse_scalar : ℕ → Bytes → Parsed
  unfolding parse_json_string parse_json_number parse_json_bool parse_json_null
  parse_scalar c s =
      if c == b'"'
      then parse_json_string s >>= (λ (value, rest). single (on_string value) rest)
      else if c == b'-' || is_digit c || c == b'.'
      then parse_json_number s
      else if c == b't' || c == b'f'
      then parse_json_bool s
      else if c == b'n'
      then parse_json_null s
      else thrown
