-- ===== src/Utils/Base64.antt =====
-- src/utils/base64.cpp and include/matador/utils/base64.hpp. A byte is a number below 256, and a
-- shift or a mask of one is a quotient or a remainder. `none` is a read outside of the table.
mod RoundTrip
mod Tests
use oos.Prelude.{
  ℕ, ◌+◌, ◌-◌, ◌*◌, ◌/◌, ◌%◌, Bool, true, false, List, [], ◌∷◌, ◌++◌, map, Option, none, some,
  get_elem?, get_or, take, ◌==◌, ltb, if◌then◌else◌,
}
use oos.Prelude.Bytes.{Bytes, codes}
use oos.Prelude.Fallible.{◌>>=◌}

-- `base64_type`
pub data Base64Type : Type 0 where
  base64 base64_url : Base64Type

abbrev pub code_base : Base64Type → Bytes
code_base base64 = codes "ABCDEFGHIJKLMNOPQRSTUVWXYZabcdefghijklmnopqrstuvwxyz0123456789+/"
code_base base64_url = codes "ABCDEFGHIJKLMNOPQRSTUVWXYZabcdefghijklmnopqrstuvwxyz0123456789-_"

abbrev pub char_map2 : List ℕ
char_map2 =
    62 ∷ 0 ∷ 62 ∷ 0 ∷ 64 ∷ 52 ∷ 53 ∷ 54 ∷ 55 ∷ 56 ∷ 57 ∷ 58 ∷ 59 ∷ 60 ∷ 61 ∷ 0 ∷ 0 ∷ 0 ∷ 0 ∷ 0 ∷ 0
    ∷ 0 ∷ 0 ∷ 1 ∷ 2 ∷ 3 ∷ 4 ∷ 5 ∷ 6 ∷ 7 ∷ 8 ∷ 9 ∷ 10 ∷ 11 ∷ 12 ∷ 13 ∷ 14 ∷ 15 ∷ 16 ∷ 17 ∷ 18 ∷ 19
    ∷ 20 ∷ 21 ∷ 22 ∷ 23 ∷ 24 ∷ 25 ∷ 0 ∷ 0 ∷ 0 ∷ 0 ∷ 63 ∷ 0 ∷ 26 ∷ 27 ∷ 28 ∷ 29 ∷ 30 ∷ 31 ∷ 32 ∷ 33
    ∷ 34 ∷ 35 ∷ 36 ∷ 37 ∷ 38 ∷ 39 ∷ 40 ∷ 41 ∷ 42 ∷ 43 ∷ 44 ∷ 45 ∷ 46 ∷ 47 ∷ 48 ∷ 49 ∷ 50 ∷ 51 ∷ []

-- `codebase[o]`, for o below 64
unfoldable pub code : Base64Type → ℕ → ℕ
code type o = get_or (code_base type) o 0

-- `encode_pack` of three bytes
unfoldable pub encode_pack : ℕ → ℕ → ℕ → ℕ → Base64Type → Bytes
unfolding code
encode_pack a b c range_max type = take range_max (
    code type (a / 4)
    ∷ code type (a % 4 * 16 + b / 16)
    ∷ code type (b % 16 * 4 + c / 64)
    ∷ code type (c % 64)
    ∷ [])

abbrev pub fill_char : Base64Type → ℕ
fill_char base64 = b'='
fill_char base64_url = b'.'

-- `encode`, three bytes at a time
unfoldable pub encode : Base64Type → Bytes → Bytes
unfolding encode_pack
encode type [] = []
encode type (a ∷ []) = encode_pack a 0 0 2 type ++ fill_char type ∷ fill_char type ∷ []
encode type (a ∷ b ∷ []) = encode_pack a b 0 3 type ++ fill_char type ∷ []
encode type (a ∷ b ∷ c ∷ str) = encode_pack a b c 4 type ++ encode type str

-- `char_map2[c - char_offset]`
unfoldable pub char_value : ℕ → Option ℕ
char_value c = if ltb c 43 then none else get_elem? char_map2 (c - 43)

-- The loop behind `out`: a 0 byte is left out.
unfoldable pub keep : Bytes → Bytes
keep [] = []
keep (o ∷ out) = if o == 0 then keep out else o ∷ keep out

-- The three bytes of four values
unfoldable pub join : ℕ → ℕ → ℕ → ℕ → Bytes
join w x y z =
    (w * 4 + x / 16 % 4) % 256 ∷ (x % 16 * 16 + y / 4 % 16) % 256 ∷ (y % 4 * 64 + z) % 256 ∷ []

unfoldable pub decode_pack : ℕ → ℕ → ℕ → ℕ → Option Bytes
unfolding char_value keep join
decode_pack a b c d = char_value a >>= λ w.
    char_value b >>= λ x. char_value c >>= λ y. char_value d >>= λ z. some (keep (join w x y z))

-- `decode`, four characters at a time; what is left over is dropped.
unfoldable pub decode : Bytes → Option Bytes
unfolding decode_pack
decode (a ∷ b ∷ c ∷ d ∷ str) =
    decode_pack a b c d >>= λ bytes. decode str >>= λ rest. some (bytes ++ rest)
decode _ = some []
