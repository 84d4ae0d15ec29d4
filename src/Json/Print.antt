-- ===== src/Json/Print.antt =====
-- src/json/json.cpp and include/matador/json/json_utils.hpp: `str` in the compact format, with the
-- two `join`s of an array and an object, which print their elements by `to_string`. A string is
-- printed as it is. `std::to_string` of a `double` is an argument.
use oos.Prelude.{ℕ, zero, suc, ◌+◌, ◌/◌, ◌%◌, [], ◌∷◌, ◌++◌, ltb, if◌then◌else◌}
use oos.Prelude.Bytes.{Bytes, codes}
use oos.Prelude.Int.{ℤ, pos, negsuc}
use oos.Json.Value.{
  Json, Items, Fields, null, integer, real, boolean, string, object, array, no_items, item,
  no_fields, field,
}

-- The decimal digits of a number, on fuel that is more than it has digits.
unfoldable pub digits : ℕ → ℕ → Bytes
digits zero n = []
digits (suc fuel) n =
    let rest = digits fuel (n / 10) in
    if ltb n 10 then (b'0' + n) ∷ [] else rest ++ (b'0' + n % 10) ∷ []

-- `std::to_string(long long)`
unfoldable pub integer_text : ℤ → Bytes
unfolding digits
integer_text (pos n) = digits (suc n) n
integer_text (negsuc n) = b'-' ∷ digits (suc (suc n)) (suc n)

module _ (real_text : ℕ → Bytes) where
  unfoldable mutual
    unfolding integer_text

    pub str : Json → Bytes
    str null = codes "null"
    str (integer n) = integer_text n
    str (real x) = real_text x
    str (boolean b) = if b then codes "true" else codes "false"
    str (string s) = b'"' ∷ (s ++ b'"' ∷ [])
    str (object fs) = b'{' ∷ (join_fields fs ++ b'}' ∷ [])
    str (array xs) = b'[' ∷ (join_items xs ++ b']' ∷ [])

    pub join_items : Items → Bytes
    join_items no_items = []
    join_items (item v no_items) = str v
    join_items (item v (item w xs)) = str v ++ codes ", " ++ join_items (item w xs)

    pub join_fields : Fields → Bytes
    join_fields no_fields = []
    join_fields (field k v no_fields) = (b'"' ∷ (k ++ codes "\": ")) ++ str v
    join_fields (field k v (field j w fs)) =
        (b'"' ∷ (k ++ codes "\": ")) ++ str v ++ codes ", " ++ join_fields (field j w fs)
