-- ===== src/Json/Access.antt =====
-- src/json/json.cpp: access to a value, and equality. `none` is the exception that a member throws;
-- a reference into a value is the value that it refers to, and a member that changes a value returns
-- it. `==` of two `double`s is an argument of `equal_json`.
pub mod Erase
pub mod Equal
pub mod AtPath
use oos.Prelude.{
  ℕ, zero, suc, Bool, true, false, ◌&&◌, List, [], ◌∷◌, Option, none, some, ◌==◌, ◌+◌,
  if◌then◌else◌,
}
use oos.Prelude.Bytes.{Bytes, equal}
use oos.Prelude.Int.{ℤ, pos, negsuc}
use oos.Prelude.Fallible.{◌>>=◌}
use oos.Utils.Strings.{split}
use oos.Json.Value.{
  Json, Items, Fields, null, integer, real, boolean, string, object, array, no_items, item,
  no_fields, field, lookup, assign, erase_field, last_item,
}

abbrev pub is_some {ℓ} : {A : Type ℓ} → Option A → Bool
is_some none = false
is_some (some x) = true

unfoldable pub contains : Bytes → Json → Bool
unfolding lookup
contains key (object fs) = is_some (lookup key fs)
contains key v = false

-- `erase` of a key
unfoldable pub erase_key : Bytes → Json → Json
unfolding erase_field
erase_key key (object fs) = object (erase_field key fs)
erase_key key v = v

unfoldable pub get_item : ℕ → Items → Option Json
get_item i no_items = none
get_item zero (item v xs) = some v
get_item (suc i) (item v xs) = get_item i xs

unfoldable pub erase_item : ℕ → Items → Option Items
erase_item i no_items = none
erase_item zero (item v xs) = some xs
erase_item (suc i) (item v xs) = erase_item i xs >>= λ rest. some (item v rest)

-- `erase` of an index
unfoldable pub erase_index : ℕ → Json → Option Json
unfolding erase_item
erase_index i (array xs) = erase_item i xs >>= λ rest. some (array rest)
erase_index i v = some v

-- `operator[]` of an index, and of a key of a constant value
unfoldable pub at_index : ℕ → Json → Option Json
unfolding get_item
at_index i (array xs) = get_item i xs
at_index i v = some v

unfoldable pub at_key : Bytes → Json → Json
unfolding lookup
at_key key (object fs) = elim (lookup key fs) [ none ↦ object fs | some v ↦ v ]
at_key key v = v

-- `operator[]` of a key makes an object of any other value, and adds a null for a key that is not there.
unfoldable pub with_key : Bytes → Json → Json
unfolding lookup assign
with_key key (object fs) = elim (lookup key fs) [
  | none ↦ object (assign key null fs)
  | some v ↦ object fs
]
with_key key v = object (field key null no_fields)

unfoldable pub get : Bytes → Json → Option Json
unfolding lookup
get key (object fs) = lookup key fs
get key v = none

-- `func` over the parts that are left
unfoldable pub follow : List Bytes → Json → Option Json
unfolding get
follow [] v = some v
follow (part ∷ parts) v = get part v >>= λ w. follow parts w

unfoldable pub at_path : Bytes → ℕ → Json → Option Json
unfolding split follow
at_path path delimiter v = follow (split delimiter path) v

unfoldable pub count_items : Items → ℕ
count_items no_items = 0
count_items (item v xs) = suc (count_items xs)

unfoldable pub count_fields : Fields → ℕ
count_fields no_fields = 0
count_fields (field k v fs) = suc (count_fields fs)

unfoldable pub size : Json → ℕ
unfolding count_items count_fields
size (array xs) = count_items xs
size (object fs) = count_fields fs
size null = 0
size _ = 1

unfoldable pub empty : Json → Bool
empty (array no_items) = true
empty (object no_fields) = true
empty null = true
empty _ = false

abbrev pub equal_ℤ : ℤ → ℤ → Bool
equal_ℤ (pos m) (pos n) = m == n
equal_ℤ (negsuc m) (negsuc n) = m == n
equal_ℤ _ _ = false

abbrev pub equal_Bool : Bool → Bool → Bool
equal_Bool true b = b
equal_Bool false true = false
equal_Bool false false = true

module _ (equal_real : ℕ → ℕ → Bool) where
  unfoldable mutual
    pub equal_json : Json → Json → Bool
    equal_json null null = true
    equal_json (integer m) (integer n) = equal_ℤ m n
    equal_json (real x) (real y) = equal_real x y
    equal_json (boolean a) (boolean b) = equal_Bool a b
    equal_json (string s) (string t) = equal s t
    equal_json (object fs) (object gs) = equal_fields fs gs
    equal_json (array xs) (array ys) = equal_items xs ys
    equal_json _ _ = false

    pub equal_items : Items → Items → Bool
    equal_items no_items no_items = true
    equal_items (item v xs) (item w ys) = equal_json v w && equal_items xs ys
    equal_items _ _ = false

    pub equal_fields : Fields → Fields → Bool
    equal_fields no_fields no_fields = true
    equal_fields (field k v fs) (field j w gs) = equal k j && equal_json v w && equal_fields fs gs
    equal_fields _ _ = false
