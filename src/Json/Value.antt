-- ===== src/Json/Value.antt =====
-- include/matador/json/json.hpp: a JSON value. `std::vector<json>` is `Items`, and
-- `std::map<std::string, json>` is `Fields`, in the order of the map. A `double` is the number of its
-- 64 bits.
use oos.Prelude.{ℕ, Bool, true, false, Option, none, some, ◌∷◌, [], ◌==◌, ltb, if◌then◌else◌}
use oos.Prelude.Bytes.{Bytes, equal}
use oos.Prelude.Int.{ℤ}

mutual
  pub data Json : Type 0 where
    null : Json
    integer : ℤ → Json
    real : ℕ → Json
    boolean : Bool → Json
    string : Bytes → Json
    object : Fields → Json
    array : Items → Json

  pub data Items : Type 0 where
    no_items : Items
    item : Json → Items → Items

  pub data Fields : Type 0 where
    no_fields : Fields
    field : Bytes → Json → Fields → Fields

-- `operator<` of two strings
unfoldable pub less : Bytes → Bytes → Bool
less [] [] = false
less [] (y ∷ ys) = true
less (x ∷ xs) [] = false
less (x ∷ xs) (y ∷ ys) =
    let rest = less xs ys in if ltb x y then true else if x == y then rest else false

-- `map::find`
unfoldable pub lookup : Bytes → Fields → Option Json
lookup k no_fields = none
lookup k (field j v fs) = if equal k j then some v else lookup k fs

-- `insert` of a key followed by the assignment of its value
unfoldable pub assign : Bytes → Json → Fields → Fields
unfolding less
assign k v no_fields = field k v no_fields
assign k v (field j w fs) =
    let rest = assign k v fs in
    if equal k j
    then field j v fs
    else if less k j
    then field k v (field j w fs)
    else field j w rest

-- `map::erase` of a key
unfoldable pub erase_field : Bytes → Fields → Fields
erase_field k no_fields = no_fields
erase_field k (field j v fs) =
    let rest = erase_field k fs in if equal k j then fs else field j v rest

-- `vector::push_back`
unfoldable pub push_item : Json → Items → Items
push_item v no_items = item v no_items
push_item v (item w xs) = item w (push_item v xs)

-- `vector::back`; `none` is undefined behaviour.
unfoldable pub last_item : Items → Option Json
last_item no_items = none
last_item (item v no_items) = some v
last_item (item v (item w xs)) = last_item (item w xs)

-- The assignment to `back()`.
unfoldable pub set_last : Json → Items → Items
set_last v no_items = no_items
set_last v (item w no_items) = item v no_items
set_last v (item w (item u xs)) = item w (set_last v (item u xs))
