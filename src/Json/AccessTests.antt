-- ===== src/Json/AccessTests.antt =====
-- Access to values.
use oos.Prelude.{◌≡◌, ◌↔◌, refl, true, [], ◌∷◌, none, some, if◌then◌else◌, ◌==◌, arith}
use oos.Prelude.Bytes.{codes, equal}
use oos.Prelude.Int.{pos}
use oos.Utils.Strings.Split.{join}
use oos.Json.Value.{
  Json, Fields, null, integer, object, array, no_items, item, no_fields, field, less,
}
use oos.Json.Builder.Values.{AreSortedFields}
use oos.Json.Access.{at_path, at_index, erase_index, erase_key, get, with_key, equal_json}
use oos.Json.Access.AtPath.{Leads, at_path_iff}
use oos.Json.Access.Equal.{equal_json_iff}
use oos.Json.Access.Erase.{get-erase_key}

abbrev members : Fields
members = field (codes "a") null (field (codes "b") (integer (pos 1)) no_fields)

abbrev three : Json
three = array (item null (item (integer (pos 1)) (item null no_items)))

erase_middle : erase_index 1 three ≡ some (array (item null (item null no_items)))
unfolding erase_index
erase_middle = refl

index_out_of_bounds : at_index 3 three ≡ none
unfolding at_index
index_out_of_bounds = refl

key_is_added :
    with_key (codes "aa") (object members)
    ≡ object (
        field
          (codes "a")
          null
          (field (codes "aa") null (field (codes "b") (integer (pos 1)) no_fields)))
unfolding with_key
key_is_added = refl

abbrev nested : Json
nested = object (field (codes "a") three (field (codes "c") (object members) no_fields))

at_path_iff_example :
    (at_path (join b'.' (codes "c") (codes "b" ∷ [])) b'.' nested ≡ some (integer (pos 1)))
    ↔ Leads (codes "c" ∷ codes "b" ∷ []) nested (integer (pos 1))
at_path_iff_example =
    at_path_iff b'.' (codes "c") (codes "b" ∷ []) nested (integer (pos 1))
      (((λ e. omega (arith, e)), tt), (((λ e. omega (arith, e)), tt), λ e. cc))

equal_json_iff_example :
    (equal_json (λ x y. x == y) (object members) three ≡ true) ↔ (object members ≡ three)
equal_json_iff_example = equal_json_iff (λ x y. x == y) (object members) three (omega arith)

members-AreSortedFields : AreSortedFields members
unfolding less
members-AreSortedFields = ((refl, tt), tt, (tt, tt, tt))

get-erase_key_example :
    get (codes "b") (erase_key (codes "a") (object members))
    ≡ (if equal (codes "b") (codes "a") then none else get (codes "b") (object members))
get-erase_key_example = get-erase_key (codes "b") (codes "a") members members-AreSortedFields
