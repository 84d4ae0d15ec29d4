-- ===== src/Http/Routing/Tests.antt =====
-- Two routes, and the theorems at them.
use oos.Prelude.{
  ℕ, ◌≡◌, refl, Option, none, some, List, [], ◌∷◌, ◌++◌, if◌then◌else◌, ◌⊎◌, true, AllOf,
}
use oos.Prelude.Bytes.{Bytes, codes, equal}
use oos.Utils.Strings.{split, split_loop}
use oos.Http.Types.{Request, request, get, insert_param}
use oos.Http.Routing.{
  Groups, RouteEndpoint, same_method, prepare_route_path_elements, route_loop,
  create_route_endpoint, has_key, find, add, insert_groups, endpoint_match, match_route,
}
use oos.Http.Routing.Unique.{IsOther, Has, IsUnique, add-IsUnique}
use oos.Http.Routing.Match.{match_route-first}

abbrev parameter : Bytes
parameter = codes "{name}"

abbrev user_path : Bytes
user_path = codes "/u/{name}"

abbrev user_regex : Bytes
user_regex = (92 ∷ 47 ∷ []) ++ codes "u" ++ (92 ∷ 47 ∷ []) ++ (40 ∷ 92 ∷ 119 ∷ 43 ∷ 41 ∷ [])

-- The matches of `route_regex` at the parts of the routes below.
abbrev part : Bytes → Option Groups
part text =
    if equal text parameter
    then some
        (record { static_files = none; name = some (codes "name"); regex = none; plain = none })
    else some (record { static_files = none; name = none; regex = none; plain = some text })

-- The matches of the regular expression of the route of a user at one path.
abbrev regex : Bytes → Bytes → Option (List Bytes)
regex pattern text =
    if equal pattern user_regex
    then (if equal text (codes "/u/bo") then some (codes "bo" ∷ []) else none)
    else none

abbrev root : RouteEndpoint ℕ
root = record {
  path_spec = codes "/";
  path_regex = 92 ∷ 47 ∷ [];
  method = get;
  request_handler = 1;
  param_index_map = [];
}

abbrev user : RouteEndpoint ℕ
user = record {
  path_spec = user_path;
  path_regex = user_regex;
  method = get;
  request_handler = 2;
  param_index_map = (1, codes "name") ∷ [];
}

abbrev asked : Request
asked = record request { method = get; url = codes "/u/bo" }

abbrev matched : Request
matched = record asked { path_params = (codes "name", codes "bo") ∷ [] }

add-user : add part user_path get 2 (root ∷ []) ≡ some (root ∷ user ∷ [])
unfolding add find has_key create_route_endpoint route_loop prepare_route_path_elements split
    split_loop
add-user = refl

root-IsUnique : IsUnique (root ∷ [])
root-IsUnique = (tt, tt)

add-IsUnique_example :
    IsUnique (root ∷ user ∷ [])
    × (ep : RouteEndpoint ℕ) × ((((root ∷ user ∷ []) ≡ root ∷ [])
          × Has user_path get ep (root ∷ []))
        ⊎ (((root ∷ user ∷ []) ≡ root ∷ ep ∷ [])
            × AllOf (IsOther user_path get) (root ∷ [])
            × (ep.path_spec ≡ user_path)
            × (ep.method ≡ get)
            × (ep.request_handler ≡ 2)))
    × (add part user_path get 3 (root ∷ user ∷ []) ≡ some (root ∷ user ∷ []))
add-IsUnique_example =
    add-IsUnique part user_path get 2 3 (root ∷ []) (root ∷ user ∷ []) add-user root-IsUnique

match-user : match_route regex (root ∷ user ∷ []) asked ≡ some (user, matched)
unfolding match_route endpoint_match insert_groups insert_param
match-user = refl

match_route-first_example :
    (before : List (RouteEndpoint ℕ)) × (after : List (RouteEndpoint ℕ)) × ((root ∷ user ∷ [])
      ≡ before ++ (user ∷ after))
    × AllOf (λ e. endpoint_match regex e asked ≡ none) before
    × (endpoint_match regex user asked ≡ some matched)
    × (same_method user.method asked.method ≡ true)
    × (matched ≡ record asked { path_params = matched.path_params })
match_route-first_example = match_route-first regex (root ∷ user ∷ []) user asked matched match-user
