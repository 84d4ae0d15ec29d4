-- ===== src/Http/Routing.antt =====
-- src/http/routing_engine.cpp and src/http/route_endpoint.cpp: the table of routes.
--
-- The regular expressions of the standard library are parameters: `route_part`, the match of a part of
-- a path against `route_regex`, with its groups, and `regex_match`, with the groups 1, 2 and so on of
-- a text that matches. That `std::regex` may refuse the expression of a route is left out. A handler of
-- a request is a value of any type.
pub mod Unique
pub mod Match
pub mod Tests
use oos.Prelude.{
  ℕ, suc, Bool, true, false, ◌&&◌, ◌==◌, Option, none, some, List, [], ◌∷◌, ◌++◌, if◌then◌else◌,
}
use oos.Prelude.Bytes.{Bytes, codes, equal}
use oos.Prelude.Fallible.{◌>>=◌}
use oos.Http.Types.{Method, unknown, get, post, put, del, options, head, Request, insert_param}
use oos.Utils.Strings.{split}

-- The groups of `route_regex` that the code reads: `what[1]`, `what[2]`, `what[4]` and `what[5]`.
pub record Groups : Type 0 where
  pub static_files : Option Bytes
  pub name : Option Bytes
  pub regex : Option Bytes
  pub plain : Option Bytes

pub record RouteEndpoint (Handler : Type 0) : Type 0 where
  pub path_spec : Bytes
  pub path_regex : Bytes
  pub method : Method
  pub request_handler : Handler
  pub param_index_map : List (ℕ × Bytes)

-- The numbers of the enumeration, which `==` of two methods compares.
abbrev pub method_number : Method → ℕ
method_number unknown = 0
method_number get = 1
method_number post = 2
method_number put = 3
method_number del = 4
method_number options = 5
method_number head = 6

abbrev pub same_method : Method → Method → Bool
same_method a b = method_number a == method_number b

-- `sub_match::str`
abbrev pub str : Option Bytes → Bytes
str none = []
str (some text) = text

-- `prepare_route_path_elements`
unfoldable pub prepare_route_path_elements : Bytes → List Bytes
prepare_route_path_elements path = elim (split 47 path) [
  | [] ↦ []
  | [] ∷ others ↦ others
  | (c ∷ cs) ∷ others ↦ (c ∷ cs) ∷ others
]

module _ (route_part : Bytes → Option Groups) where
  -- The loop over the parts, with the regular expression, `index` and the map so far. An exception is
  -- `none`.
  unfoldable pub route_loop :
      List Bytes → Bytes → ℕ → List (ℕ × Bytes) → Option (Bytes × List (ℕ × Bytes))
  route_loop [] result index params = some (result, params)
  route_loop ([] ∷ parts) result index params = route_loop parts result index params
  route_loop ((c ∷ cs) ∷ parts) result index params =
      let slash = result ++ (92 ∷ 47 ∷ []) in
      let named = λ (text name : Bytes).
        route_loop parts (slash ++ text) (suc index) (params ++ ((suc index, name) ∷ [])) in
      route_part (c ∷ cs) >>= λ what. elim what.static_files [
        | some _ ↦ route_loop parts (slash ++ codes "([^?]*)") index params
        | none ↦ elim what.plain [
          | some text ↦ route_loop parts (slash ++ text) index params
          | none ↦ elim what.regex [
            | some text ↦ named (codes "(" ++ text ++ codes ")") (str what.name)
            | none ↦ elim what.name [
              | some name ↦ named (40 ∷ 92 ∷ 119 ∷ 43 ∷ 41 ∷ []) name
              | none ↦ none
            ]
          ]
        ]
      ]

  unfoldable pub create_route_endpoint :
      {Handler : Type 0} → Bytes → Method → Handler → Option (RouteEndpoint Handler)
  create_route_endpoint path method handler =
      if equal path (47 ∷ [])
      then some (record {
        path_spec = path;
        path_regex = 92 ∷ 47 ∷ [];
        method = method;
        request_handler = handler;
        param_index_map = [];
      })
      else (route_loop (prepare_route_path_elements path) [] 0 [] >>= λ r. some (record {
        path_spec = path;
        path_regex = r.0;
        method = method;
        request_handler = handler;
        param_index_map = r.1;
      }))

module _ {Handler : Type 0} where
  unfoldable pub has_key : Bytes → Method → RouteEndpoint Handler → Bool
  has_key path method ep = same_method ep.method method && equal ep.path_spec path

  -- `find_internal`, with the endpoint for the iterator, and `none` for the end.
  unfoldable pub find :
      Bytes → Method → List (RouteEndpoint Handler) → Option (RouteEndpoint Handler)
  find path method [] = none
  find path method (ep ∷ routes) =
      if has_key path method ep then some ep else find path method routes

  -- `routing_engine::add`
  unfoldable pub add :
      (Bytes → Option Groups)
      → Bytes
      → Method
      → Handler
      → List (RouteEndpoint Handler)
      → Option (List (RouteEndpoint Handler))
  add route_part path method handler routes = elim (find path method routes) [
    | some ep ↦ some routes
    | none ↦
        create_route_endpoint route_part path method handler >>= λ ep. some (routes ++ (ep ∷ []))
  ]

abbrev pub look_up : ℕ → List (ℕ × Bytes) → Option Bytes
look_up i [] = none
look_up i ((j, name) ∷ m) = if j == i then some name else look_up i m

-- The loop over the groups from the number `i` on.
unfoldable pub insert_groups : ℕ → List Bytes → List (ℕ × Bytes) → Request → Request
insert_groups i [] m req = req
insert_groups i (text ∷ what) m req = elim (look_up i m) [
  | none ↦ insert_groups (suc i) what m req
  | some name ↦
      insert_groups (suc i) what m
        (record req { path_params = insert_param name text req.path_params })
]

module _ {Handler : Type 0} (regex_match : Bytes → Bytes → Option (List Bytes)) where
  -- `route_endpoint::match`: the request with its parameters, or `none` for `false`, which leaves it.
  unfoldable pub endpoint_match : RouteEndpoint Handler → Request → Option Request
  endpoint_match ep req =
      if same_method ep.method req.method
      then (regex_match ep.path_regex req.url >>= λ what.
          some (insert_groups 1 what ep.param_index_map req))
      else none

  -- `routing_engine::match`
  unfoldable pub match_route :
      List (RouteEndpoint Handler) → Request → Option (RouteEndpoint Handler × Request)
  match_route [] req = none
  match_route (ep ∷ routes) req = elim (endpoint_match ep req) [
    | some r ↦ some (ep, r)
    | none ↦ match_route routes req
  ]
