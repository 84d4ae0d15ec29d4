-- ===== src/Http/Types.antt =====
-- include/matador/http/http.hpp and src/http/http.cpp (the methods), and the state of
-- include/matador/http/request.hpp. An `unordered_map` of parameters is a list of pairs, whose
-- `insert` keeps an entry that is there.
use oos.Prelude.{ℕ, List, [], ◌∷◌, if◌then◌else◌}
use oos.Prelude.Bytes.{Bytes, codes, equal}

-- `http::method_t`
pub data Method : Type 0 where
  unknown get post put del options head : Method

-- `http::to_string(method_t)`, by `method_string_map_`
unfoldable pub to_string : Method → Bytes
to_string get = codes "GET"
to_string post = codes "POST"
to_string put = codes "PUT"
to_string del = codes "DELETE"
to_string options = codes "OPTIONS"
to_string head = codes "HEAD"
to_string unknown = codes "UNKNOWN"

-- `http::to_method`, by `string_method_map_`
unfoldable pub to_method : Bytes → Method
to_method s =
    if equal s (codes "GET")
    then get
    else if equal s (codes "POST")
    then post
    else if equal s (codes "PUT")
    then put
    else if equal s (codes "DELETE")
    then del
    else if equal s (codes "OPTIONS")
    then options
    else if equal s (codes "HEAD")
    then head
    else unknown

abbrev pub ParamMap : Type 0
ParamMap = List (Bytes × Bytes)

-- `unordered_map::insert`
unfoldable pub insert_param : Bytes → Bytes → ParamMap → ParamMap
insert_param k v [] = (k, v) ∷ []
insert_param k v ((j, w) ∷ m) = if equal j k then (j, w) ∷ m else (j, w) ∷ insert_param k v m

-- `http::version`
pub record Version : Type 0 where
  pub major : ℕ
  pub minor : ℕ

-- `http::content`
pub record Content : Type 0 where
  pub length : Bytes
  pub type : Bytes
  pub md5 : Bytes
  pub language : Bytes

-- `request`
pub record Request : Type 0 where
  pub method : Method
  pub url : Bytes
  pub fragment : Bytes
  pub version : Version
  pub host : Bytes
  pub content : Content
  pub headers : ParamMap
  pub path_params : ParamMap
  pub query_params : ParamMap
  pub form_data : ParamMap
  pub body : Bytes

-- `request()`, with the initializers of the members
abbrev pub request : Request
request = record {
  method = unknown;
  url = [];
  fragment = [];
  version = record { major = 0; minor = 0 };
  host = [];
  content = record { length = codes "0"; type = []; md5 = []; language = [] };
  headers = [];
  path_params = [];
  query_params = [];
  form_data = [];
  body = [];
}
