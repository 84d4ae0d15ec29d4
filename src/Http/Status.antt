-- ===== src/Http/Status.antt =====
-- include/matador/http/http.hpp and src/http/http.cpp: the status of a response, and its texts.
use oos.Prelude.{List, [], ◌∷◌, Option, none, some, if◌then◌else◌}
use oos.Prelude.Bytes.{Bytes, codes, equal}

-- `http::status_t`
pub data Status : Type 0 where
  ok : Status
  created : Status
  accepted : Status
  no_content : Status
  multiple_choices : Status
  moved_permanently : Status
  moved_temporarily : Status
  not_modified : Status
  bad_request : Status
  unauthorized : Status
  forbidden : Status
  not_found : Status
  internal_server_error : Status
  not_implemented : Status
  bad_gateway : Status
  service_unavailable : Status

-- `string_status_map_`
abbrev pub string_status_map : List (Bytes × Status)
string_status_map =
    (codes "200", ok)
    ∷ (codes "201", created)
    ∷ (codes "202", accepted)
    ∷ (codes "204", no_content)
    ∷ (codes "300", multiple_choices)
    ∷ (codes "301", moved_permanently)
    ∷ (codes "302", moved_temporarily)
    ∷ (codes "304", not_modified)
    ∷ (codes "400", bad_request)
    ∷ (codes "401", unauthorized)
    ∷ (codes "403", forbidden)
    ∷ (codes "404", not_found)
    ∷ (codes "500", internal_server_error)
    ∷ (codes "501", not_implemented)
    ∷ (codes "502", bad_gateway)
    ∷ (codes "503", service_unavailable)
    ∷ []

-- `unordered_map::at`; `none` is `out_of_range`.
unfoldable pub find_status : Bytes → List (Bytes × Status) → Option Status
find_status str [] = none
find_status str ((key, s) ∷ table) = if equal key str then some s else find_status str table

unfoldable pub to_status : Bytes → Option Status
unfolding find_status
to_status str = find_status str string_status_map

-- `to_request_string`, by `request_status_string_map_`
unfoldable pub to_request_string : Status → Bytes
to_request_string ok = codes "HTTP/1.1 200 OK\r\n"
to_request_string created = codes "HTTP/1.1 201 Created\r\n"
to_request_string accepted = codes "HTTP/1.1 202 Accepted\r\n"
to_request_string no_content = codes "HTTP/1.1 204 No Content\r\n"
to_request_string multiple_choices = codes "HTTP/1.1 300 Multiple Choices\r\n"
to_request_string moved_permanently = codes "HTTP/1.1 301 Moved Permanently\r\n"
to_request_string moved_temporarily = codes "HTTP/1.1 302 Moved Temporarily\r\n"
to_request_string not_modified = codes "HTTP/1.1 304 Not Modified\r\n"
to_request_string bad_request = codes "HTTP/1.1 400 Bad Request\r\n"
to_request_string unauthorized = codes "HTTP/1.1 401 Unauthorized\r\n"
to_request_string forbidden = codes "HTTP/1.1 403 Forbidden\r\n"
to_request_string not_found = codes "HTTP/1.1 404 Not Found\r\n"
to_request_string internal_server_error = codes "HTTP/1.1 500 Internal Server error\r\n"
to_request_string not_implemented = codes "HTTP/1.1 501 Not Implemented\r\n"
to_request_string bad_gateway = codes "HTTP/1.1 502 Bad Gateway\r\n"
to_request_string service_unavailable = codes "HTTP/1.1 503 Service unavailable\r\n"
