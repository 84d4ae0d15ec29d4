-- ===== src/Http/RequestLine.antt =====
-- src/http/request_parser.cpp: the handlers of the request line, and of form data. A handler
-- returns its `bool` with the parser and the request that it leaves; a byte is a number below 256.
use oos.Prelude.{
  ℕ, zero, suc, ◌+◌, ◌-◌, Bool, true, false, not, ◌&&◌, [], ◌∷◌, ◌++◌, ◌==◌, ltb, if◌then◌else◌,
}
use oos.Prelude.Bytes.{Bytes}
use oos.Utils.Hex.{strtol_pair}
use oos.Http.Chars.{is_upper, is_digit, is_url_char, is_hex_char}
use oos.Http.Types.{to_method, ParamMap, insert_param, Request}
use oos.Http.ParserState.{
  State, url_path, url_query_field, url_query_value, url_fragment, version, major_version,
  minor_version, header, hex_first, hex_second, hex_finished, Parser, Outcome,
}

unfoldable pub parse_method : ℕ → Parser → Request → Outcome
parse_method c p r =
    if is_upper c
    then (true, record p { current_method = p.current_method ++ c ∷ [] }, r)
    else if c == b' '
    then (
      true,
      record p { current_method = []; state = url_path },
      record r { method = to_method p.current_method },
    )
    else (false, p, r)

unfoldable pub parse_url_path : ℕ → Parser → Request → Outcome
parse_url_path c p r =
    if c == b'?'
    then (true, record p { current_query_field = []; state = url_query_field }, r)
    else if is_url_char c
    then (true, p, record r { url = r.url ++ c ∷ [] })
    else if c == b' '
    then (true, record p { http_prefix_index = 0; state = version }, r)
    else (false, p, r)

-- The two handlers that are used for form data too work on the parser and a map.
unfoldable pub parse_url_query_field : ℕ → Parser → Bool × Parser
parse_url_query_field c p =
    if c == b'='
    then (true, record p { state = url_query_value })
    else if is_url_char c && not (c == b'?')
    then (true, record p { current_query_field = p.current_query_field ++ c ∷ [] })
    else (false, p)

-- The end of a parameter at `&`, `#` or a space: the map takes it, and the state is `s`.
unfoldable pub end_param : State → Parser → ParamMap → Bool × Parser × ParamMap
end_param s p params = elim (p.hex_state) [
  | hex_finished ↦ (
    true,
    record p { current_query_field = []; current_query_value = []; state = s },
    insert_param p.current_query_field p.current_query_value params,
  )
  | _ ↦ (false, p, params)
]

-- `static_cast<char>(strtol(hex_str_.c_str(), &err, 16))` of the two characters of `hex_str`
unfoldable pub hex_value : Bytes → ℕ
unfolding strtol_pair
hex_value (c ∷ d ∷ _) = strtol_pair c d
hex_value _ = 0

unfoldable pub parse_url_query_value : ℕ → Parser → ParamMap → Bool × Parser × ParamMap
unfolding end_param hex_value
parse_url_query_value c p params = elim (p.hex_state) [
  | hex_first ↦
      if is_hex_char c
      then (true, record p { hex_str = p.hex_str ++ c ∷ []; hex_state = hex_second }, params)
      else (false, p, params)
  | hex_second ↦
      if is_hex_char c
      then (
        true,
        record p {
          hex_str = p.hex_str ++ c ∷ [];
          current_query_value = p.current_query_value ++ hex_value (p.hex_str ++ c ∷ []) ∷ [];
          hex_state = hex_finished;
        },
        params,
      )
      else (false, p, params)
  | hex_finished ↦
      if c == b'%'
      then (true, record p { hex_str = []; hex_state = hex_first }, params)
      else if c == b'&'
      then end_param url_query_field p params
      else if c == b'#'
      then end_param url_fragment p params
      else if c == b'+'
      then (true, record p { current_query_value = p.current_query_value ++ b' ' ∷ [] }, params)
      else if is_url_char c && not (c == b'?')
      then (true, record p { current_query_value = p.current_query_value ++ c ∷ [] }, params)
      else if c == b' '
      then (let (ok, q, m) = end_param version p params in
          (ok, if ok then record q { http_prefix_index = 0 } else q, m))
      else (false, p, params)
]

unfoldable pub parse_url_fragment : ℕ → Parser → Request → Outcome
parse_url_fragment c p r =
    if is_url_char c
    then (true, p, record r { fragment = r.fragment ++ c ∷ [] })
    else if c == b' '
    then (true, record p { http_prefix_index = 0; state = version }, r)
    else (false, p, r)

-- `HTTP_VERSION_PREFIX[i]`, for i below 4
unfoldable pub prefix_char : ℕ → ℕ
prefix_char zero = b'H'
prefix_char (suc zero) = b'T'
prefix_char (suc (suc zero)) = b'T'
prefix_char (suc (suc (suc _))) = b'P'

unfoldable pub parse_version : ℕ → Parser → Request → Outcome
unfolding prefix_char
parse_version c p r =
    if ltb p.http_prefix_index 4
    then (
      c == prefix_char p.http_prefix_index,
      record p { http_prefix_index = p.http_prefix_index + 1 },
      r,
    )
    else if c == b'/'
    then (true, record p { state = major_version }, r)
    else (false, p, r)

unfoldable pub parse_major_version : ℕ → Parser → Request → Outcome
parse_major_version c p r =
    if is_digit c
    then (true, p, record r { version = record { major = c - b'0'; minor = r.version.minor } })
    else if c == b'.'
    then (true, record p { state = minor_version }, r)
    else (false, p, r)

unfoldable pub parse_minor_version : ℕ → Parser → Request → Outcome
parse_minor_version c p r =
    if is_digit c
    then (true, p, record r { version = record { major = r.version.major; minor = c - b'0' } })
    else if c == b'\r'
    then (true, record p { state = header }, r)
    else (false, p, r)
