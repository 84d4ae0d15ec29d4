-- ===== src/Http/RequestParser.antt =====
-- src/http/request_parser.cpp: `parse` with its loop over a packet, the body and form data, and
-- `reset`. `none` is an exception that leaves `parse`.
mod Scan
mod Prefix
mod Settled
mod Splits
mod Packets
mod Body
mod Tests
use oos.Prelude.{
  ℕ, zero, suc, ◌+◌, ◌-◌, ◌%◌, ◌^◌, Bool, true, false, not, ◌&&◌, ◌||◌, List, [], ◌∷◌, ◌++◌, Option,
  none, some, length, drop, ◌==◌, ltb, if◌then◌else◌,
}
use oos.Prelude.Bytes.{Bytes, codes, equal}
use oos.Prelude.Fallible.{◌>>=◌}
use oos.Http.Chars.{
  is_upper, is_digit, is_alnum, is_punct, is_url_char, is_hex_char, stoul, equal_ignoring_case,
}
use oos.Http.Types.{Method, post, put, to_method, ParamMap, insert_param, Version, Content, Request}
use oos.Http.ParserState.{
  State, method, url_path, url_query_field, url_query_value, url_fragment, version, major_version,
  minor_version, header, header_key, header_value_begin, header_value, header_newline,
  header_finish, body, HexState, hex_first, hex_second, hex_finished, Return, invalid, partial,
  finish, Parser, Outcome, request_parser,
}
use oos.Http.RequestLine.{
  parse_method, parse_url_path, parse_url_query_field, parse_url_query_value, parse_url_fragment,
  parse_version, parse_major_version, parse_minor_version,
}
use oos.Http.HeaderLines.{
  parse_header, parse_header_key, parse_header_value_begin, parse_header_value,
  parse_header_newline, parse_header_finish,
}

-- The `switch` of `parse`; `body` is no case of it, and `ret` stays false.
unfoldable pub parse_char : State → ℕ → Parser → Request → Outcome
unfolding parse_method parse_url_path parse_url_query_field parse_url_query_value parse_url_fragment
    parse_version parse_major_version parse_minor_version parse_header parse_header_key
    parse_header_value_begin parse_header_value parse_header_newline parse_header_finish
parse_char method c p r = parse_method c p r
parse_char url_path c p r = parse_url_path c p r
parse_char url_query_field c p r = let (ok, q) = parse_url_query_field c p in (ok, q, r)
parse_char url_query_value c p r =
    let (ok, q, m) = parse_url_query_value c p r.query_params in
    (ok, q, record r { query_params = m })
parse_char url_fragment c p r = parse_url_fragment c p r
parse_char version c p r = parse_version c p r
parse_char major_version c p r = parse_major_version c p r
parse_char minor_version c p r = parse_minor_version c p r
parse_char header c p r = parse_header c p r
parse_char header_key c p r = parse_header_key c p r
parse_char header_value_begin c p r = parse_header_value_begin c p r
parse_char header_value c p r = parse_header_value c p r
parse_char header_newline c p r = parse_header_newline c p r
parse_char header_finish c p r = parse_header_finish c p r
parse_char body c p r = (false, p, r)

-- `finished` of the loop: the handler of `header_finish` has accepted.
unfoldable pub finishes : State → Bool
finishes header_finish = true
finishes _ = false

-- How the loop of `parse` ends: at a 0 byte, at a refused byte, behind the header, or at the end
-- of the message.
pub data Scanned : Type 0 where
  stopped : Parser → Request → Scanned
  refused : Parser → Request → Scanned
  finished : Parser → Request → Bytes → Scanned
  exhausted : Parser → Request → Scanned

-- What the loop does behind the call of a handler in state `s`, given the rest of the loop.
unfoldable pub continue : State → Outcome → Bytes → (Parser → Request → Scanned) → Scanned
unfolding finishes
continue s (false, p, r) rest loop = refused p r
continue s (true, p, r) rest loop = elim (finishes s) [
  | true ↦ finished p r rest
  | false ↦ loop p r
]

unfoldable pub scan : Bytes → Parser → Request → Scanned
unfolding parse_char continue
scan [] p r = exhausted p r
scan (c ∷ cs) p r =
    if c == 0
    then stopped p r
    else continue p.state (parse_char p.state c p r) cs (λ q t. scan cs q t)

-- `parse_form_data`: the loop over the body, with `ret` of the last character; the state decides
-- the handler, and `version` and every other state end the loop with `ret` false.
unfoldable pub form_step : State → ℕ → Parser → ParamMap → Bool × Parser × ParamMap
unfolding parse_url_query_field parse_url_query_value
form_step url_query_field c p m = let (ok, q) = parse_url_query_field c p in (ok, q, m)
form_step url_query_value c p m = parse_url_query_value c p m
form_step _ c p m = (false, p, m)

-- The loop over the form goes on behind an accepted character.
unfoldable pub form_next :
    Bool × Parser × ParamMap
    → (Parser → ParamMap → Bool × Parser × ParamMap)
    → Bool × Parser × ParamMap
form_next (true, p, m) loop = loop p m
form_next (false, p, m) loop = (false, p, m)

unfoldable pub form_loop : Bytes → Bool → Parser → ParamMap → Bool × Parser × ParamMap
unfolding form_step form_next
form_loop [] ret p m = (ret, p, m)
form_loop (c ∷ cs) ret p m =
    if c == 0
    then (ret, p, m)
    else form_next (form_step p.state c p m) (λ q n. form_loop cs true q n)

unfoldable pub parse_form_data : Parser → Request → Bool × Parser × Request
unfolding form_loop
parse_form_data p r =
    let (ret, q, m) = form_loop r.body false (record p { state = url_query_field }) r.form_data in
    (
      ret,
      record q { current_query_field = [] },
      record r {
        form_data =
            if ret && not (equal q.current_query_field [])
            then insert_param q.current_query_field q.current_query_value m
            else m;
      },
    )

unfoldable pub process_body : Parser → Request → Parser × Request
unfolding parse_form_data
process_body p r =
    if equal r.content.type (codes "application/x-www-form-urlencoded")
    then (let (_, q, s) = parse_form_data p r in (q, s))
    else (p, r)

-- The body of a POST or PUT in `rest`, what the message holds from `pos` on; `result` is what the
-- loop left. `none` is an exception of `stoul`; the difference is one of `size_t`.
unfoldable pub read_body : Bytes → Return → Parser → Request → Option (Return × Parser × Request)
unfolding process_body
read_body rest result p r = elim (stoul r.content.length) [
  | none ↦ none
  | some n ↦
      let missing = (n + 2 ^ 64 - length r.body) % 2 ^ 64 in
      let r' = record r { body = r.body ++ rest } in
      if ltb 0 missing
      then if length rest == missing
        then (let (q, s) = process_body p r' in some (finish, record q { state = method }, s))
        else if ltb (length rest) missing
        then some (partial, p, r')
        else some (result, p, r')
      else if ltb 0 (length rest)
      then some (finish, record p { state = method }, record r { body = rest })
      else some (result, p, r)
]

-- `state_ == BODY`
unfoldable pub is_body : State → Bool
is_body body = true
is_body _ = false

-- `req.method() == http::POST || req.method() == http::PUT`
unfoldable pub has_body : Method → Bool
has_body post = true
has_body put = true
has_body _ = false

-- The last test of `parse`: a finished parser starts again.
unfoldable pub end_parse : Return × Parser × Request → Return × Parser × Request
end_parse (finish, p, r) = (finish, record p { state = method }, r)
end_parse (result, p, r) = (result, p, r)

-- `parse` behind the loop.
unfoldable pub parse_rest : Bytes → Return → Parser → Request → Option (Return × Parser × Request)
unfolding read_body is_body has_body end_parse
parse_rest rest result p r =
    if is_body p.state && has_body r.method
    then read_body rest result p r >>= (λ t. some (end_parse t))
    else some (end_parse (result, p, r))

unfoldable pub conclude : Scanned → Option (Return × Parser × Request)
unfolding parse_rest
conclude (stopped p r) = some (partial, p, r)
conclude (refused p r) = some (invalid, p, r)
conclude (finished p r rest) = parse_rest rest finish p r
conclude (exhausted p r) = parse_rest [] partial p r

unfoldable pub parse : Bytes → Parser → Request → Option (Return × Parser × Request)
unfolding scan conclude is_body parse_rest
parse msg p r =
    let q = record p { http_prefix_index = 0 } in
    if is_body p.state then parse_rest msg partial q r else conclude (scan msg q r)

-- What the connection does with a result: it reads on where data is missing.
unfoldable pub receive_next :
    Return × Parser × Request
    → (Parser → Request → Option (Return × Parser × Request))
    → Option (Return × Parser × Request)
receive_next (partial, p, r) read = read p r
receive_next (result, p, r) read = some (result, p, r)

-- `http_server_connection::read`: the packets that are read, until one ends the request or is
-- refused.
unfoldable pub receive : List Bytes → Parser → Request → Option (Return × Parser × Request)
unfolding parse receive_next
receive [] p r = some (partial, p, r)
receive (x ∷ xs) p r = parse x p r >>= λ t. receive_next t (λ q s. receive xs q s)

unfoldable pub reset : Parser → Parser
reset p = record p {
  state = method;
  http_prefix_index = 0;
  current_key = [];
  current_value = [];
  current_method = [];
  blanks = [];
  skip_blanks = false;
}
