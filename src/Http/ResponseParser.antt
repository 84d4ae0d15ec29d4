-- ===== src/Http/ResponseParser.antt =====
-- src/http/response_parser.cpp: `parse` with its loop over a packet and the body, and `reset`.
-- `none` is an exception that leaves `parse`.
mod Scan
mod StatusText
mod Tests
use oos.Prelude.{
  ℕ, zero, suc, ◌+◌, ◌-◌, ◌%◌, ◌^◌, Bool, true, false, not, ◌&&◌, ◌||◌, List, [], ◌∷◌, ◌++◌, Option,
  none, some, length, ◌==◌, ltb, leb, if◌then◌else◌,
}
use oos.Prelude.Bytes.{Bytes, codes, equal}
use oos.Http.Chars.{is_digit, is_alnum, is_punct, stoul, equal_ignoring_case}
use oos.Http.Types.{ParamMap, insert_param, Version, Content}
use oos.Http.Status.{Status, ok, to_status}
use oos.Http.ResponseState.{
  Return, invalid, partial, finish, State, method, status_code, status_text, url, url_path,
  url_query_field, url_query_value, url_fragment, version, major_version, minor_version, header,
  header_key, header_value_begin, header_value, header_newline, header_finish, body, chunked_body,
  chunked_body_finished, Response, Parser, Outcome,
}
use oos.Http.StatusLine.{
  parse_version, parse_major_version, parse_minor_version, parse_status_code, parse_status_text,
}
use oos.Http.ResponseLines.{
  parse_header, parse_header_key, parse_header_value_begin, parse_header_value,
  parse_header_newline, parse_header_finish,
}

-- The `switch` of `parse`; a state that is no case of it leaves `ret` false.
unfoldable pub parse_char : State → ℕ → Parser → Response → Outcome
unfolding parse_version parse_major_version parse_minor_version parse_status_code parse_status_text
    parse_header parse_header_key parse_header_value_begin parse_header_value parse_header_newline
    parse_header_finish
parse_char version c p r = parse_version c p r
parse_char major_version c p r = parse_major_version c p r
parse_char minor_version c p r = parse_minor_version c p r
parse_char status_code c p r = parse_status_code c p r
parse_char status_text c p r = parse_status_text c p r
parse_char header c p r = parse_header c p r
parse_char header_key c p r = parse_header_key c p r
parse_char header_value_begin c p r = parse_header_value_begin c p r
parse_char header_value c p r = parse_header_value c p r
parse_char header_newline c p r = parse_header_newline c p r
parse_char header_finish c p r = parse_header_finish c p r
parse_char _ c p r = some (false, p, r)

-- `finished` of the loop: the handler of `header_finish` has accepted.
unfoldable pub finishes : State → Bool
finishes header_finish = true
finishes _ = false

-- How the loop of `parse` ends: with an exception, at a refused byte, behind the header, or at the
-- end of the message.
pub data Scanned : Type 0 where
  thrown : Scanned
  refused : Parser → Response → Scanned
  finished : Parser → Response → Bytes → Scanned
  exhausted : Parser → Response → Scanned

-- What the loop does behind the call of a handler in state `s`, given the rest of the loop.
unfoldable pub continue : State → Outcome → Bytes → (Parser → Response → Scanned) → Scanned
unfolding finishes
continue s none rest loop = thrown
continue s (some (false, p, r)) rest loop = refused p r
continue s (some (true, p, r)) rest loop = elim (finishes s) [
  | true ↦ finished p r rest
  | false ↦ loop p r
]

unfoldable pub scan : Bytes → Parser → Response → Scanned
unfolding parse_char continue
scan [] p r = exhausted p r
scan (c ∷ cs) p r = continue p.state (parse_char p.state c p r) cs (λ q t. scan cs q t)

-- The body in `rest`, what the message holds from `pos` on; `result` is what the loop left.
unfoldable pub read_body : Bytes → Return → Parser → Response → Option (Return × Parser × Response)
read_body rest result p r = elim (stoul r.content.length) [
  | none ↦ none
  | some n ↦
      let missing = (n + 2 ^ 64 - length r.body) % 2 ^ 64 in
      let r' = record r { body = r.body ++ rest } in
      if ltb 0 missing
      then if length rest == missing
        then some (finish, record p { state = version }, r')
        else if ltb (length rest) missing
        then some (partial, p, r')
        else some (result, p, r')
      else if ltb 0 (length rest)
      then some (finish, record p { state = version }, record r { body = rest })
      else some (result, p, r)
]

-- `state_ == BODY`
unfoldable pub is_body : State → Bool
is_body body = true
is_body _ = false

-- `parse` behind the loop.
unfoldable pub parse_rest : Bytes → Return → Parser → Response → Option (Return × Parser × Response)
unfolding read_body is_body
parse_rest rest result p r =
    if is_body p.state then read_body rest result p r else some (result, p, r)

unfoldable pub conclude : Scanned → Option (Return × Parser × Response)
unfolding parse_rest
conclude thrown = none
conclude (refused p r) = some (invalid, p, r)
conclude (finished p r rest) = parse_rest rest finish p r
conclude (exhausted p r) = parse_rest [] partial p r

unfoldable pub parse : Bytes → Parser → Response → Option (Return × Parser × Response)
unfolding scan conclude is_body parse_rest
parse msg p r =
    if is_body p.state
    then parse_rest msg partial p r
    else conclude (scan msg (record p { http_prefix_index = 0 }) r)

-- It does not clear `current_status_`.
unfoldable pub reset : Parser → Parser
reset p = record p {
  state = version;
  http_prefix_index = 0;
  current_key = [];
  current_value = [];
  blanks = [];
  skip_blanks = false;
}
