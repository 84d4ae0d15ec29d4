-- ===== src/Http/ResponseLines.antt =====
-- src/http/response_parser.cpp: the handlers of the header lines of a response.
use oos.Prelude.{ℕ, Bool, true, false, ◌||◌, [], ◌∷◌, ◌++◌, some, ◌==◌, leb, if◌then◌else◌}
use oos.Prelude.Bytes.{Bytes, codes}
use oos.Http.Chars.{is_alnum, is_punct, equal_ignoring_case}
use oos.Http.Types.{insert_param}
use oos.Http.ResponseState.{
  header_key, header_value_begin, header_value, header_newline, header_finish, body, Response,
  Parser, Outcome,
}

unfoldable pub parse_header : ℕ → Parser → Response → Outcome
parse_header c p r =
    if c == b'\n'
    then some (true, record p { current_key = []; current_value = []; state = header_key }, r)
    else some (false, p, r)

unfoldable pub parse_header_key : ℕ → Parser → Response → Outcome
parse_header_key c p r =
    if is_alnum c || c == b'-'
    then some (true, record p { current_key = p.current_key ++ c ∷ [] }, r)
    else if c == b':'
    then some (true, record p { state = header_value_begin }, r)
    else some (c == b' ', p, r)

unfoldable pub parse_header_value_begin : ℕ → Parser → Response → Outcome
parse_header_value_begin c p r =
    if c == b' '
    then some (true, p, r)
    else if is_alnum c || is_punct c
    then some (true, record p { blanks = []; current_value = c ∷ []; state = header_value }, r)
    else some (false, p, r)

-- The blanks in front of a character of a value: kept inside a line, dropped behind a line break.
unfoldable pub flush_blanks : Parser → Parser
flush_blanks p =
    if p.skip_blanks
    then record p { blanks = []; skip_blanks = false }
    else record p { current_value = p.current_value ++ p.blanks; blanks = [] }

-- `isutf8`: the highest bit of the byte
unfoldable pub isutf8 : ℕ → Bool
isutf8 c = leb 128 c

unfoldable pub parse_header_value : ℕ → Parser → Response → Outcome
unfolding flush_blanks isutf8
parse_header_value c p r =
    if c == b' ' || c == b'\t'
    then some (true, record p { blanks = p.blanks ++ c ∷ [] }, r)
    else if c == b'\r'
    then some (true, record p { state = header_newline }, r)
    else if isutf8 c || is_alnum c || is_punct c
    then (let q = flush_blanks p in
        some (true, record q { current_value = q.current_value ++ c ∷ [] }, r))
    else some (false, p, r)

-- The fields of a response that a header sets besides the map.
unfoldable pub set_content : Bytes → Bytes → Response → Response
set_content key value r =
    if equal_ignoring_case key (codes "Content-Type")
    then record r {
      content = record {
        length = r.content.length;
        type = value;
        md5 = r.content.md5;
        language = r.content.language;
      };
    }
    else if equal_ignoring_case key (codes "Content-Length")
    then record r {
      content = record {
        length = value;
        type = r.content.type;
        md5 = r.content.md5;
        language = r.content.language;
      };
    }
    else if equal_ignoring_case key (codes "Content-MD5")
    then record r {
      content = record {
        length = r.content.length;
        type = r.content.type;
        md5 = value;
        language = r.content.language;
      };
    }
    else r

unfoldable pub insert_header : Bytes → Bytes → Response → Response
unfolding set_content
insert_header key value r =
    set_content key value (record r { headers = insert_param key value r.headers })

unfoldable pub parse_header_newline : ℕ → Parser → Response → Outcome
unfolding insert_header
parse_header_newline c p r =
    if c == b'\n'
    then some (true, p, r)
    else if c == b' ' || c == b'\t'
    then some (true, record p { state = header_value; skip_blanks = true }, r)
    else if is_alnum c || is_punct c
    then some (
      true,
      record p { current_key = c ∷ []; state = header_key },
      insert_header p.current_key p.current_value r,
    )
    else if c == b'\r'
    then some (
      true,
      record p { current_key = []; state = header_finish },
      insert_header p.current_key p.current_value r,
    )
    else some (false, p, r)

unfoldable pub parse_header_finish : ℕ → Parser → Response → Outcome
parse_header_finish c p r =
    if c == b'\n' then some (true, record p { state = body }, r) else some (false, p, r)
