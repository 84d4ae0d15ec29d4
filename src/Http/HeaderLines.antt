-- ===== src/Http/HeaderLines.antt =====
-- src/http/request_parser.cpp: the handlers of the header lines.
use oos.Prelude.{ℕ, true, false, ◌||◌, [], ◌∷◌, ◌++◌, ◌==◌, if◌then◌else◌}
use oos.Prelude.Bytes.{Bytes, codes}
use oos.Http.Chars.{is_alnum, is_punct, equal_ignoring_case}
use oos.Http.Types.{insert_param, Request}
use oos.Http.ParserState.{
  header_key, header_value_begin, header_value, header_newline, header_finish, body, Parser,
  Outcome,
}

unfoldable pub parse_header : ℕ → Parser → Request → Outcome
parse_header c p r =
    if c == b'\n'
    then (true, record p { current_key = []; current_value = []; state = header_key }, r)
    else (false, p, r)

unfoldable pub parse_header_key : ℕ → Parser → Request → Outcome
parse_header_key c p r =
    if is_alnum c || c == b'-'
    then (true, record p { current_key = p.current_key ++ c ∷ [] }, r)
    else if c == b':'
    then (true, record p { state = header_value_begin }, r)
    else (c == b' ', p, r)

unfoldable pub parse_header_value_begin : ℕ → Parser → Request → Outcome
parse_header_value_begin c p r =
    if c == b' '
    then (true, p, r)
    else if is_alnum c || is_punct c
    then (true, record p { blanks = []; current_value = c ∷ []; state = header_value }, r)
    else (false, p, r)

-- The blanks in front of a character of a value: kept inside a line, dropped behind a line break.
unfoldable pub flush_blanks : Parser → Parser
flush_blanks p =
    if p.skip_blanks
    then record p { blanks = []; skip_blanks = false }
    else record p { current_value = p.current_value ++ p.blanks; blanks = [] }

unfoldable pub parse_header_value : ℕ → Parser → Request → Outcome
unfolding flush_blanks
parse_header_value c p r =
    if c == b' ' || c == b'\t'
    then (true, record p { blanks = p.blanks ++ c ∷ [] }, r)
    else if is_alnum c || is_punct c
    then (let q = flush_blanks p in
        (true, record q { current_value = q.current_value ++ c ∷ [] }, r))
    else if c == b'\r'
    then (true, record p { state = header_newline }, r)
    else (false, p, r)

-- The fields of a request that a header sets besides the map.
unfoldable pub set_content : Bytes → Bytes → Request → Request
set_content key value r =
    if equal_ignoring_case key (codes "Content-Type")
    then record r {
      content = record {
        length = r.content.length;
        type = value;
        md5 = r.content.md5;
        language = r.content.language;
      };
    }
    else if equal_ignoring_case key (codes "Content-Length")
    then record r {
      content = record {
        length = value;
        type = r.content.type;
        md5 = r.content.md5;
        language = r.content.language;
      };
    }
    else if equal_ignoring_case key (codes "Content-MD5")
    then record r {
      content = record {
        length = r.content.length;
        type = r.content.type;
        md5 = value;
        language = r.content.language;
      };
    }
    else if equal_ignoring_case key (codes "Host")
    then record r { host = value }
    else r

unfoldable pub insert_header : Bytes → Bytes → Request → Request
insert_header key value r =
    set_content key value (record r { headers = insert_param key value r.headers })

unfoldable pub parse_header_newline : ℕ → Parser → Request → Outcome
parse_header_newline c p r =
    if c == b'\n'
    then (true, p, r)
    else if c == b' ' || c == b'\t'
    then (true, record p { state = header_value; skip_blanks = true }, r)
    else if is_alnum c || is_punct c
    then (
      true,
      record p { current_key = c ∷ []; state = header_key },
      insert_header p.current_key p.current_value r,
    )
    else if c == b'\r'
    then (
      true,
      record p { current_key = []; state = header_finish },
      insert_header p.current_key p.current_value r,
    )
    else (false, p, r)

unfoldable pub parse_header_finish : ℕ → Parser → Request → Outcome
parse_header_finish c p r =
    if c == b'\n' then (true, record p { state = body }, r) else (false, p, r)
