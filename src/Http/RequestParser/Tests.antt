-- ===== src/Http/RequestParser/Tests.antt =====
-- Requests, and the theorems at them.
use oos.Prelude.{◌≡◌, refl, [], ◌∷◌, ◌++◌, some, arith}
use oos.Prelude.Bytes.{Bytes, codes}
use oos.Http.Chars.{
  stoul, stoul_digits, decimal, is_upper, is_url_char, is_alnum, is_lower, is_digit, member,
}
use oos.Http.Types.{Request, request, post, get, to_method}
use oos.Http.ParserState.{Parser, request_parser, url_path, body, version}
use oos.Http.RequestParser.Settled.{settle}
use oos.Http.RequestParser.Splits.{receive-packets}
use oos.Http.RequestParser.Body.{complete, receive-body}
use oos.Http.RequestLine.{parse_method, parse_url_path}
use oos.Http.RequestParser.{
  parse, conclude, parse_rest, is_body, end_parse, parse_char, continue, finishes, receive,
  process_body, has_body, scan,
}

abbrev body_text : Bytes
body_text = codes "x=1&y=a+b"

abbrev first : Bytes
first = codes "GET /a"

abbrev second : Bytes
second = codes "b HTTP/1.1"

-- What the first packet leaves.
abbrev in_path : Parser
in_path = record request_parser { state = url_path }

abbrev asked : Request
asked = record request { method = get; url = codes "/a" }

-- The answers to the two packets and the rest of the header behind them.
receive-packets_example :
    settle (receive (first ∷ second ∷ codes "\r\n" ∷ []) request_parser request)
    ≡ settle (receive ((first ++ second) ∷ codes "\r\n" ∷ []) request_parser request)
unfolding parse scan conclude parse_rest is_body end_parse parse_char parse_method parse_url_path
    is_upper is_url_char is_alnum is_lower is_digit member continue finishes to_method
receive-packets_example =
    receive-packets first second (codes "\r\n" ∷ []) request_parser in_path request asked refl
      (omega arith, (omega arith, (omega arith, (omega arith, (omega arith, (omega arith, tt))))))
      refl refl refl

abbrev in_version : Parser
in_version = record request_parser { state = version; http_prefix_index = 2 }

abbrev in_body : Parser
in_body = record request_parser { state = body }

abbrev form : Request
form = record request {
  method = post;
  content = record {
    length = codes "9";
    type = codes "application/x-www-form-urlencoded";
    md5 = [];
    language = [];
  };
}

receive-body_example :
    receive (codes "x=1&" ∷ codes "y=a+b" ∷ []) in_body form
    ≡ some (complete (process_body in_body (record form { body = body_text })))
unfolding stoul stoul_digits decimal is_digit has_body
receive-body_example =
    receive-body (codes "y=a+b" ∷ []) (codes "x=1&") in_body form 9 refl (omega arith) refl refl
      (omega arith, (omega arith, tt)) refl
