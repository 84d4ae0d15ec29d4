-- ===== src/Http/ResponseParser/StatusText.antt =====
-- The status lines that a server writes, read by the parser of the client.
use oos.Prelude.{◌≡◌, refl}
use oos.Http.Chars.{is_digit, is_alnum, is_upper, is_lower}
use oos.Http.Status.{
  Status, to_request_string, to_status, find_status, ok, created, accepted, no_content,
  multiple_choices, moved_permanently, moved_temporarily, not_modified, bad_request, unauthorized,
  forbidden, not_found, internal_server_error, not_implemented, bad_gateway, service_unavailable,
}
use oos.Http.ResponseState.{response_parser, response, header_key}
use oos.Http.StatusLine.{
  parse_version, prefix_char, parse_major_version, parse_minor_version, parse_status_code,
  parse_status_text,
}
use oos.Http.ResponseLines.{parse_header}
use oos.Http.ResponseParser.{Scanned, exhausted, scan, parse_char, continue, finishes}

-- What a fresh parser is left with behind the status line of `s`.
abbrev pub status_read : Status → Scanned
status_read s =
    exhausted (record response_parser { state = header_key; http_prefix_index = 4 })
      (record response { version = record { major = 1; minor = 1 }; status = s })

-- The line that is written for a status is read as that status and HTTP/1.1, and the parser waits
-- for a header.
pub scan-to_request_string :
    (s : Status) → scan (to_request_string s) response_parser response ≡ status_read s
unfolding scan to_request_string parse_char continue finishes parse_version prefix_char
    parse_major_version parse_minor_version parse_status_code parse_status_text parse_header
    to_status find_status is_digit is_alnum is_upper is_lower
scan-to_request_string ok = refl
scan-to_request_string created = refl
scan-to_request_string accepted = refl
scan-to_request_string no_content = refl
scan-to_request_string multiple_choices = refl
scan-to_request_string moved_permanently = refl
scan-to_request_string moved_temporarily = refl
scan-to_request_string not_modified = refl
scan-to_request_string bad_request = refl
scan-to_request_string unauthorized = refl
scan-to_request_string forbidden = refl
scan-to_request_string not_found = refl
scan-to_request_string internal_server_error = refl
scan-to_request_string not_implemented = refl
scan-to_request_string bad_gateway = refl
scan-to_request_string service_unavailable = refl
