-- ===== src/Http/StatusLine.antt =====
-- src/http/response_parser.cpp: the handlers of the status line.
use oos.Prelude.{
  ℕ, zero, suc, ◌+◌, ◌-◌, true, false, ◌||◌, [], ◌∷◌, ◌++◌, none, some, ◌==◌, ltb, if◌then◌else◌,
}
use oos.Http.Chars.{is_digit, is_alnum}
use oos.Http.Status.{to_status}
use oos.Http.ResponseState.{
  status_code, status_text, major_version, minor_version, header, Response, Parser, Outcome,
}

-- `HTTP_VERSION_PREFIX[i]`, for i below 4
unfoldable pub prefix_char : ℕ → ℕ
prefix_char zero = b'H'
prefix_char (suc zero) = b'T'
prefix_char (suc (suc zero)) = b'T'
prefix_char (suc (suc (suc _))) = b'P'

unfoldable pub parse_version : ℕ → Parser → Response → Outcome
unfolding prefix_char
parse_version c p r =
    if ltb p.http_prefix_index 4
    then some (
      c == prefix_char p.http_prefix_index,
      record p { http_prefix_index = p.http_prefix_index + 1 },
      r,
    )
    else if c == b'/'
    then some (true, record p { state = major_version }, r)
    else some (false, p, r)

unfoldable pub parse_major_version : ℕ → Parser → Response → Outcome
parse_major_version c p r =
    if is_digit c
    then some (true, p, record r { version = record { major = c - b'0'; minor = r.version.minor } })
    else if c == b'.'
    then some (true, record p { state = minor_version }, r)
    else some (false, p, r)

unfoldable pub parse_minor_version : ℕ → Parser → Response → Outcome
parse_minor_version c p r =
    if is_digit c
    then some (true, p, record r { version = record { major = r.version.major; minor = c - b'0' } })
    else if c == b' '
    then some (true, record p { state = status_code }, r)
    else some (false, p, r)

unfoldable pub parse_status_code : ℕ → Parser → Response → Outcome
parse_status_code c p r =
    if is_digit c
    then some (true, record p { current_status = p.current_status ++ c ∷ [] }, r)
    else if c == b' '
    then (elim (to_status p.current_status) [
      | none ↦ none
      | some s ↦
          some
            (true, record p { current_status = []; state = status_text }, record r { status = s })
    ])
    else some (false, p, r)

unfoldable pub parse_status_text : ℕ → Parser → Response → Outcome
parse_status_text c p r =
    if is_alnum c || c == b' '
    then some (true, record p { current_status = p.current_status ++ c ∷ [] }, r)
    else if c == b'\r'
    then some (true, record p { current_status = []; state = header }, r)
    else some (false, p, r)
