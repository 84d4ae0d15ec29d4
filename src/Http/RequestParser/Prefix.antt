-- ===== src/Http/RequestParser/Prefix.antt =====
-- The position in `HTTP_VERSION_PREFIX` matters in the state `version` only.
use oos.Prelude.{
  ℕ, ◌≡◌, ◌⊎◌, refl, Bool, true, false, ◌==◌, if◌then◌else◌, not, ◌&&◌, ◌||◌, Bool-cases, inl, inr,
}
use oos.Http.Chars.{is_upper, is_digit, is_alnum, is_punct, is_url_char, is_hex_char}
use oos.Http.Types.{Request}
use oos.Http.ParserState.{
  State, Parser, Outcome, method, url_path, url_query_field, url_query_value, url_fragment, version,
  major_version, minor_version, header, header_key, header_value_begin, header_value,
  header_newline, header_finish, body, HexState, hex_first, hex_second, hex_finished,
}
use oos.Http.RequestLine.{
  parse_method, parse_url_path, parse_url_query_field, parse_url_query_value, parse_url_fragment,
  parse_major_version, parse_minor_version, end_param,
}
use oos.Http.HeaderLines.{
  parse_header, parse_header_key, parse_header_value_begin, parse_header_value,
  parse_header_newline, parse_header_finish, flush_blanks,
}
use oos.Http.RequestParser.{parse_char}

abbrev pub with_prefix : ℕ → Parser → Parser
with_prefix k p = record p { http_prefix_index = k }

abbrev pub is_version : State → Bool
is_version version = true
is_version _ = false

-- The two outcomes are the same but for the position, which is the same on entry to `version`.
abbrev pub Alike : ℕ → Outcome → Outcome → Type 0
Alike k (ok, p, r) o =
    (o ≡ (ok, p, r)) ⊎ ((o ≡ (ok, with_prefix k p, r)) × (is_version p.state ≡ false))

test-Alike :
    (b : Bool) (k : ℕ) (x x' y y' : Outcome)
    → Alike k x x'
    → Alike k y y'
    → Alike k (if b then x else y) (if b then x' else y')
test-Alike true k x x' y y' h g = h
test-Alike false k x x' y y' h g = g

pub HexState-cases : (h : HexState) → (h ≡ hex_first) ⊎ ((h ≡ hex_second) ⊎ (h ≡ hex_finished))
HexState-cases hex_first = inl refl
HexState-cases hex_second = inr (inl refl)
HexState-cases hex_finished = inr (inr refl)

module _ (k c : ℕ) (p : Parser) (r : Request) (h : is_version p.state ≡ false) where
  method-Alike : Alike k (parse_method c p r) (parse_method c (with_prefix k p) r)
  unfolding parse_method
  method-Alike =
      test-Alike (is_upper c) k _ _ _ _ (inr (refl, h))
        (test-Alike (c == b' ') k _ _ _ _ (inr (refl, refl)) (inr (refl, h)))

  url_path-Alike : Alike k (parse_url_path c p r) (parse_url_path c (with_prefix k p) r)
  unfolding parse_url_path
  url_path-Alike = test-Alike (c == b'?') k _ _ _ _ (inr (refl, refl)) (
      test-Alike (is_url_char c) k _ _ _ _ (inr (refl, h))
        (test-Alike (c == b' ') k _ _ _ _ (inl refl) (inr (refl, h))))

  query_field-Alike :
      Alike k (parse_char url_query_field c p r) (parse_char url_query_field c (with_prefix k p) r)
  unfolding parse_char parse_url_query_field
  query_field-Alike = elim (Bool-cases (c == b'=')) [
    | inl e ↦ rw e (inr (refl, refl))
    | inr e ↦ elim (Bool-cases (is_url_char c && not (c == b'?'))) [
      | inl d ↦ rw (e, d) (inr (refl, h))
      | inr d ↦ rw (e, d) (inr (refl, h))
    ]
  ]

  url_fragment-Alike : Alike k (parse_url_fragment c p r) (parse_url_fragment c (with_prefix k p) r)
  unfolding parse_url_fragment
  url_fragment-Alike =
      test-Alike (is_url_char c) k _ _ _ _ (inr (refl, h))
        (test-Alike (c == b' ') k _ _ _ _ (inl refl) (inr (refl, h)))

  major_version-Alike :
      Alike k (parse_major_version c p r) (parse_major_version c (with_prefix k p) r)
  unfolding parse_major_version
  major_version-Alike =
      test-Alike (is_digit c) k _ _ _ _ (inr (refl, h))
        (test-Alike (c == b'.') k _ _ _ _ (inr (refl, refl)) (inr (refl, h)))

  minor_version-Alike :
      Alike k (parse_minor_version c p r) (parse_minor_version c (with_prefix k p) r)
  unfolding parse_minor_version
  minor_version-Alike =
      test-Alike (is_digit c) k _ _ _ _ (inr (refl, h))
        (test-Alike (c == b'\r') k _ _ _ _ (inr (refl, refl)) (inr (refl, h)))

  header-Alike : Alike k (parse_header c p r) (parse_header c (with_prefix k p) r)
  unfolding parse_header
  header-Alike = test-Alike (c == b'\n') k _ _ _ _ (inr (refl, refl)) (inr (refl, h))

  header_key-Alike : Alike k (parse_header_key c p r) (parse_header_key c (with_prefix k p) r)
  unfolding parse_header_key
  header_key-Alike =
      test-Alike (is_alnum c || c == b'-') k _ _ _ _ (inr (refl, h))
        (test-Alike (c == b':') k _ _ _ _ (inr (refl, refl)) (inr (refl, h)))

  header_value_begin-Alike :
      Alike k (parse_header_value_begin c p r) (parse_header_value_begin c (with_prefix k p) r)
  unfolding parse_header_value_begin
  header_value_begin-Alike =
      test-Alike (c == b' ') k _ _ _ _ (inr (refl, h))
        (test-Alike (is_alnum c || is_punct c) k _ _ _ _ (inr (refl, refl)) (inr (refl, h)))

  header_value-Alike : Alike k (parse_header_value c p r) (parse_header_value c (with_prefix k p) r)
  unfolding parse_header_value flush_blanks
  header_value-Alike =
      let blank : Alike k _ _ = elim (Bool-cases p.skip_blanks) [
        | inl e ↦ rw e (inr (refl, h))
        | inr e ↦ rw e (inr (refl, h))
      ] in
      test-Alike (c == b' ' || c == b'\t') k _ _ _ _ (inr (refl, h)) (
        test-Alike (is_alnum c || is_punct c) k _ _ _ _ blank
          (test-Alike (c == b'\r') k _ _ _ _ (inr (refl, refl)) (inr (refl, h))))

  header_newline-Alike :
      Alike k (parse_header_newline c p r) (parse_header_newline c (with_prefix k p) r)
  unfolding parse_header_newline
  header_newline-Alike = test-Alike (c == b'\n') k _ _ _ _ (inr (refl, h)) (
      test-Alike (c == b' ' || c == b'\t') k _ _ _ _ (inr (refl, refl)) (
        test-Alike (is_alnum c || is_punct c) k _ _ _ _ (inr (refl, refl))
          (test-Alike (c == b'\r') k _ _ _ _ (inr (refl, refl)) (inr (refl, h)))))

  header_finish-Alike :
      Alike k (parse_header_finish c p r) (parse_header_finish c (with_prefix k p) r)
  unfolding parse_header_finish
  header_finish-Alike = test-Alike (c == b'\n') k _ _ _ _ (inr (refl, refl)) (inr (refl, h))

  query_value_hex-Alike :
      (p.hex_state ≡ hex_first) ⊎ (p.hex_state ≡ hex_second)
      → Alike k
          (parse_char url_query_value c p r)
          (parse_char url_query_value c (with_prefix k p) r)
  unfolding parse_char parse_url_query_value
  query_value_hex-Alike g = elim (Bool-cases (is_hex_char c)) [
    | inl e ↦ elim g [ inl d ↦ rw (d, e) (inr (refl, h)) | inr d ↦ rw (d, e) (inr (refl, h)) ]
    | inr e ↦ elim g [ inl d ↦ rw (d, e) (inr (refl, h)) | inr d ↦ rw (d, e) (inr (refl, h)) ]
  ]

  query_value_text-Alike :
      p.hex_state ≡ hex_finished
      → Alike k
          (parse_char url_query_value c p r)
          (parse_char url_query_value c (with_prefix k p) r)
  unfolding parse_char parse_url_query_value end_param
  query_value_text-Alike d = elim (Bool-cases (c == b'%')) [
    | inl e ↦ rw (d, e) (inr (refl, h))
    | inr e1 ↦ elim (Bool-cases (c == b'&')) [
      | inl e ↦ rw (d, e1, e) (inr (refl, refl))
      | inr e2 ↦ elim (Bool-cases (c == b'#')) [
        | inl e ↦ rw (d, e1, e2, e) (inr (refl, refl))
        | inr e3 ↦ elim (Bool-cases (c == b'+')) [
          | inl e ↦ rw (d, e1, e2, e3, e) (inr (refl, h))
          | inr e4 ↦ elim (Bool-cases (is_url_char c && not (c == b'?'))) [
            | inl e ↦ rw (d, e1, e2, e3, e4, e) (inr (refl, h))
            | inr e5 ↦ elim (Bool-cases (c == b' ')) [
              | inl e ↦ rw (d, e1, e2, e3, e4, e5, e) (inl refl)
              | inr e ↦ rw (d, e1, e2, e3, e4, e5, e) (inr (refl, h))
            ]
          ]
        ]
      ]
    ]
  ]

  query_value-Alike :
      Alike k (parse_char url_query_value c p r) (parse_char url_query_value c (with_prefix k p) r)
  query_value-Alike = elim (HexState-cases p.hex_state) [
    | inl d ↦ query_value_hex-Alike (inl d)
    | inr (inl d) ↦ query_value_hex-Alike (inr d)
    | inr (inr d) ↦ query_value_text-Alike d
  ]

  -- A handler of any other state does not see the position.
  pub parse_char-Alike :
      (s : State)
      → is_version s ≡ false
      → Alike k (parse_char s c p r) (parse_char s c (with_prefix k p) r)
  unfolding parse_char
  parse_char-Alike method g = method-Alike
  parse_char-Alike url_path g = url_path-Alike
  parse_char-Alike url_query_field g = query_field-Alike
  parse_char-Alike url_query_value g = query_value-Alike
  parse_char-Alike url_fragment g = url_fragment-Alike
  parse_char-Alike version g = cc
  parse_char-Alike major_version g = major_version-Alike
  parse_char-Alike minor_version g = minor_version-Alike
  parse_char-Alike header g = header-Alike
  parse_char-Alike header_key g = header_key-Alike
  parse_char-Alike header_value_begin g = header_value_begin-Alike
  parse_char-Alike header_value g = header_value-Alike
  parse_char-Alike header_newline g = header_newline-Alike
  parse_char-Alike header_finish g = header_finish-Alike
  parse_char-Alike body g = inr (refl, h)
