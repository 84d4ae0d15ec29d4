-- ===== src/Http/RequestParser/Settled.antt =====
-- The position in `HTTP_VERSION_PREFIX` behind the loop of `parse`: nothing there reads it.
use oos.Prelude.{
  ◌⊎◌, ℕ, ◌≡◌, ◌∙◌, refl, sym, ap, Bool, true, false, not, ◌&&◌, [], ◌∷◌, ◌++◌, ◌==◌, Option, none,
  some, if◌then◌else◌, Bool-cases, Option-cases, inl, inr, arith, ltb, length, ◌+◌, ◌-◌, ◌%◌, ◌^◌,
}
use oos.Prelude.Bytes.{Bytes, codes, equal}
use oos.Prelude.Fallible.{◌>>=◌}
use oos.Http.Chars.{is_url_char, is_hex_char, stoul}
use oos.Http.Types.{Request, ParamMap, insert_param}
use oos.Http.RequestLine.{parse_url_query_field, parse_url_query_value, end_param}
use oos.Http.ParserState.{
  hex_first, hex_second, hex_finished, State, Parser, method, url_query_field, url_query_value,
  Return, invalid, partial, finish,
}
use oos.Http.RequestParser.{
  Scanned, stopped, refused, finished, exhausted, form_step, form_next, form_loop, parse_form_data,
  process_body, read_body, is_body, has_body, end_parse, parse_rest, conclude,
}
use oos.Http.RequestParser.Prefix.{with_prefix, HexState-cases}
use oos.Http.RequestParser.Packets.{settled}

-- A result of `parse` but for the position, which the next call sets back.
abbrev pub settle : Option (Return × Parser × Request) → Option (Return × Parser × Request)
settle none = none
settle (some (result, p, r)) = some (result, with_prefix 0 p, r)

-- Results of the loop over the form, and of its end, likewise.
abbrev settled_form : Bool × Parser × ParamMap → Bool × Parser × ParamMap
settled_form (b, p, m) = (b, with_prefix 0 p, m)

abbrev settled_pair : Parser × Request → Parser × Request
settled_pair (p, r) = (with_prefix 0 p, r)

module _ (k c : ℕ) (p : Parser) (m : ParamMap) where
  -- A step in the state `s` does not see the position.
  abbrev StepSettled : State → Type 0
  StepSettled s =
      settled_form (form_step s c (with_prefix k p) m) ≡ settled_form (form_step s c p m)

  field-StepSettled : StepSettled url_query_field
  unfolding form_step parse_url_query_field
  field-StepSettled = ground arith

  hex-StepSettled :
      (p.hex_state ≡ hex_first) ⊎ (p.hex_state ≡ hex_second) → StepSettled url_query_value
  unfolding form_step parse_url_query_value
  hex-StepSettled g = elim (Bool-cases (is_hex_char c)) [
    | inl e ↦ elim g [ inl d ↦ rw (d, e) refl | inr d ↦ rw (d, e) refl ]
    | inr e ↦ elim g [ inl d ↦ rw (d, e) refl | inr d ↦ rw (d, e) refl ]
  ]

  text-StepSettled : p.hex_state ≡ hex_finished → StepSettled url_query_value
  unfolding form_step parse_url_query_value end_param
  text-StepSettled d = elim (Bool-cases (c == b'%')) [
    | inl e ↦ rw (d, e) refl
    | inr e1 ↦ elim (Bool-cases (c == b'&')) [
      | inl e ↦ rw (d, e1, e) refl
      | inr e2 ↦ elim (Bool-cases (c == b'#')) [
        | inl e ↦ rw (d, e1, e2, e) refl
        | inr e3 ↦ elim (Bool-cases (c == b'+')) [
          | inl e ↦ rw (d, e1, e2, e3, e) refl
          | inr e4 ↦ elim (Bool-cases (is_url_char c && not (c == b'?'))) [
            | inl e ↦ rw (d, e1, e2, e3, e4, e) refl
            | inr e5 ↦ elim (Bool-cases (c == b' ')) [
              | inl e ↦ rw (d, e1, e2, e3, e4, e5, e) refl
              | inr e ↦ rw (d, e1, e2, e3, e4, e5, e) refl
            ]
          ]
        ]
      ]
    ]
  ]

  form_step-StepSettled : (s : State) → StepSettled s
  unfolding form_step
  form_step-StepSettled url_query_field = field-StepSettled
  form_step-StepSettled url_query_value = elim (HexState-cases p.hex_state) [
    | inl d ↦ hex-StepSettled (inl d)
    | inr (inl d) ↦ hex-StepSettled (inr d)
    | inr (inr d) ↦ text-StepSettled d
  ]
  form_step-StepSettled _ = refl

form_next-settled :
    (t : Bool × Parser × ParamMap) (f : Parser → ParamMap → Bool × Parser × ParamMap)
    → ((p : Parser) (m : ParamMap) → settled_form (f (with_prefix 0 p) m) ≡ settled_form (f p m))
    → settled_form (form_next (settled_form t) f) ≡ settled_form (form_next t f)
unfolding form_next
form_next-settled (true, p, m) f h = h p m
form_next-settled (false, p, m) f h = refl

form_loop-settled :
    (cs : Bytes) (b : Bool) (k : ℕ) (p : Parser) (m : ParamMap)
    → settled_form (form_loop cs b (with_prefix k p) m) ≡ settled_form (form_loop cs b p m)
unfolding form_loop
form_loop-settled [] b k p m = refl
form_loop-settled (c ∷ cs) b k p m = elim (Bool-cases (c == 0)) [
  | inl e ↦ rw e refl
  | inr e ↦
      let loop : Parser → ParamMap → Bool × Parser × ParamMap = λ q n. form_loop cs true q n in
      let next = λ (t : Bool × Parser × ParamMap).
        form_next-settled t loop (λ q n. form_loop-settled cs true 0 q n) in
      rw e (
        sym (next (form_step p.state c (with_prefix k p) m))
        ∙ ap (λ (t : Bool × Parser × ParamMap). settled_form (form_next t loop))
            (form_step-StepSettled k c p m p.state)
        ∙ next (form_step p.state c p m))
]

process_body-settled :
    (k : ℕ) (p : Parser) (r : Request)
    → settled_pair (process_body (with_prefix k p) r) ≡ settled_pair (process_body p r)
unfolding process_body parse_form_data
process_body-settled k p r =
    elim (Bool-cases (equal r.content.type (codes "application/x-www-form-urlencoded"))) [
      | inl e ↦ rw e (
          ap
            (λ (t : Bool × Parser × ParamMap).
              let (ret, q, m) = t in
              (
                record q { current_query_field = [] },
                record r {
                  form_data =
                      if ret && not (equal q.current_query_field [])
                      then insert_param q.current_query_field q.current_query_value m
                      else m;
                },
              ))
            (form_loop-settled r.body false k (record p { state = url_query_field }) r.form_data))
      | inr e ↦ rw e refl
    ]

read_body-settled :
    (rest : Bytes) (result : Return) (k : ℕ) (p : Parser) (r : Request)
    → settle (read_body rest result (with_prefix k p) r) ≡ settle (read_body rest result p r)
unfolding read_body
read_body-settled rest result k p r = elim (Option-cases (stoul r.content.length)) [
  | inl e ↦ rw (settle, e) refl
  | inr (n, e) ↦
      let missing = (n + 2 ^ 64 - length r.body) % 2 ^ 64 in
      elim (Bool-cases (ltb 0 missing)) [
        | inl g ↦ elim (Bool-cases (length rest == missing)) [
          | inl d ↦
              rw (settle, e, g, d)
                (ap (λ (t : Parser × Request). some (finish, record t.0 { state = method }, t.1))
                  (process_body-settled k p (record r { body = r.body ++ rest })))
          | inr d ↦ elim (Bool-cases (ltb (length rest) missing)) [
            | inl l ↦ rw (settle, e, g, d, l) refl
            | inr l ↦ rw (settle, e, g, d, l) refl
          ]
        ]
        | inr g ↦ elim (Bool-cases (ltb 0 (length rest))) [
          | inl d ↦ rw (settle, e, g, d) refl
          | inr d ↦ rw (settle, e, g, d) refl
        ]
      ]
]

abbrev ended : Return × Parser × Request → Option (Return × Parser × Request)
ended t = some (end_parse t)

ended-settled :
    (o : Option (Return × Parser × Request)) → settle (settle o >>= ended) ≡ settle (o >>= ended)
unfolding end_parse
ended-settled none = refl
ended-settled (some (finish, p, r)) = refl
ended-settled (some (invalid, p, r)) = refl
ended-settled (some (partial, p, r)) = refl

parse_rest-settled :
    (rest : Bytes) (result : Return) (k : ℕ) (p : Parser) (r : Request)
    → settle (parse_rest rest result (with_prefix k p) r) ≡ settle (parse_rest rest result p r)
unfolding parse_rest
parse_rest-settled rest result k p r = elim (Bool-cases (is_body p.state && has_body r.method)) [
  | inl e ↦ rw e (
      sym (ended-settled (read_body rest result (with_prefix k p) r))
      ∙ ap (λ (o : Option (Return × Parser × Request)). settle (o >>= ended))
          (read_body-settled rest result k p r)
      ∙ ended-settled (read_body rest result p r))
  | inr e ↦ rw e (
      sym (ended-settled (some (result, with_prefix k p, r))) ∙ ended-settled (some (result, p, r)))
]

-- What stands behind the loop does not see the position.
pub conclude-settled : (t : Scanned) → settle (conclude (settled t)) ≡ settle (conclude t)
unfolding conclude
conclude-settled (stopped p r) = refl
conclude-settled (refused p r) = refl
conclude-settled (finished p r rest) = parse_rest-settled rest finish 0 p r
conclude-settled (exhausted p r) = parse_rest-settled [] partial 0 p r
