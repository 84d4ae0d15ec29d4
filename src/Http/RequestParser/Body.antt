-- ===== src/Http/RequestParser/Body.antt =====
-- A body that arrives in several packets.
use oos.Prelude.{
  ℕ, ◌+◌, ◌-◌, ◌%◌, ◌^◌, ◌<◌, ◌≤◌, ◌≡◌, refl, ap, ◌∙◌, true, List, [], ◌∷◌, ◌++◌, length,
  length-append, append_assoc, append-nil, some, arith,
}
use oos.Prelude.Bytes.{Bytes}
use oos.Prelude.Fallible.{◌>>=◌}
use oos.Http.Chars.{stoul}
use oos.Http.Types.{Request}
use oos.Http.ParserState.{State, Parser, method, body, Return, partial, finish}
use oos.Http.RequestParser.{
  parse, is_body, parse_rest, end_parse, read_body, has_body, process_body, receive, receive_next,
}

-- The answer to the whole body.
abbrev pub complete : Parser × Request → Return × Parser × Request
complete (p, r) = (finish, record p { state = method }, r)

missing_lem : (n m : ℕ) → m ≤ n → n < 2 ^ 64 → (n + 2 ^ 64 - m) % 2 ^ 64 ≡ n - m
missing_lem n m h k = omega arith

module _ (rest : Bytes) (p : Parser) (r : Request) (n : ℕ) (e : stoul r.content.length ≡ some n)
    (h : n < 2 ^ 64) where
  -- A packet with all that is missing.
  read_body-last :
      length r.body + length rest ≡ n
      → 0 < length rest
      → read_body rest partial p r
        ≡ some (complete (process_body p (record r { body = r.body ++ rest })))
  unfolding read_body
  read_body-last d g =
      let i : (n + 2 ^ 64 - length r.body) % 2 ^ 64 ≡ length rest =
        missing_lem n (length r.body) (omega arith) h ∙ omega arith in
      rw (e, read_body, i) (ground arith)

  read_body-more :
      length r.body + length rest < n
      → read_body rest partial p r ≡ some (partial, p, record r { body = r.body ++ rest })
  unfolding read_body
  read_body-more d =
      let i : (n + 2 ^ 64 - length r.body) % 2 ^ 64 ≡ n - length r.body =
        missing_lem n (length r.body) (omega arith) h in
      rw (e, read_body, i) (ground arith)

-- All bytes of a list of packets.
abbrev pub joined : List Bytes → Bytes
joined [] = []
joined (x ∷ xs) = x ++ joined xs

abbrev pub NonEmpty : List Bytes → Type 0
NonEmpty [] = Unit
NonEmpty (x ∷ xs) = (0 < length x) × NonEmpty xs

abbrev started : Parser → Parser
started p = record p { http_prefix_index = 0 }

is_body_lem : (s : State) → s ≡ body → is_body s ≡ true
unfolding is_body
is_body_lem s h = ap is_body h

parse-body :
    (rest : Bytes) (p : Parser) (r : Request)
    → p.state ≡ body
    → has_body r.method ≡ true
    → parse rest p r ≡ (read_body rest partial (started p) r >>= (λ t. some (end_parse t)))
unfolding parse parse_rest
parse-body rest p r s m = rw (is_body_lem p.state s, m) refl

module _ (p : Parser) (s : p.state ≡ body) (n : ℕ) (h : n < 2 ^ 64) where
  parse-last :
      (rest : Bytes) (r : Request)
      → stoul r.content.length ≡ some n
      → has_body r.method ≡ true
      → length r.body + length rest ≡ n
      → 0 < length rest
      → parse rest p r
        ≡ some (complete (process_body (started p) (record r { body = r.body ++ rest })))
  unfolding end_parse
  parse-last rest r e m d g =
      parse-body rest p r s m ∙ rw (read_body-last rest (started p) r n e h d g) refl

  parse-more :
      (rest : Bytes) (r : Request)
      → stoul r.content.length ≡ some n
      → has_body r.method ≡ true
      → length r.body + length rest < n
      → parse rest p r ≡ some (partial, started p, record r { body = r.body ++ rest })
  unfolding end_parse
  parse-more rest r e m d =
      parse-body rest p r s m ∙ rw (read_body-more rest (started p) r n e h d) refl

length-joined : (xs : List Bytes) (x : Bytes) → NonEmpty (x ∷ xs) → 0 < length (joined (x ∷ xs))
length-joined xs x h = omega (arith, length-append x (joined xs), h.0)

-- The non-empty packets of the body of a POST or PUT, which together bring it to the announced
-- length, end the request with that body; form data is then taken from it.
pub receive-body :
    (xs : List Bytes) (x : Bytes) (p : Parser) (r : Request) (n : ℕ)
    → stoul r.content.length ≡ some n
    → n < 2 ^ 64
    → p.state ≡ body
    → has_body r.method ≡ true
    → NonEmpty (x ∷ xs)
    → length r.body + length (joined (x ∷ xs)) ≡ n
    → receive (x ∷ xs) p r
      ≡ some (complete (process_body (started p) (record r { body = r.body ++ joined (x ∷ xs) })))
unfolding receive receive_next
receive-body [] x p r n e h s m g d =
    rw (append-nil x) (rw (parse-last p s n h x r e m (rw⁻¹ (append-nil x) d) (g.0)) refl)
receive-body (y ∷ ys) x p r n e h s m g d =
    let len : length r.body + length x < n =
      omega (arith, length-append x (joined (y ∷ ys)), length-joined ys y (g.1), d) in
    let all : length (r.body ++ x) + length (joined (y ∷ ys)) ≡ n =
      omega (arith, length-append x (joined (y ∷ ys)), length-append r.body x, d) in
    rw (parse-more p s n h x r e m len, ← append_assoc r.body x (joined (y ∷ ys)))
      (receive-body ys y (started p) (record r { body = r.body ++ x }) n e h s m (g.1) all)
