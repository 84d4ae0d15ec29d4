-- ===== src/Http/RequestParser/Splits.antt =====
-- A header that is split between two packets, in the read loop of the connection.
use oos.Prelude.{
  ◌≡◌, ◌≢◌, ◌∙◌, refl, sym, ap, true, false, ◌&&◌, List, [], ◌∷◌, ◌++◌, ◌==◌, Option, none, some,
  Bool-cases, inl, inr, arith, AllOf,
}
use oos.Prelude.Bytes.{Bytes}
use oos.Prelude.Fallible.{◌>>=◌}
use oos.Http.Types.{Request}
use oos.Http.ParserState.{State, Parser, Outcome, Return, invalid, partial, finish}
use oos.Http.RequestParser.{
  parse_char, finishes, Scanned, stopped, refused, finished, exhausted, continue, scan, read_body,
  is_body, has_body, end_parse, parse_rest, conclude, parse, receive_next, receive,
}
use oos.Http.RequestParser.Prefix.{with_prefix, is_version}
use oos.Http.RequestParser.Packets.{scan-packets}
use oos.Http.RequestParser.Settled.{settle, conclude-settled}

-- Only a 0 byte stops the loop of `parse`.
continue-ne-stopped :
    (s : State) (o : Outcome) (cs : Bytes) (f : Parser → Request → Scanned) (q : Parser)
    (t : Request)
    → ((p : Parser) (r : Request) → f p r ≢ stopped q t)
    → continue s o cs f ≢ stopped q t
unfolding continue
continue-ne-stopped s (false, p, r) cs f q t h e = cc
continue-ne-stopped s (true, p, r) cs f q t h e = elim (Bool-cases (finishes s)) [
  | inl g ↦ let d : finished p r cs ≡ stopped q t = rw (g, continue) at e in cc
  | inr g ↦ h p r (rw (g, continue) at e)
]

scan-ne-stopped :
    (xs : Bytes) (p q : Parser) (r t : Request) → AllOf (λ c. c ≢ 0) xs → scan xs p r ≢ stopped q t
unfolding scan
scan-ne-stopped [] p q r t h e = cc
scan-ne-stopped (c ∷ cs) p q r t (n, h) e =
    let z : (c == 0) ≡ false = ground arith in
    continue-ne-stopped p.state (parse_char p.state c p r) cs (λ u v. scan cs u v) q t
      (λ u v. scan-ne-stopped cs u q v t h) (rw z at e)

-- Where the body is not complete, the parser is still in it.
read_body-partial :
    (rest : Bytes) (result : Return) (p q : Parser) (r t : Request)
    → (read_body rest result p r >>= λ u. some (end_parse u)) ≡ some (partial, q, t)
    → q ≡ p
unfolding read_body end_parse
read_body-partial rest finish p q r t e = ground arith
read_body-partial rest invalid p q r t e = ground arith
read_body-partial rest partial p q r t e = ground arith

end_parse-partial :
    (result : Return) (p q : Parser) (r t : Request)
    → some (end_parse (result, p, r)) ≡ some (partial, q, t)
    → (result ≡ partial) × (p ≡ q) × (r ≡ t)
unfolding end_parse
end_parse-partial finish p q r t e = cc
end_parse-partial invalid p q r t e = cc
end_parse-partial partial p q r t e = (refl, cc, cc)

parse_rest-partial :
    (rest : Bytes) (result : Return) (p q : Parser) (r t : Request)
    → parse_rest rest result p r ≡ some (partial, q, t)
    → is_body q.state ≡ false
    → (result ≡ partial) × (p ≡ q) × (r ≡ t)
unfolding parse_rest end_parse
parse_rest-partial rest result p q r t e b =
    elim (Bool-cases (is_body p.state && has_body r.method)) [
      | inl g ↦
          let same : q ≡ p = read_body-partial rest result p q r t (rw g at e) in
          let there : is_body p.state ≡ true = ground arith in
          let d : is_body q.state ≡ true = rw same there in cc
      | inr g ↦ end_parse-partial result p q r t (rw g at e)
    ]

-- A packet without a 0 byte that leaves the request unfinished, in front of its body.
conclude-exhausted :
    (o : Scanned) (q : Parser) (t : Request)
    → ((u : Parser) (v : Request) → o ≢ stopped u v)
    → conclude o ≡ some (partial, q, t)
    → is_body q.state ≡ false
    → o ≡ exhausted q t
unfolding conclude
conclude-exhausted (stopped p r) q t n e b = absurd (n p r refl)
conclude-exhausted (refused p r) q t n e b = cc
conclude-exhausted (finished p r rest) q t n e b =
    let (f, d, g) = parse_rest-partial rest finish p q r t e b in cc
conclude-exhausted (exhausted p r) q t n e b =
    let (f, d, g) = parse_rest-partial [] partial p q r t e b in rw (d, g) refl

receive-start :
    (zs : List Bytes) (p : Parser) (r : Request)
    → settle (receive zs (with_prefix 0 p) r) ≡ settle (receive zs p r)
unfolding receive parse
receive-start [] p r = refl
receive-start (x ∷ xs) p r = refl

module _ (zs : List Bytes) where
  abbrev read_on : Return × Parser × Request → Option (Return × Parser × Request)
  read_on t = receive_next t (λ q s. receive zs q s)

  read_on-settled :
      (o : Option (Return × Parser × Request))
      → settle (settle o >>= read_on) ≡ settle (o >>= read_on)
  unfolding receive_next
  read_on-settled none = refl
  read_on-settled (some (finish, p, r)) = refl
  read_on-settled (some (invalid, p, r)) = refl
  read_on-settled (some (partial, p, r)) = receive-start zs p r

-- Where the parser is in front of the body before and behind a packet `xs`, which has no 0 byte and
-- leaves the request unfinished, and the split is not inside of the version: reading `xs` and `ys` as
-- two packets, and any others behind them, gives what one packet with both gives, but for the position
-- in `HTTP`, which the next packet sets back.
pub receive-packets :
    (xs ys : Bytes) (zs : List Bytes) (p q : Parser) (r t : Request)
    → is_body p.state ≡ false
    → AllOf (λ c. c ≢ 0) xs
    → parse xs p r ≡ some (partial, q, t)
    → is_body q.state ≡ false
    → is_version q.state ≡ false
    → settle (receive (xs ∷ ys ∷ zs) p r) ≡ settle (receive ((xs ++ ys) ∷ zs) p r)
unfolding receive receive_next parse
receive-packets xs ys zs p q r t b n e c v =
    let start = with_prefix 0 p in
    let s : scan xs start r ≡ exhausted q t =
      conclude-exhausted (scan xs start r) q t (λ u w. scan-ne-stopped xs start u r w n) (rw b at e)
        c in
    let whole = scan (xs ++ ys) start r in
    let behind = scan ys (with_prefix 0 q) t in
    let same : settle (conclude behind) ≡ settle (conclude whole) =
      sym (conclude-settled behind)
      ∙ ap (λ (o : Scanned). settle (conclude o)) (sym (scan-packets xs ys start q r t s v))
      ∙ conclude-settled whole in
    rw (e, b, c)
      (sym (read_on-settled zs (conclude behind))
        ∙ ap (λ (o : Option (Return × Parser × Request)). settle (o >>= read_on zs)) same
        ∙ read_on-settled zs (conclude whole))
