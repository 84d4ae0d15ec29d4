-- ===== src/Http/RequestParser/Packets.antt =====
-- A request that arrives in several packets.
use oos.Prelude.{
  ℕ, ◌≡◌, ◌≢◌, refl, sym, true, false, [], ◌∷◌, ◌++◌, ◌==◌, Bool-cases, inl, inr, some, arith,
}
use oos.Prelude.Bytes.{Bytes}
use oos.Http.Types.{Request}
use oos.Http.RequestLine.{parse_version, prefix_char}
use oos.Http.ParserState.{State, Parser, Outcome, version, invalid}
use oos.Http.RequestParser.{
  parse_char, finishes, Scanned, stopped, refused, finished, exhausted, continue, scan, conclude,
  parse, is_body,
}
use oos.Http.RequestParser.Scan.{resume, scan-append}
use oos.Http.RequestParser.Prefix.{with_prefix, is_version, Alike, parse_char-Alike}

-- A result but for the position in the prefix, which each call of `parse` sets back.
abbrev pub settled : Scanned → Scanned
settled (stopped p r) = stopped (with_prefix 0 p) r
settled (refused p r) = refused (with_prefix 0 p) r
settled (finished p r rest) = finished (with_prefix 0 p) r rest
settled (exhausted p r) = exhausted (with_prefix 0 p) r

continue-settled :
    (s : State) (k : ℕ) (o o' : Outcome) (cs : Bytes) (f : Parser → Request → Scanned)
    → Alike k o o'
    → ((p : Parser) (r : Request)
        → is_version p.state ≡ false
        → settled (f (with_prefix k p) r) ≡ settled (f p r))
    → settled (continue s o' cs f) ≡ settled (continue s o cs f)
unfolding continue
continue-settled s k (ok, p, r) o' cs f (inl e) h = rw e refl
continue-settled s k (false, p, r) o' cs f (inr (e, d)) h = rw e refl
continue-settled s k (true, p, r) o' cs f (inr (e, d)) h = rw e (elim (Bool-cases (finishes s)) [
  | inl g ↦ rw (g, continue, finishes) refl
  | inr g ↦ rw (g, continue, finishes) (h p r d)
])

pub scan-settled :
    (xs : Bytes) (k : ℕ) (p : Parser) (r : Request)
    → is_version p.state ≡ false
    → settled (scan xs (with_prefix k p) r) ≡ settled (scan xs p r)
unfolding scan
scan-settled [] k p r h = refl
scan-settled (c ∷ cs) k p r h = elim (Bool-cases (c == 0)) [
  | inl e ↦ rw e refl
  | inr e ↦ rw e (
      continue-settled p.state k _ _ cs _ (parse_char-Alike k c p r h p.state h)
        (λ q t g. scan-settled cs k q t g))
]

-- A header split between two packets is read as in one, unless the split is inside of the version.
pub scan-packets :
    (xs ys : Bytes) (p q : Parser) (r s : Request)
    → scan xs p r ≡ exhausted q s
    → is_version q.state ≡ false
    → settled (scan (xs ++ ys) p r) ≡ settled (scan ys (with_prefix 0 q) s)
unfolding resume
scan-packets xs ys p q r s e h = rw (scan-append xs ys p r, e) (sym (scan-settled ys 0 q s h))

-- A packet that does not begin with `H` is refused in the state `version`, even where the packets
-- before have brought a part of `HTTP`, or all of it.
pub split_version-invalid :
    (c : ℕ) (cs : Bytes) (p : Parser) (r : Request)
    → p.state ≡ version
    → c ≢ 0
    → c ≢ b'H'
    → parse (c ∷ cs) p r ≡ some (invalid, record p { http_prefix_index = 1 }, r)
unfolding parse scan conclude is_body parse_char parse_version prefix_char continue
split_version-invalid c cs p r s h g =
    let e : (c == 0) ≡ false = ground arith in
    let d : (c == b'H') ≡ false = ground arith in rw (s, e, d) refl
