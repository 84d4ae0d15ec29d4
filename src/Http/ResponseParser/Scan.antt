-- ===== src/Http/ResponseParser/Scan.antt =====
-- What `scan` does with a message in two parts, and with a status line.
use oos.Prelude.{◌≡◌, refl, false, true, [], ◌∷◌, ◌++◌, none, some, Bool-cases, inl, inr}
use oos.Prelude.Bytes.{Bytes}
use oos.Http.ResponseState.{State, Parser, Response, Outcome}
use oos.Http.ResponseParser.{
  parse_char, finishes, Scanned, thrown, refused, finished, exhausted, continue, scan,
}

-- What is left of a scan when more bytes come.
unfoldable pub resume : Scanned → Bytes → Scanned
resume thrown ys = thrown
resume (refused p r) ys = refused p r
resume (finished p r rest) ys = finished p r (rest ++ ys)
resume (exhausted p r) ys = scan ys p r

continue-resume :
    (s : State) (o : Outcome) (xs ys : Bytes) (f g : Parser → Response → Scanned)
    → ((p : Parser) (r : Response) → g p r ≡ resume (f p r) ys)
    → continue s o (xs ++ ys) g ≡ resume (continue s o xs f) ys
unfolding continue resume
continue-resume s none xs ys f g h = refl
continue-resume s (some (false, p, r)) xs ys f g h = refl
continue-resume s (some (true, p, r)) xs ys f g h = elim (Bool-cases (finishes s)) [
  | inl e ↦ rw (e, continue, finishes) refl
  | inr e ↦ rw (e, continue, finishes) (h p r)
]

-- The loop over a response in two parts is the loop over the first part and, where that ends with
-- its bytes, the loop over the second from the state that is left.
pub scan_response-append :
    (xs ys : Bytes) (p : Parser) (r : Response) → scan (xs ++ ys) p r ≡ resume (scan xs p r) ys
unfolding scan resume
scan_response-append [] ys p r = refl
scan_response-append (c ∷ cs) ys p r =
    continue-resume p.state (parse_char p.state c p r) cs ys _ _
      (λ q t. scan_response-append cs ys q t)
