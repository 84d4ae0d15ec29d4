-- ===== src/Http/RequestParser/Scan.antt =====
-- What `scan` does with a message in two parts, and the steps of the loop one by one.
use oos.Prelude.{◌≡◌, refl, true, false, [], ◌∷◌, ◌++◌, ◌==◌, Bool-cases, inl, inr}
use oos.Prelude.Bytes.{Bytes}
use oos.Http.Types.{Request}
use oos.Http.ParserState.{State, Parser, Outcome}
use oos.Http.RequestParser.{
  parse_char, finishes, Scanned, stopped, refused, finished, exhausted, continue, scan,
}

-- What is left of a scan when more bytes come.
unfoldable pub resume : Scanned → Bytes → Scanned
resume (stopped p r) ys = stopped p r
resume (refused p r) ys = refused p r
resume (finished p r rest) ys = finished p r (rest ++ ys)
resume (exhausted p r) ys = scan ys p r

continue-resume :
    (s : State) (o : Outcome) (xs ys : Bytes) (f g : Parser → Request → Scanned)
    → ((p : Parser) (r : Request) → g p r ≡ resume (f p r) ys)
    → continue s o (xs ++ ys) g ≡ resume (continue s o xs f) ys
unfolding continue resume
continue-resume s (false, p, r) xs ys f g h = refl
continue-resume s (true, p, r) xs ys f g h = elim (Bool-cases (finishes s)) [
  | inl e ↦ rw (e, continue, finishes) refl
  | inr e ↦ rw (e, continue, finishes) (h p r)
]

-- The loop over a message in two parts is the loop over the first part and, where that ends with
-- its bytes, the loop over the second from the state that is left.
pub scan-append :
    (xs ys : Bytes) (p : Parser) (r : Request) → scan (xs ++ ys) p r ≡ resume (scan xs p r) ys
unfolding scan resume
scan-append [] ys p r = refl
scan-append (c ∷ cs) ys p r = elim (Bool-cases (c == 0)) [
  | inl e ↦ rw e refl
  | inr e ↦
      rw e (
        continue-resume p.state (parse_char p.state c p r) cs ys _ _ (λ q t. scan-append cs ys q t))
]
