-- ===== src/Json/Parser/OpenStrings.antt =====
-- Strings that the text ends in.
use oos.Prelude.{
  suc, ◌+◌, ◌*◌, ◌≡◌, ◌∙◌, refl, false, [], ◌∷◌, ◌++◌, append_assoc, append-nil, ◌==◌, arith,
  length,
}
use oos.Prelude.Bytes.{Bytes}
use oos.Prelude.Outcome.{ok}
use oos.Json.Scalar.{CLibrary, on_string, plain, string_loop, parse_json_string, parse_scalar}
use oos.Json.Scalar.Reads.{IsPlain}
use oos.Json.Parser.{parse_json_value, parse_json}
use oos.Json.Parser.Reads.{scalar-step}

string_loop-open : (value s : Bytes) → IsPlain s → string_loop plain value s ≡ ok (value ++ s, [])
unfolding string_loop
string_loop-open value [] h = rw (append-nil value) refl
string_loop-open value (c ∷ cs) (_, q, b, h) =
    let e : (c == b'"') ≡ false = ground (arith, q) in
    let d : (c == b'\\') ≡ false = ground (arith, b) in
    rw (e, d) (string_loop-open (value ++ c ∷ []) cs h ∙ rw (append_assoc value (c ∷ []) cs) refl)

-- A text that is a string with no closing quote, no backslash and no 0 byte is accepted, as the string
-- of its characters behind the quote.
pub parse_json-open :
    (lib : CLibrary) (s : Bytes) → IsPlain s → parse_json lib (b'"' ∷ s) ≡ ok (on_string s ∷ [])
unfolding parse_json parse_scalar parse_json_string
parse_json-open lib s h =
    let enough : 4 * suc (length s) + 4 ≡ suc (4 * length s + 7) = omega arith in
    let read : parse_json_value lib (suc (4 * length s + 7)) (b'"' ∷ s)
        ≡ ok (on_string s ∷ [], []) =
      scalar-step lib (λ _. []) (4 * length s + 7) b'"' (b'"' ∷ s) s refl refl refl
      ∙ rw (string_loop-open [] s h) refl in
    rw (enough, read) refl
