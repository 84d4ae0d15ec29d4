-- ===== src/Json/Scalar/Reads.antt =====
-- The texts of the scalars, read by the parser.
use oos.Prelude.{
  ℕ, zero, suc, ◌+◌, ◌-◌, ◌*◌, ◌/◌, ◌%◌, ◌^◌, ◌<◌, ◌≡◌, ◌≢◌, ◌∙◌, refl, ap, sym, Bool, true, false,
  ◌||◌, [], ◌∷◌, ◌++◌, append_assoc, append-nil, some, ◌==◌, leb, ltb, arith, Bool-cases, inl, inr,
}
use oos.Prelude.Bytes.{Bytes}
use oos.Prelude.Int.{ℤ, pos, negsuc}
use oos.Prelude.Outcome.{ok}
use oos.Json.Print.{digits, integer_text}
use oos.Json.Scalar.{
  plain, string_loop, parse_json_string, is_digit, digit_loop, starts_digit, strtoll, ends_number,
  starts_with,
}

-- A string that is printed as it was: no quote, no backslash and no 0 byte.
abbrev pub IsPlain : Bytes → Type 0
IsPlain [] = Unit
IsPlain (c ∷ cs) = (0 < c) × (c ≢ b'"') × (c ≢ b'\\') × IsPlain cs

string_loop-plain :
    (value s rest : Bytes)
    → IsPlain s
    → string_loop plain value (s ++ b'"' ∷ rest) ≡ ok (value ++ s, rest)
unfolding string_loop
string_loop-plain value [] rest h = rw (append-nil value) refl
string_loop-plain value (c ∷ cs) rest (_, q, b, h) =
    let e : (c == b'"') ≡ false = ground (arith, q) in
    let d : (c == b'\\') ≡ false = ground (arith, b) in
    rw (e, d)
      (string_loop-plain (value ++ c ∷ []) cs rest h ∙ rw (append_assoc value (c ∷ []) cs) refl)

pub parse_json_string-plain :
    (s rest : Bytes) → IsPlain s → parse_json_string (b'"' ∷ (s ++ b'"' ∷ rest)) ≡ ok (s, rest)
unfolding parse_json_string
parse_json_string-plain s rest h = string_loop-plain [] s rest h

-- A number ends in front of such a text.
abbrev pub Stops : Bytes → Type 0
Stops rest = ends_number rest ≡ true

digit_loop-Stops : (n : ℕ) (rest : Bytes) → Stops rest → digit_loop n rest ≡ (n, rest)
unfolding digit_loop ends_number
digit_loop-Stops n [] h = refl
digit_loop-Stops n (c ∷ cs) h = let e : is_digit c ≡ false = ground (arith, h) in rw e refl

pub not_point : (rest : Bytes) → Stops rest → starts_with b'.' rest ≡ false
unfolding ends_number
not_point [] h = refl
not_point (c ∷ cs) h = ground (arith, h)

digit_loop-digit :
    (n d : ℕ) (rest : Bytes)
    → d < 10
    → digit_loop n ((b'0' + d) ∷ rest) ≡ digit_loop (10 * n + d) rest
unfolding digit_loop
digit_loop-digit n d rest h =
    let e : is_digit (b'0' + d) ≡ true = ground (arith, h) in
    let s : 10 * n + (b'0' + d - b'0') ≡ 10 * n + d = omega arith in rw (e, s) refl

digit_loop-digits :
    (fuel n : ℕ) (rest : Bytes)
    → n < fuel
    → digit_loop 0 (digits fuel n ++ rest) ≡ digit_loop n rest
unfolding digits
digit_loop-digits zero n rest h = absurd (omega (arith, h))
digit_loop-digits (suc fuel) n rest h = elim (Bool-cases (ltb n 10)) [
  | inl e ↦
      let s : 10 * 0 + n ≡ n = omega arith in
      rw e (digit_loop-digit 0 n rest (ground (arith, e)) ∙ ap (λ (k : ℕ). digit_loop k rest) s)
  | inr e ↦
      let s : 10 * (n / 10) + n % 10 ≡ n = omega arith in
      rw (e, append_assoc (digits fuel (n / 10)) ((b'0' + n % 10) ∷ []) rest)
        (digit_loop-digits fuel (n / 10) ((b'0' + n % 10) ∷ rest) (ground (arith, e, h))
          ∙ digit_loop-digit (n / 10) (n % 10) rest (omega arith)
          ∙ rw s refl)
]

-- The digits of a number begin with one.
digits-cons :
    (fuel n : ℕ)
    → n < fuel
    → (c : ℕ) × (cs : Bytes) × (digits fuel n ≡ c ∷ cs) × (is_digit c ≡ true)
unfolding digits
digits-cons zero n h = absurd (omega (arith, h))
digits-cons (suc fuel) n h = elim (Bool-cases (ltb n 10)) [
  | inl e ↦ (b'0' + n, [], rw e refl, ground (arith, e))
  | inr e ↦
      let (c, cs, d, g) = digits-cons fuel (n / 10) (ground (arith, e, h)) in
      (c, cs ++ (b'0' + n % 10) ∷ [], rw (e, d) refl, g)
]

-- The range of `long long`
abbrev pub IsLong : ℤ → Type 0
IsLong (pos n) = n < 2 ^ 63
IsLong (negsuc n) = n < 2 ^ 63

strtoll-pos :
    (n : ℕ) (rest : Bytes)
    → n < 2 ^ 63
    → Stops rest
    → strtoll (digits (suc n) n ++ rest) ≡ some (pos n, rest)
unfolding strtoll
strtoll-pos n rest h s =
    let (c, cs, e, d) = digits-cons (suc n) n (omega arith) in
    let minus : (c == b'-') ≡ false = ground (arith, d) in
    let fits : ltb n (2 ^ 63) ≡ true = ground (arith, h) in
    let read : digit_loop 0 (c ∷ (cs ++ rest)) ≡ (n, rest) =
      ap (λ (t : Bytes). digit_loop 0 (t ++ rest)) (sym e)
      ∙ digit_loop-digits (suc n) n rest (omega arith)
      ∙ digit_loop-Stops n rest s in
    rw (e, minus, read, d, fits) refl

strtoll-negsuc :
    (n : ℕ) (rest : Bytes)
    → n < 2 ^ 63
    → Stops rest
    → strtoll (b'-' ∷ (digits (suc (suc n)) (suc n) ++ rest)) ≡ some (negsuc n, rest)
unfolding strtoll
strtoll-negsuc n rest h s =
    let (c, cs, e, d) = digits-cons (suc (suc n)) (suc n) (omega arith) in
    let fits : leb (suc n) (2 ^ 63) ≡ true = ground (arith, h) in
    let read : digit_loop 0 (digits (suc (suc n)) (suc n) ++ rest) ≡ (suc n, rest) =
      digit_loop-digits (suc (suc n)) (suc n) rest (omega arith)
      ∙ digit_loop-Stops (suc n) rest s in
    let first : starts_digit (digits (suc (suc n)) (suc n) ++ rest) ≡ true = rw e d in
    rw (read, first, fits) refl

pub strtoll-integer_text :
    (n : ℤ) (rest : Bytes)
    → IsLong n
    → Stops rest
    → strtoll (integer_text n ++ rest) ≡ some (n, rest)
unfolding integer_text
strtoll-integer_text (pos n) rest h s = strtoll-pos n rest h s
strtoll-integer_text (negsuc n) rest h s = strtoll-negsuc n rest h s

-- The first character of a number
abbrev pub starts_number : ℕ → Bool
starts_number c = c == b'-' || is_digit c || c == b'.'

pub integer_text-cons :
    (n : ℤ) → (c : ℕ) × (cs : Bytes) × (integer_text n ≡ c ∷ cs) × (starts_number c ≡ true)
unfolding integer_text
integer_text-cons (pos n) =
    let (c, cs, e, d) = digits-cons (suc n) n (omega arith) in (c, cs, e, ground (arith, d))
integer_text-cons (negsuc n) = (b'-', digits (suc (suc n)) (suc n), refl, refl)
