-- ===== src/Json/Scalar/Ending.antt =====
-- The scalars end, and what they leave of a text is shorter.
use oos.Prelude.{
  ℕ, suc, ◌+◌, ◌-◌, ◌*◌, ◌<◌, ◌≤◌, ◌≡◌, true, false, ◌||◌, [], ◌∷◌, ◌++◌, some, length, ◌==◌,
  if◌then◌else◌, arith,
}
use oos.Prelude.Bytes.{Bytes, codes}
use oos.Prelude.Int.{ℤ}
use oos.Prelude.Outcome.{
  Outcome, ok, thrown, undefined, ◌>>=◌, Ends, returns, throws, leaves, Ends-if, Ends-bind,
  Ends-weaken, Ends-option,
}
use oos.Json.Scalar.{
  CLibrary, Event, on_bool, on_null, Mode, plain, escape, hex, after_digit, skip_ws, control,
  isxdigit, string_loop, parse_json_string, is_digit, digit_loop, strtoll, ends_number, starts_with,
  compare_string, single, parse_json_bool, parse_json_null, parse_colon, parse_close,
  parse_json_number, is_error, parse_scalar,
}

pub length-skip_ws : (s : Bytes) → length (skip_ws s) ≤ length s
unfolding skip_ws
length-skip_ws [] = omega arith
length-skip_ws (c ∷ cs) = ground (arith, length-skip_ws cs)

-- A part that leaves a text of at most, or of less than, `n` bytes.
abbrev pub LeavesAtMost {ℓ} : {A : Type ℓ} → ℕ → Outcome (A × Bytes) → Type ℓ
LeavesAtMost n r = Ends (λ (_, rest). length rest ≤ n) r

abbrev pub LeavesLess {ℓ} : {A : Type ℓ} → ℕ → Outcome (A × Bytes) → Type ℓ
LeavesLess n r = Ends (λ (_, rest). length rest < n) r

longer {ℓ} :
    {A : Type ℓ} {n : ℕ} {r : Outcome (A × Bytes)} → LeavesAtMost n r → LeavesAtMost (suc n) r
longer h = Ends-weaken (λ a p. omega (arith, p)) h

string_loop-Ends : (m : Mode) (value s : Bytes) → LeavesAtMost (length s) (string_loop m value s)
unfolding string_loop
string_loop-Ends plain value [] = returns (omega arith)
string_loop-Ends escape value [] = throws
string_loop-Ends (hex n) value [] = throws
string_loop-Ends plain value (c ∷ cs) = Ends-if (c == b'"') (returns (omega arith)) (
    Ends-if (c == b'\\') (longer (string_loop-Ends escape value cs))
      (longer (string_loop-Ends plain (value ++ c ∷ []) cs)))
string_loop-Ends escape value (c ∷ cs) =
    Ends-option (control c)
      (Ends-if (c == b'u') (longer (string_loop-Ends (hex 3) (value ++ b'\\' ∷ b'u' ∷ []) cs))
        throws)
      (λ x e. longer (string_loop-Ends plain (value ++ x ∷ []) cs))
string_loop-Ends (hex n) value (c ∷ cs) =
    Ends-if (isxdigit c) (longer (string_loop-Ends (after_digit n) (value ++ c ∷ []) cs)) throws

pub parse_json_string-Ends : (s : Bytes) → LeavesLess (length s) (parse_json_string s)
unfolding parse_json_string
parse_json_string-Ends s = skipped (skip_ws s) (length-skip_ws s)
  where
    skipped :
        (t : Bytes)
        → length t ≤ length s
        → LeavesLess (length s) (elim t [
          | [] ↦ undefined
          | c ∷ cs ↦ if c == b'"' then string_loop plain [] cs else thrown
        ])
    skipped [] h = leaves
    skipped (c ∷ cs) h =
        Ends-if (c == b'"')
          (Ends-weaken (λ a p. omega (arith, p, h)) (string_loop-Ends plain [] cs)) throws

pub parse_colon-Ends : (s : Bytes) → Ends (λ rest. length rest < length s) (parse_colon s)
unfolding parse_colon
parse_colon-Ends s = skipped (skip_ws s) (length-skip_ws s)
  where
    skipped :
        (t : Bytes)
        → length t ≤ length s
        → Ends
            (λ rest. length rest < length s)
            (elim t [ [] ↦ thrown | c ∷ cs ↦ if c == b':' then ok cs else thrown ])
    skipped [] h = throws
    skipped (c ∷ cs) h = Ends-if (c == b':') (returns (omega (arith, h))) throws

pub parse_close-Ends :
    (bracket : ℕ) (e : Event) (s : Bytes) → LeavesLess (length s) (parse_close bracket e s)
unfolding parse_close
parse_close-Ends bracket e s = skipped (skip_ws s) (length-skip_ws s)
  where
    skipped :
        (t : Bytes)
        → length t ≤ length s
        → LeavesLess
            (length s)
            (elim t [ [] ↦ thrown | c ∷ cs ↦ if c == bracket then single e cs else thrown ])
    skipped [] h = throws
    skipped (c ∷ cs) h = Ends-if (c == bracket) (returns (omega (arith, h))) throws

length-digit_loop : (n : ℕ) (s : Bytes) → length (digit_loop n s).1 ≤ length s
unfolding digit_loop
length-digit_loop n [] = omega arith
length-digit_loop n (c ∷ cs) = ground (arith, length-digit_loop (10 * n + (c - b'0')) cs)

length-strtoll :
    (s : Bytes) (n : ℤ) (rest : Bytes) → strtoll s ≡ some (n, rest) → length rest < length s
unfolding strtoll digit_loop
length-strtoll [] n rest h = cc
length-strtoll (c ∷ cs) n rest h =
    ground (arith, h, length-digit_loop 0 cs, length-digit_loop (10 * 0 + (c - b'0')) cs)

compare_string-Ends :
    (word s : Bytes) → Ends (λ rest. length rest ≤ length s) (compare_string word s)
unfolding compare_string
compare_string-Ends [] s = returns (omega arith)
compare_string-Ends (x ∷ xs) [] = throws
compare_string-Ends (x ∷ xs) (c ∷ s) =
    Ends-if (c == x) (Ends-weaken (λ rest p. omega (arith, p)) (compare_string-Ends xs s)) throws

word-Ends :
    (word s : Bytes) (e : Event)
    → LeavesAtMost (length s) (compare_string word s >>= (λ rest. single e rest))
word-Ends word s e = Ends-bind (compare_string-Ends word s) (λ rest p. returns p)

parse_json_bool-Ends :
    (c : ℕ) (cs : Bytes) → LeavesLess (suc (length cs)) (parse_json_bool (c ∷ cs))
unfolding parse_json_bool
parse_json_bool-Ends c cs =
    Ends-if (c == b't')
      (Ends-weaken (λ a p. omega (arith, p)) (word-Ends (codes "rue") cs (on_bool true)))
      (Ends-if (c == b'f')
        (Ends-weaken (λ a p. omega (arith, p)) (word-Ends (codes "alse") cs (on_bool false)))
        throws)

parse_json_null-Ends :
    (c : ℕ) (cs : Bytes) → LeavesLess (suc (length cs)) (parse_json_null (c ∷ cs))
unfolding parse_json_null
parse_json_null-Ends c cs =
    Ends-weaken (λ a p. omega (arith, p)) (word-Ends (codes "ull") cs on_null)

-- A conversion to a `double` uses a part of the text.
abbrev pub Consumes : CLibrary → Type 0
Consumes lib =
    (s : Bytes) (x : ℕ) (rest : Bytes) → lib.strtod s ≡ some (x, rest) → length rest < length s

module _ (lib : CLibrary) (consumes : Consumes lib) where
  parse_json_number-Ends : (s : Bytes) → LeavesLess (length s) (parse_json_number lib s)
  unfolding parse_json_number
  parse_json_number-Ends s = Ends-option (strtoll s) throws (λ (n, rest) e.
      Ends-if (is_error lib.range_error n) throws (
        Ends-if (starts_with b'.' rest)
          (Ends-option (lib.strtod s) throws
            (λ (x, left) d. Ends-if (ends_number left) (returns (consumes s x left d)) throws))
          (Ends-if (ends_number rest) (returns (length-strtoll s n rest e)) throws)))

  pub parse_scalar-Ends :
      (c : ℕ) (cs : Bytes) → LeavesLess (suc (length cs)) (parse_scalar lib c (c ∷ cs))
  unfolding parse_scalar
  parse_scalar-Ends c cs =
      Ends-if (c == b'"') (Ends-bind (parse_json_string-Ends (c ∷ cs)) (λ a p. returns p)) (
        Ends-if (c == b'-' || is_digit c || c == b'.') (parse_json_number-Ends (c ∷ cs)) (
          Ends-if (c == b't' || c == b'f') (parse_json_bool-Ends c cs)
            (Ends-if (c == b'n') (parse_json_null-Ends c cs) throws)))
