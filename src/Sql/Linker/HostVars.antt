-- ===== src/Sql/Linker/HostVars.antt =====
-- The placeholders of a prepared statement and its host variables.
use oos.Prelude.{
  ℕ, zero, suc, ◌+◌, ◌/◌, ◌%◌, ◌≡◌, ◌≢◌, ◌∙◌, refl, ap, sym, List, [], ◌∷◌, ◌++◌, append_assoc,
  append-nil, ◌==◌, ltb, if◌then◌else◌, length, length-append, arith, Bool-cases, inl, inr,
}
use oos.Prelude.Bytes.{Bytes}
use oos.Prelude.Int.{ℤ, pos, negsuc}
use oos.Json.Print.{digits, integer_text}
use oos.Sql.Dialect.{Dialect, TokenType, prepare_identifier}
use oos.Sql.Dialect.Quotes.{double, escaped_quote, prepare_identifier-double}
use oos.Sql.Syntax.{Operand, operands}
use oos.Sql.Linker.{prepared, list_text}
use oos.Sql.Build.{Build, append_top, append_to_result, add_host_var, add_host_vars, push, finished}

-- The placeholders in a text
unfoldable pub marks : Bytes → ℕ
marks [] = 0
marks (c ∷ s) = (if c == b'?' then 1 else 0) + marks s

pub marks-append : (s t : Bytes) → marks (s ++ t) ≡ marks s + marks t
unfolding marks
marks-append [] t = omega arith
marks-append (c ∷ s) t = omega (arith, marks-append s t)

marks-one : (c : ℕ) → c ≢ b'?' → marks (c ∷ []) ≡ 0
unfolding marks
marks-one c h = ground (arith, h)

marks-other : (c : ℕ) (s : Bytes) → c ≢ b'?' → marks (c ∷ s) ≡ marks s
unfolding marks
marks-other c s h = ground (arith, h)

marks-double : (q : ℕ) (s : Bytes) → marks s ≡ 0 → marks (double q s) ≡ 0
unfolding marks double
marks-double q [] h = refl
marks-double q (c ∷ s) h = ground (arith, h, marks-double q s)

marks-digits : (fuel n : ℕ) → marks (digits fuel n) ≡ 0
unfolding marks digits
marks-digits zero n = refl
marks-digits (suc fuel) n = elim (Bool-cases (ltb n 10)) [
  | inl e ↦ rw e (marks-one (b'0' + n) (ground (arith, e)))
  | inr e ↦ rw e (
      omega (
        arith,
        marks-append (digits fuel (n / 10)) ((b'0' + n % 10) ∷ []),
        marks-digits fuel (n / 10),
        marks-one (b'0' + n % 10) (omega arith),
      ))
]

pub marks-integer_text : (n : ℤ) → marks (integer_text n) ≡ 0
unfolding integer_text
marks-integer_text (pos n) = marks-digits (suc n) n
marks-integer_text (negsuc n) =
    marks-other b'-' (digits (suc (suc n)) (suc n)) (omega arith)
    ∙ marks-digits (suc (suc n)) (suc n)

pub marks-operands : (op : Operand) → marks (operands op) ≡ 0
unfolding operands marks
marks-operands Operand.equal = refl
marks-operands _ = refl

-- No word, quote or type of the dialect has a placeholder in it.
pub record IsUnmarked (d : Dialect) : Type 0 where
  pub words : (t : TokenType) → marks (d.token_at t) ≡ 0
  pub opening : d.start_quote ≢ b'?'
  pub closing : d.end_quote ≢ b'?'
  pub types : (n : ℕ) → marks (d.type_string n) ≡ 0

pub marks-prepare_identifier :
    (d : Dialect) (name : Bytes)
    → IsUnmarked d
    → marks name ≡ 0
    → marks (prepare_identifier d name) ≡ 0
unfolding marks
marks-prepare_identifier d name u h = rw (prepare_identifier-double d name) (
    ground (
      arith,
      u.opening,
      u.closing,
      marks-double (escaped_quote d) name,
      marks-append (double (escaped_quote d) name) (d.end_quote ∷ []),
    ))

pub marks-list : (xs : List ℤ) → marks (list_text prepared xs) ≡ length xs
unfolding list_text marks
marks-list [] = refl
marks-list (x ∷ []) = refl
marks-list (x ∷ y ∷ xs) = omega (arith, marks-list (y ∷ xs))

-- The build has appended a text to the result on top, with a host variable for each placeholder in it.
abbrev pub Links : Build → Build → Type 0
Links b later =
    (t : Bytes) × (later.build_info_stack ≡ append_top t b.build_info_stack)
    × (length later.host_vars ≡ length b.host_vars + marks t)

-- A text that was made, with a host variable for each placeholder in it; the results are as before.
abbrev pub Makes : Build → Bytes × Build → Type 0
Makes b (t, later) =
    (later.build_info_stack ≡ b.build_info_stack)
    × (length later.host_vars ≡ length b.host_vars + marks t)

append_top-[] : (stack : List Bytes) → append_top [] stack ≡ stack
append_top-[] [] = refl
append_top-[] (t ∷ stack) = rw (append-nil t) refl

append_top-append_top :
    (s t : Bytes) (stack : List Bytes)
    → append_top t (append_top s stack) ≡ append_top (s ++ t) stack
append_top-append_top s t [] = refl
append_top-append_top s t (r ∷ stack) = rw (append_assoc r s t) refl

pub Links-refl : (b : Build) → Links b b
unfolding marks
Links-refl b = ([], sym (append_top-[] b.build_info_stack), omega arith)

pub Links-trans : (b later last : Build) → Links b later → Links later last → Links b last
Links-trans b later last (s, e, h) (t, d, g) = (
  s ++ t,
  d ∙ ap (append_top t) e ∙ append_top-append_top s t b.build_info_stack,
  omega (arith, h, g, marks-append s t),
)

-- A text without a placeholder
pub Links-plain : (part : Bytes) (b : Build) → marks part ≡ 0 → Links b (append_to_result part b)
unfolding append_to_result
Links-plain part b h = (part, refl, omega (arith, h))

-- What was made is appended.
pub Links-made : (b : Build) (r : Bytes × Build) → Makes b r → Links b (append_to_result r.0 r.1)
unfolding append_to_result
Links-made b (t, later) (e, h) = (t, ap (append_top t) e, h)

pub finished-Makes : (b later : Build) → Links (push b) later → Makes b (finished later)
unfolding finished push
finished-Makes b later (t, e, h) = rw (finished, e) (refl, h)

pub length-add_host_vars :
    (name : Bytes) (xs : List ℤ) (b : Build)
    → ((add_host_vars name xs b).build_info_stack ≡ b.build_info_stack)
      × (length (add_host_vars name xs b).host_vars ≡ length b.host_vars + length xs)
unfolding add_host_vars
length-add_host_vars name [] b = (refl, omega arith)
length-add_host_vars name (x ∷ xs) b =
    let (e, h) = length-add_host_vars name xs (add_host_var name b) in
    (e, omega (arith, h, length-append b.host_vars (name ∷ [])))
