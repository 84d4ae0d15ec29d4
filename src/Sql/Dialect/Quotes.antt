-- ===== src/Sql/Dialect/Quotes.antt =====
-- What a database reads of a quoted name or text: a quote that stands for itself is doubled.
use oos.Prelude.{
  ℕ, zero, suc, ◌≤◌, ◌≡◌, ◌≢◌, ◌∙◌, refl, ap, true, false, [], ◌∷◌, ◌++◌, append_assoc, Option,
  none, some, ◌==◌, if◌then◌else◌, length, arith, Bool-cases, inl, inr,
}
use oos.Prelude.Bytes.{Bytes}
use oos.Utils.Strings.{replace_loop, replace_all}
use oos.Sql.Dialect.{Dialect, prepare_identifier, prepare_literal}

-- The text with each quote doubled.
unfoldable pub double : ℕ → Bytes → Bytes
double q [] = []
double q (c ∷ s) = let rest = double q s in if c == q then q ∷ q ∷ rest else c ∷ rest

replace_loop-double :
    (fuel q : ℕ) (s : Bytes)
    → length s ≤ fuel
    → replace_loop fuel (q ∷ []) (q ∷ q ∷ []) s ≡ double q s
unfolding replace_loop double
replace_loop-double zero q [] h = refl
replace_loop-double zero q (c ∷ s) h = absurd (omega (arith, h))
replace_loop-double (suc fuel) q [] h = refl
replace_loop-double (suc fuel) q (c ∷ s) h =
    let rest : replace_loop fuel (q ∷ []) (q ∷ q ∷ []) s ≡ double q s =
      replace_loop-double fuel q s (omega (arith, h)) in
    elim (Bool-cases (c == q)) [ inl e ↦ rw (e, rest) refl | inr e ↦ rw (e, rest) refl ]

pub replace_all-double : (q : ℕ) (s : Bytes) → replace_all s (q ∷ []) (q ∷ q ∷ []) ≡ double q s
unfolding replace_all
replace_all-double q s = replace_loop-double (length s) q s (omega arith)

abbrev onto : ℕ → Option (Bytes × Bytes) → Option (Bytes × Bytes)
onto c none = none
onto c (some (s, rest)) = some (c ∷ s, rest)

-- The text up to the closing quote, which no other quote follows, and what stands behind it.
unfoldable pub read_quoted : ℕ → Bytes → Option (Bytes × Bytes)
read_quoted q [] = none
read_quoted q (c ∷ []) = if c == q then some ([], []) else none
read_quoted q (c ∷ d ∷ s) =
    let escaped = onto q (read_quoted q s) in
    let more = onto c (read_quoted q (d ∷ s)) in
    if c == q then if d == q then escaped else some ([], d ∷ s) else more

-- Another quote does not follow.
abbrev pub Ends : ℕ → Bytes → Type 0
Ends q [] = Unit
Ends q (c ∷ s) = c ≢ q

read-closing : (q : ℕ) (rest : Bytes) → Ends q rest → read_quoted q (q ∷ rest) ≡ some ([], rest)
unfolding read_quoted
read-closing q [] h = let e : (q == q) ≡ true = ground arith in rw e refl
read-closing q (c ∷ s) h =
    let e : (q == q) ≡ true = ground arith in
    let d : (c == q) ≡ false = ground (arith, h) in rw (e, d) refl

read-escaped : (q : ℕ) (s : Bytes) → read_quoted q (q ∷ q ∷ s) ≡ onto q (read_quoted q s)
unfolding read_quoted
read-escaped q s = let e : (q == q) ≡ true = ground arith in rw e refl

read-other :
    (q c : ℕ) (s : Bytes) → (c == q) ≡ false → read_quoted q (c ∷ s) ≡ onto c (read_quoted q s)
unfolding read_quoted
read-other q c [] e = rw e refl
read-other q c (d ∷ s) e = rw e refl

pub read-double :
    (q : ℕ) (s rest : Bytes) → Ends q rest → read_quoted q (double q s ++ q ∷ rest) ≡ some (s, rest)
unfolding double
read-double q [] rest h = read-closing q rest h
read-double q (c ∷ s) rest h = elim (Bool-cases (c == q)) [
  | inl e ↦
      let same : c ≡ q = ground (arith, e) in
      rw (e, read-escaped q (double q s ++ q ∷ rest), read-double q s rest h, same) refl
  | inr e ↦ rw (e, read-other q c (double q s ++ q ∷ rest) e, read-double q s rest h) refl
]

-- The quote that is doubled in a name
abbrev pub escaped_quote : Dialect → ℕ
escaped_quote d = if d.escapes_closing_bracket then d.end_quote else d.start_quote

pub prepare_identifier-double :
    (d : Dialect) (name : Bytes)
    → prepare_identifier d name
      ≡ d.start_quote ∷ (double (escaped_quote d) name ++ d.end_quote ∷ [])
unfolding prepare_identifier
prepare_identifier-double d name = elim (Bool-cases d.escapes_closing_bracket) [
  | inl e ↦ rw (e, replace_loop-double (length name) d.end_quote name (omega arith)) refl
  | inr e ↦ rw (e, replace_loop-double (length name) d.start_quote name (omega arith)) refl
]

-- A name that is prepared for a query stands behind the opening quote, and is read back up to the
-- closing quote, whatever the name, where the quote that the dialect escapes is the closing one, as it is
-- if both are the same, and another closing quote does not follow.
pub read-prepare_identifier :
    (d : Dialect) (name rest : Bytes)
    → escaped_quote d ≡ d.end_quote
    → Ends d.end_quote rest
    → (s : Bytes) × (prepare_identifier d name ++ rest ≡ d.start_quote ∷ s)
      × (read_quoted d.end_quote s ≡ some (name, rest))
read-prepare_identifier d name rest same h = (
  double d.end_quote name ++ d.end_quote ∷ rest,
  ap (λ (t : Bytes). t ++ rest) (prepare_identifier-double d name)
      ∙ ap (λ (q : ℕ). d.start_quote ∷ ((double q name ++ d.end_quote ∷ []) ++ rest)) same
      ∙ ap (λ (t : Bytes). d.start_quote ∷ t)
          (append_assoc (double d.end_quote name) (d.end_quote ∷ []) rest),
  read-double d.end_quote name rest h,
)

-- A text that is prepared for a query, behind the opening quote, is read back up to the closing quote,
-- whatever the text, where another quote does not follow.
pub read-prepare_literal :
    (d : Dialect) (text rest : Bytes)
    → Ends d.string_quote rest
    → read_quoted d.string_quote (prepare_literal d text ++ d.string_quote ∷ rest)
      ≡ some (text, rest)
unfolding prepare_literal
read-prepare_literal d text rest h =
    rw (replace_all-double d.string_quote text) (read-double d.string_quote text rest h)
