-- ===== src/Utils/Html/Safe.antt =====
-- What an escaped text can hold.
use oos.Prelude.{
  ℕ, ◌≡◌, refl, Bool, true, false, not, ◌||◌, [], ◌∷◌, ◌++◌, ◌==◌, if◌then◌else◌, Bool-cases, inl,
  inr, arith,
}
use oos.Prelude.Bytes.{Bytes}
use oos.Utils.Html.{escape_char, escape}

-- A character that begins or ends neither a tag nor a quoted attribute.
abbrev pub is_plain : ℕ → Bool
is_plain c = not (c == b'<' || c == b'>' || c == b'"' || c == b'\'')

abbrev pub all_plain : Bytes → Bool
all_plain [] = true
all_plain (c ∷ cs) = if is_plain c then all_plain cs else false

all_plain-append :
    (a b : Bytes) → all_plain a ≡ true → all_plain b ≡ true → all_plain (a ++ b) ≡ true
all_plain-append [] b h g = g
all_plain-append (c ∷ a) b h g = elim (Bool-cases (is_plain c)) [
  | inl e ↦ rw e (all_plain-append a b (ground (arith, e, h)) g)
  | inr e ↦ absurd (ground (arith, e, h))
]

all_plain-escape_char : (c : ℕ) → all_plain (escape_char c) ≡ true
unfolding escape_char
all_plain-escape_char c = ground arith

-- An escaped text holds no `<`, no `>` and no quote.
pub all_plain-escape : (value : Bytes) → all_plain (escape value) ≡ true
unfolding escape
all_plain-escape [] = refl
all_plain-escape (c ∷ value) =
    all_plain-append (escape_char c) (escape value) (all_plain-escape_char c)
      (all_plain-escape value)
