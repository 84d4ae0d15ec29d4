-- ===== src/Json/Parser/Reads.antt =====
-- The text of a value, read by the parser.
use oos.Prelude.{
  ℕ, zero, suc, ◌<◌, ◌≡◌, ◌∙◌, refl, ap, sym, Bool, true, false, [], ◌∷◌, ◌++◌, append_assoc, ◌==◌,
  if◌then◌else◌, arith,
}
use oos.Prelude.Bytes.{Bytes, codes}
use oos.Prelude.Outcome.{ok}
use oos.Json.Value.{Json, null, integer, real, boolean, string, object, array}
use oos.Json.Print.{str, join_items, join_fields, integer_text}
use oos.Json.Events.{events, IsPrintable, need}
use oos.Json.Scalar.{
  CLibrary, skip_ws, starts_with, parse_scalar, parse_json_number, is_error, parse_json_bool,
  parse_json_null, compare_string, is_space,
}
use oos.Json.Scalar.Reads.{
  IsPlain, IsLong, Stops, starts_number, parse_json_string-plain, strtoll-integer_text,
  integer_text-cons, not_point,
}
use oos.Json.Parser.{parse_json_value, on_parse_object, on_parse_array}

module _ (lib : CLibrary) (real_text : ℕ → Bytes) where
  abbrev pub text : Json → Bytes
  text v = str real_text v

  -- The first character of a text is neither a space nor a closing bracket.
  abbrev begins : ℕ → Bool
  begins c = if is_space c then false else if c == b']' then false else true

  starts_number-begins : (c : ℕ) → starts_number c ≡ true → begins c ≡ true
  starts_number-begins c h = ground (arith, h)

  str-cons :
      (v : Json)
      → IsPrintable v
      → (c : ℕ) × (cs : Bytes) × (str real_text v ≡ c ∷ cs) × (begins c ≡ true)
  unfolding str
  str-cons null h = (b'n', codes "ull", refl, refl)
  str-cons (integer n) h =
      let (c, cs, e, d) = integer_text-cons n in (c, cs, e, starts_number-begins c d)
  str-cons (real x) h = absurd (omega (arith, h))
  str-cons (boolean true) h = (b't', codes "rue", refl, refl)
  str-cons (boolean false) h = (b'f', codes "alse", refl, refl)
  str-cons (string s) h = (b'"', s ++ b'"' ∷ [], refl, refl)
  str-cons (object fs) h = (b'{', join_fields real_text fs ++ b'}' ∷ [], refl, refl)
  str-cons (array xs) h = (b'[', join_items real_text xs ++ b']' ∷ [], refl, refl)

  skip_ws-begins : (c : ℕ) (cs : Bytes) → begins c ≡ true → skip_ws (c ∷ cs) ≡ c ∷ cs
  unfolding skip_ws
  skip_ws-begins c cs h = let e : is_space c ≡ false = ground (arith, h) in rw e refl

  pub skip_ws-str :
      (v : Json) (rest : Bytes) → IsPrintable v → skip_ws (text v ++ rest) ≡ text v ++ rest
  skip_ws-str v rest h = let (c, cs, e, d) = str-cons v h in rw e (skip_ws-begins c (cs ++ rest) d)

  pub not_bracket :
      (v : Json) (rest : Bytes) → IsPrintable v → starts_with b']' (text v ++ rest) ≡ false
  not_bracket v rest h = let (c, cs, e, d) = str-cons v h in rw e (ground (arith, d))

  -- With more fuel than it needs, the parser reads the text of `v` off `s`, spaces in front of it
  -- left out, and leaves `rest`.
  abbrev pub ReadsValue : Json → Type 0
  ReadsValue v =
      (f : ℕ) (s rest : Bytes)
      → need v < f
      → Stops rest
      → skip_ws s ≡ text v ++ rest
      → parse_json_value lib f s ≡ ok (events v, rest)

  number-Reads :
      (c : ℕ) (s : Bytes) → starts_number c ≡ true → parse_scalar lib c s ≡ parse_json_number lib s
  unfolding parse_scalar
  number-Reads c s h = let e : (c == b'"') ≡ false = ground (arith, h) in rw (e, h) refl

  -- The step of a value that is not nested
  pub scalar-step :
      (f c : ℕ) (s cs : Bytes)
      → skip_ws s ≡ c ∷ cs
      → (c == b'{') ≡ false
      → (c == b'[') ≡ false
      → parse_json_value lib (suc f) s ≡ parse_scalar lib c (c ∷ cs)
  unfolding parse_json_value
  scalar-step f c s cs e p q = rw (parse_json_value, e, p, q) refl

  pub object-step :
      (f : ℕ) (s cs : Bytes)
      → skip_ws s ≡ b'{' ∷ cs
      → parse_json_value lib (suc f) s ≡ on_parse_object lib f cs
  unfolding parse_json_value
  object-step f s cs e = rw (parse_json_value, e) refl

  pub array-step :
      (f : ℕ) (s cs : Bytes)
      → skip_ws s ≡ b'[' ∷ cs
      → parse_json_value lib (suc f) s ≡ on_parse_array lib f cs
  unfolding parse_json_value
  array-step f s cs e = rw (parse_json_value, e) refl

  pub integer-Reads : lib.range_error ≡ false → (n : _) → IsLong n → ReadsValue (integer n)
  unfolding str parse_json_number is_error events
  integer-Reads fresh n h zero s rest lt stops e = absurd (omega (arith, lt))
  integer-Reads fresh n h (suc f) s rest lt stops e =
      let (c, cs, d, g) = integer_text-cons n in
      let t : c ∷ (cs ++ rest) ≡ integer_text n ++ rest = rw d refl in
      scalar-step f c s (cs ++ rest) (e ∙ sym t) (ground (arith, g)) (ground (arith, g))
      ∙ number-Reads c (c ∷ (cs ++ rest)) g
      ∙ ap (λ (x : Bytes). parse_json_number lib x) t
      ∙ rw
          (
            parse_json_number,
            strtoll-integer_text n rest h stops,
            fresh,
            is_error,
            not_point rest stops,
            stops,
          )
          refl

  pub string-Reads : (x : Bytes) → IsPlain x → ReadsValue (string x)
  unfolding str events parse_scalar
  string-Reads x h zero s rest lt stops e = absurd (omega (arith, lt))
  string-Reads x h (suc f) s rest lt stops e =
      scalar-step f b'"' s ((x ++ b'"' ∷ []) ++ rest) e refl refl
      ∙ rw (append_assoc x (b'"' ∷ []) rest, parse_json_string-plain x rest h) refl

  pub null-Reads : ReadsValue null
  unfolding str events parse_scalar parse_json_null compare_string
  null-Reads zero s rest lt stops e = absurd (omega (arith, lt))
  null-Reads (suc f) s rest lt stops e = scalar-step f b'n' s (codes "ull" ++ rest) e refl refl

  pub boolean-Reads : (b : Bool) → ReadsValue (boolean b)
  unfolding str events parse_scalar parse_json_bool compare_string
  boolean-Reads b zero s rest lt stops e = absurd (omega (arith, lt))
  boolean-Reads true (suc f) s rest lt stops e =
      scalar-step f b't' s (codes "rue" ++ rest) e refl refl
  boolean-Reads false (suc f) s rest lt stops e =
      scalar-step f b'f' s (codes "alse" ++ rest) e refl refl
