-- ===== src/Json/Builder/RoundTrip.antt =====
-- A value that is printed and parsed again.
use oos.Prelude.{
  ℕ, zero, suc, ◌+◌, ◌/◌, ◌%◌, ◌<◌, ltb, Bool-cases, inl, inr, ◌≡◌, ◌∙◌, refl, ap, sym, List, [],
  ◌∷◌, ◌++◌, append-nil, some, arith, true, false,
}
use oos.Prelude.Bytes.{Bytes, codes}
use oos.Prelude.Int.{pos, negsuc}
use oos.Prelude.Outcome.{ok}
use oos.Json.Value.{
  Json, Items, Fields, null, integer, real, boolean, string, object, array, no_items, item,
  no_fields, field,
}
use oos.Json.Print.{str, join_items, join_fields, digits, integer_text}
use oos.Json.Scalar.{CLibrary, Event}
use oos.Json.Scalar.Reads.{IsPlain}
use oos.Json.Events.{
  events, item_events, field_events, IsPrintable, ArePrintable, ArePrintableFields,
}
use oos.Json.Parser.{parse_json}
use oos.Json.Parser.RoundTrip.{parse_json-str}
use oos.Json.Builder.{Builder, on_events, on_event, c_str, build, parse}
use oos.Json.Builder.Build.{state}
use oos.Json.Builder.Values.{IsSorted, array-Fills, object-Fills}

on_events-events :
    (x v : Json) (k : Bytes)
    → IsSorted x
    → (k' : Bytes) × (on_events (events x) (state v k []) ≡ some (state x k' []))
unfolding on_events on_event events
on_events-events null v k s = (k, refl)
on_events-events (integer n) v k s = (k, refl)
on_events-events (real n) v k s = (k, refl)
on_events-events (boolean b) v k s = (k, refl)
on_events-events (string t) v k s = (k, refl)
on_events-events (object fs) v k s =
    let (k', e) = object-Fills fs s v v k [] [] refl [] in
    (
      k',
      ap (λ (es : List Event). on_events es (state (object no_fields) k ([] ∷ [])))
            (sym (append-nil (field_events fs)))
          ∙ e,
    )
on_events-events (array xs) v k s =
    let (k', e) = array-Fills xs s v v k [] [] refl [] in
    (
      k',
      ap (λ (es : List Event). on_events es (state (array no_items) k ([] ∷ [])))
            (sym (append-nil (item_events xs)))
          ∙ e,
    )

-- The callbacks build any value from the calls for it, also in a parser that was used before, where the
-- keys of each object in it are in the order of the map.
pub build-events : (v : Json) (b : Builder) → IsSorted v → build b (ok (events v)) ≡ ok v
unfolding build
build-events v b s = let (k, e) = on_events-events v b.value b.key s in rw (build, e) refl

-- A text without a 0 byte goes whole to a C function.
abbrev IsWhole : Bytes → Type 0
IsWhole s = c_str s ≡ s

append-IsWhole : (s t : Bytes) → IsWhole s → IsWhole t → IsWhole (s ++ t)
unfolding c_str
append-IsWhole [] t h g = g
append-IsWhole (zero ∷ s) t h g = cc
append-IsWhole (suc c ∷ s) t h g = ap (◌∷◌ (suc c)) (append-IsWhole s t (cc) g)

IsPlain-IsWhole : (s : Bytes) → IsPlain s → IsWhole s
unfolding c_str
IsPlain-IsWhole [] h = refl
IsPlain-IsWhole (zero ∷ s) (h, _, _, _) = absurd (omega (arith, h))
IsPlain-IsWhole (suc c ∷ s) (_, _, _, h) = ap (◌∷◌ (suc c)) (IsPlain-IsWhole s h)

one-IsWhole : (c : ℕ) → 0 < c → IsWhole (c ∷ [])
unfolding c_str
one-IsWhole zero h = absurd (omega (arith, h))
one-IsWhole (suc c) h = refl

digits-IsWhole : (fuel n : ℕ) → IsWhole (digits fuel n)
unfolding digits c_str
digits-IsWhole zero n = refl
digits-IsWhole (suc fuel) n = elim (Bool-cases (ltb n 10)) [
  | inl e ↦ rw e (one-IsWhole (b'0' + n) (omega arith))
  | inr e ↦ rw e (
      append-IsWhole (digits fuel (n / 10)) ((b'0' + n % 10) ∷ []) (digits-IsWhole fuel (n / 10))
        (one-IsWhole (b'0' + n % 10) (omega arith)))
]

member-IsWhole : (k t : Bytes) → IsPlain k → IsWhole t → IsWhole ((k ++ codes "\": ") ++ t)
unfolding c_str
member-IsWhole k t plain h =
    append-IsWhole (k ++ codes "\": ") t
      (append-IsWhole k (codes "\": ") (IsPlain-IsWhole k plain) refl) h

module _ (real_text : ℕ → Bytes) where
  mutual
    unfolding str integer_text c_str

    str-IsWhole : (v : Json) → IsPrintable v → IsWhole (str real_text v)
    str-IsWhole null h = refl
    str-IsWhole (integer (pos n)) h = digits-IsWhole (suc n) n
    str-IsWhole (integer (negsuc n)) h = ap (◌∷◌ b'-') (digits-IsWhole (suc (suc n)) (suc n))
    str-IsWhole (real x) h = absurd (omega (arith, h))
    str-IsWhole (boolean true) h = refl
    str-IsWhole (boolean false) h = refl
    str-IsWhole (string s) h =
        ap (◌∷◌ b'"') (append-IsWhole s (b'"' ∷ []) (IsPlain-IsWhole s h) refl)
    str-IsWhole (object fs) h =
        ap (◌∷◌ b'{')
          (append-IsWhole (join_fields real_text fs) (b'}' ∷ []) (fields-IsWhole fs h) refl)
    str-IsWhole (array xs) h =
        ap (◌∷◌ b'[')
          (append-IsWhole (join_items real_text xs) (b']' ∷ []) (items-IsWhole xs h) refl)

    items-IsWhole : (xs : Items) → ArePrintable xs → IsWhole (join_items real_text xs)
    items-IsWhole no_items h = refl
    items-IsWhole (item v no_items) (h, _) = str-IsWhole v h
    items-IsWhole (item v (item w xs)) (h, hs) =
        append-IsWhole (str real_text v ++ codes ", ") (join_items real_text (item w xs))
          (append-IsWhole (str real_text v) (codes ", ") (str-IsWhole v h) refl)
          (items-IsWhole (item w xs) hs)

    fields-IsWhole : (fs : Fields) → ArePrintableFields fs → IsWhole (join_fields real_text fs)
    fields-IsWhole no_fields h = refl
    fields-IsWhole (field k v no_fields) (plain, h, _) =
        ap (◌∷◌ b'"') (member-IsWhole k (str real_text v) plain (str-IsWhole v h))
    fields-IsWhole (field k v (field j w fs)) (plain, h, hs) = ap (◌∷◌ b'"') (
        append-IsWhole ((k ++ codes "\": ") ++ str real_text v ++ codes ", ")
          (join_fields real_text (field j w fs))
          (append-IsWhole ((k ++ codes "\": ") ++ str real_text v) (codes ", ")
            (member-IsWhole k (str real_text v) plain (str-IsWhole v h)) refl)
          (fields-IsWhole (field j w fs) hs))

  module _ (lib : CLibrary) (fresh : lib.range_error ≡ false) where
    -- A value that is printed and parsed again, by a new parser or one that was used before, is the
    -- same value, where `errno` is not `ERANGE` from a conversion before, its numbers are whole and in
    -- range, its strings and keys hold no quote, no backslash and no 0 byte, and the keys of each object
    -- are in the order of the map.
    pub parse-str :
        (v : Json) (b : Builder) → IsPrintable v → IsSorted v → parse lib b (str real_text v) ≡ ok v
    unfolding parse
    parse-str v b h s =
        ap (λ (t : Bytes). build b (parse_json lib t)) (str-IsWhole v h)
        ∙ ap (build b) (parse_json-str lib fresh real_text v h)
        ∙ build-events v b s
