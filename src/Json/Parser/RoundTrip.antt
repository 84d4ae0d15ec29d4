-- ===== src/Json/Parser/RoundTrip.antt =====
-- The text of every printable value, read by the parser.
use oos.Prelude.{
  false, ℕ, ◌+◌, ◌*◌, ◌≤◌, ◌≡◌, ◌∙◌, refl, ap, sym, [], ◌∷◌, ◌++◌, append-nil, arith, length,
  length-append,
}
use oos.Prelude.Bytes.{Bytes}
use oos.Prelude.Outcome.{ok}
use oos.Json.Value.{
  Json, Items, Fields, null, integer, real, boolean, string, object, array, no_items, item,
  no_fields, field,
}
use oos.Json.Print.{str, join_items, join_fields}
use oos.Json.Events.{
  events, IsPrintable, ArePrintable, ArePrintableFields, need, need_items, need_fields,
}
use oos.Json.Scalar.{CLibrary, skip_ws}
use oos.Json.Parser.{parse_json, finish, parse_json_value}
use oos.Json.Parser.Reads.{
  ReadsValue, skip_ws-str, integer-Reads, string-Reads, null-Reads, boolean-Reads,
}
use oos.Json.Parser.Arrays.{
  tail_items, join-tail, ReadsItems, item-Reads, array-Reads, no_items-Reads, empty_array-Reads,
}
use oos.Json.Parser.Objects.{
  tail_fields, join-key, ReadsFields, field-Reads, object-Reads, no_fields-Reads,
  empty_object-Reads,
}

module _ (lib : CLibrary) (fresh : lib.range_error ≡ false) (real_text : ℕ → Bytes) where
  mutual
    pub value-Reads : (v : Json) → IsPrintable v → ReadsValue lib real_text v
    value-Reads null h = null-Reads lib real_text
    value-Reads (integer n) h = integer-Reads lib real_text fresh n h
    value-Reads (real x) h = absurd (omega (arith, h))
    value-Reads (boolean b) h = boolean-Reads lib real_text b
    value-Reads (string s) h = string-Reads lib real_text s h
    value-Reads (object no_fields) h = empty_object-Reads lib real_text
    value-Reads (object (field k v fs)) (plain, h, hs) =
        object-Reads lib real_text k v fs (value-Reads v h) (fields-Reads fs hs) plain h
    value-Reads (array no_items) h = empty_array-Reads lib real_text
    value-Reads (array (item v xs)) (h, hs) =
        array-Reads lib real_text v xs (value-Reads v h) (items-Reads xs hs) h

    items-Reads : (xs : Items) → ArePrintable xs → ReadsItems lib real_text xs
    items-Reads no_items h = no_items-Reads lib real_text
    items-Reads (item v xs) (h, hs) =
        item-Reads lib real_text v xs (value-Reads v h) (items-Reads xs hs) h

    fields-Reads : (fs : Fields) → ArePrintableFields fs → ReadsFields lib real_text fs
    fields-Reads no_fields h = no_fields-Reads lib real_text
    fields-Reads (field k v fs) (plain, h, hs) =
        field-Reads lib real_text k v fs (value-Reads v h) (fields-Reads fs hs) plain h

  length-items :
      (v : Json) (xs : Items)
      → length (join_items real_text (item v xs))
        ≡ length (str real_text v) + length (tail_items lib real_text xs)
  length-items v xs =
      ap length (join-tail lib real_text v xs)
      ∙ length-append (str real_text v) (tail_items lib real_text xs)

  length-fields :
      (k : Bytes) (v : Json) (fs : Fields)
      → length (join_fields real_text (field k v fs)) + 1
        ≡ 4 + length k + length (str real_text v) + length (tail_fields lib real_text fs) + 1
  length-fields k v fs =
      let behind : Bytes = tail_fields lib real_text fs ++ b'}' ∷ [] in
      omega (
        arith,
        ap length (join-key lib real_text k v fs []),
        length-append (join_fields real_text (field k v fs)) (b'}' ∷ []),
        length-append k (b'"' ∷ b':' ∷ b' ' ∷ (str real_text v ++ behind)),
        length-append (str real_text v) behind,
        length-append (tail_fields lib real_text fs) (b'}' ∷ []),
      )

  mutual
    unfolding str

    need-le : (v : Json) → need v ≤ 4 * length (str real_text v)
    need-le null = omega arith
    need-le (integer n) = omega arith
    need-le (real x) = omega arith
    need-le (boolean b) = omega arith
    need-le (string s) = omega arith
    need-le (object no_fields) = omega arith
    need-le (object (field k v fs)) = omega (
      arith,
      need-le v,
      need_fields-le fs,
      length-fields k v fs,
      length-append (join_fields real_text (field k v fs)) (b'}' ∷ []),
    )
    need-le (array no_items) = omega arith
    need-le (array (item v xs)) = omega (
      arith,
      need-le v,
      need_items-le xs,
      length-items v xs,
      length-append (join_items real_text (item v xs)) (b']' ∷ []),
    )

    need_items-le : (xs : Items) → need_items xs ≤ 4 * length (tail_items lib real_text xs)
    need_items-le no_items = omega arith
    need_items-le (item v xs) = omega (arith, need-le v, need_items-le xs, length-items v xs)

    need_fields-le : (fs : Fields) → need_fields fs ≤ 4 * length (tail_fields lib real_text fs)
    need_fields-le no_fields = omega arith
    need_fields-le (field k v fs) =
        omega (arith, need-le v, need_fields-le fs, length-fields k v fs)

  -- The text that `str` prints of a value whose numbers are whole, whose strings and keys hold no
  -- quote, no backslash and no 0 byte, is parsed into the calls for that value.
  pub parse_json-str : (v : Json) → IsPrintable v → parse_json lib (str real_text v) ≡ ok (events v)
  unfolding parse_json finish skip_ws
  parse_json-str v h =
      let read : parse_json_value lib (4 * length (str real_text v) + 4) (str real_text v)
          ≡ ok (events v, []) =
        value-Reads v h (4 * length (str real_text v) + 4) (str real_text v) []
          (omega (arith, need-le v)) refl
          (ap skip_ws (sym (append-nil (str real_text v))) ∙ skip_ws-str lib real_text v [] h) in
      rw read refl
